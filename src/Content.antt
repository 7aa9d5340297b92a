-- ===== src/Content.antt =====
-- internal/content/content.go: user input and the metadata of its attachments. Sizes are `int`s that
-- are only compared, and never negative.
pub mod Payloads
mod Examples
use text.Mathlib.Text.{◌==◌ as str_eq}
use alt_tui.Prelude.{
  ℕ, ◌+◌, String, Option, none, some, Bool, true, false, not, ◌&&◌, List, [], ◌∷◌, ◌==◌,
  if◌then◌else◌, Result, ok, err, ◌>>=◌, ◌>>◌, reject_if,
}
use alt_tui.Prelude.Dict.{Dict, lookup, insert}
use alt_tui.Prelude.Text.{is_blank, concat, itoa}
use alt_tui.Profile.{contains_id}

pub data ArtifactKind : Type 0 where
  image : ArtifactKind
  other_kind : String → ArtifactKind

abbrev pub kind_eq : ArtifactKind → ArtifactKind → Bool
kind_eq image image = true
kind_eq (other_kind a) (other_kind b) = str_eq a b
kind_eq _ _ = false

pub record ArtifactRef : Type 0 where
  pub reference : String
  pub kind : ArtifactKind
  pub mime_type : String
  pub name : String
  pub digest : String
  pub byte_count : ℕ
  pub width : ℕ
  pub height : ℕ

-- ==, on the struct
unfoldable pub ref_eq : ArtifactRef → ArtifactRef → Bool
ref_eq a b =
    str_eq a.reference b.reference
    && kind_eq a.kind b.kind
    && str_eq a.mime_type b.mime_type
    && str_eq a.name b.name
    && str_eq a.digest b.digest
    && a.byte_count == b.byte_count
    && a.width == b.width
    && a.height == b.height

pub record Artifact : Type 0 where
  pub ref : ArtifactRef
  pub bytes : List ℕ

-- the `Type` of a part; the third is any other text
pub data PartType : Type 0 where
  part_text part_attachment : PartType
  part_other : String → PartType

pub record Part : Type 0 where
  pub type : PartType
  pub text : String
  pub attachment : Option ArtifactRef

abbrev pub Input : Type 0
Input = List Part

pub record Payload : Type 0 where
  pub input : Input
  pub artifacts : List Artifact

pub data InputError : Type 0 where
  reference_required : InputError
  duplicate_reference : String → InputError
  text_with_attachment : InputError
  attachment_without_reference : InputError
  missing_artifact : String → InputError
  metadata_mismatch : String → InputError
  unknown_part_type : String → InputError
  unreferenced_artifact : String → InputError

-- the loop over `p.Artifacts`
unfoldable pub index_artifacts : Dict Artifact → List Artifact → Result InputError (Dict Artifact)
index_artifacts known [] = ok known
index_artifacts known (a ∷ rest) =
    let later = index_artifacts (insert a.ref.reference a known) rest in
    if is_blank a.ref.reference
    then err reference_required
    else elim (lookup a.ref.reference known) [
      | none ↦ later
      | some _ ↦ err (duplicate_reference a.ref.reference)
    ]

-- the case PartAttachment, with the reference that becomes referenced
unfoldable pub check_attachment : Dict Artifact → Option ArtifactRef → Result InputError String
check_attachment known none = err attachment_without_reference
check_attachment known (some ref) =
    if is_blank ref.reference
    then err attachment_without_reference
    else elim (lookup ref.reference known) [
      | none ↦ err (missing_artifact ref.reference)
      | some a ↦
          if ref_eq a.ref ref then ok ref.reference else err (metadata_mismatch ref.reference)
    ]

abbrev pub has_attachment : Part → Bool
has_attachment part = elim part.attachment [ none ↦ false | some _ ↦ true ]

-- the switch on `part.Type`, with the references so far
unfoldable pub check_part :
    Dict Artifact → List String → PartType → Part → Result InputError (List String)
check_part known referenced part_text part =
    if has_attachment part then err text_with_attachment else ok referenced
check_part known referenced part_attachment part = do
  reference ← check_attachment known part.attachment
  ok (reference ∷ referenced)
check_part known referenced (part_other t) part = err (unknown_part_type t)

unfoldable pub check_parts :
    Dict Artifact → List String → List Part → Result InputError (List String)
check_parts known referenced [] = ok referenced
check_parts known referenced (part ∷ rest) = do
  referenced' ← check_part known referenced part.type part
  check_parts known referenced' rest

-- the loop over the keys of `artifacts`
unfoldable pub check_referenced : List String → Dict Artifact → Result InputError (Unit {0})
check_referenced referenced [] = ok tt
check_referenced referenced ((reference, _) ∷ rest) = do
  reject_if (not (contains_id referenced reference)) (unreferenced_artifact reference)
  check_referenced referenced rest

-- Payload.Validate
unfoldable pub validate : Payload → Result InputError (Unit {0})
validate p = do
  known ← index_artifacts [] p.artifacts
  referenced ← check_parts known [] p.input
  check_referenced referenced known

-- Text
unfoldable pub text_input : String → Input
text_input value =
    if str_eq value ""
    then []
    else record { type = part_text; text = value; attachment = none } ∷ []

-- TextPayload
abbrev pub text_payload : String → Payload
text_payload value = record { input = text_input value; artifacts = [] }

-- what keeps an input from being empty
abbrev part_counts : PartType → Part → Bool
part_counts part_text part = not (is_blank part.text)
part_counts part_attachment part = has_attachment part
part_counts (part_other _) part = false

-- Input.Empty
unfoldable pub is_empty : Input → Bool
is_empty [] = true
is_empty (part ∷ rest) =
    let later = is_empty rest in if part_counts part.type part then false else later

abbrev label : ArtifactKind → String
label image = "[Image #"
label (other_kind _) = "[Attachment #"

-- what one part shows, and how many attachments there have been
display_part : ℕ → PartType → Part → String × ℕ
display_part n part_text part = (part.text, n)
display_part n part_attachment part = elim part.attachment [
  | none ↦ ("", n)
  | some ref ↦ (concat (label ref.kind ∷ itoa (n + 1) ∷ "]" ∷ []), n + 1)
]
display_part n (part_other _) part = ("", n)

display_from : ℕ → Input → String
unfolding display_part
display_from n [] = ""
display_from n (part ∷ rest) =
    let (shown, n') = display_part n part.type part in concat (shown ∷ display_from n' rest ∷ [])

-- Input.DisplayText
unfoldable pub display_text : Input → String
unfolding display_from
display_text input = display_from 0 input

-- the attachment that a part refers to
abbrev pub part_ref : PartType → Part → Option ArtifactRef
part_ref part_attachment part = part.attachment
part_ref _ part = none

-- Input.AttachmentRefs, with the references seen so far
unfoldable pub refs_from : List String → Input → List ArtifactRef
refs_from seen [] = []
refs_from seen (part ∷ rest) = elim (part_ref part.type part) [
  | none ↦ refs_from seen rest
  | some ref ↦
      let repeated = refs_from seen rest in
      let first = ref ∷ refs_from (ref.reference ∷ seen) rest in
      if contains_id seen ref.reference then repeated else first
]

unfoldable pub attachment_refs : Input → List ArtifactRef
unfolding refs_from
attachment_refs input = refs_from [] input
