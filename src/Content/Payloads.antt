-- ===== src/Content/Payloads.antt =====
-- internal/content/content.go: theorems about Payload.Validate.
mod Index
use text.Mathlib.Text.{◌==◌ as str_eq}
use alt_tui.Prelude.{
  String, ◌≡◌, refl, sym, ap, ◌∙◌, ◌⊎◌, inl, inr, Option, none, some, Bool, true, false, not, ◌||◌,
  List, [], ◌∷◌, map, arith, eq_iff, eq_refl, All, All-intro, In, Bool-cases, Option-cases,
  if◌then◌else◌, Result, ok, err, ◌>>=◌, ◌>>◌, reject_if, >>=-eq-ok,
}
use alt_tui.Prelude.Dict.{Dict, lookup, insert, lookup-insert}
use alt_tui.Prelude.Text.{is_blank}
use alt_tui.Profile.{contains_id}
use alt_tui.Profile.Peers.{Distinct}
use alt_tui.Content.{
  ArtifactRef, Artifact, Part, PartType, part_text, part_attachment, part_other, Payload,
  InputError, ref_eq, index_artifacts, check_attachment, has_attachment, check_part, check_parts,
  check_referenced, validate, part_ref,
}
use Index.{reference_of, ref_eq_sound, index-step, index-holds, index-only, index-new}

contains_id-new :
    (a : Artifact) (known : Dict Artifact) (l : List Artifact)
    → All (λ b. lookup (reference_of b) (insert (reference_of a) a known) ≡ none) l
    → contains_id (map reference_of l) (reference_of a) ≡ false
unfolding contains_id
contains_id-new a known [] h = refl
contains_id-new a known (b ∷ l) h = ground (
  arith,
  h.0,
  lookup-insert (reference_of a) (reference_of b) a known,
  eq_iff (reference_of a) (reference_of b),
  eq_iff (reference_of b) (reference_of a),
  contains_id-new a known l h.1,
)

index-Distinct :
    (l : List Artifact) (known known' : Dict Artifact)
    → index_artifacts known l ≡ ok known'
    → Distinct (map reference_of l)
index-Distinct [] known known' h = tt
index-Distinct (a ∷ l) known known' h =
    let (new, rest) = index-step a l known known' h in
    (
      contains_id-new a known l (index-new l (insert (reference_of a) a known) known' rest),
      index-Distinct l (insert (reference_of a) a known) known' rest,
    )

-- The part is text without attachment, or refers to an artifact of the payload by its exact
-- metadata.
abbrev pub PartOk : List Artifact → PartType → Part → Type 0
PartOk artifacts part_text part = part.attachment ≡ none
PartOk artifacts part_attachment part =
    (a : Artifact) × In a artifacts × (part.attachment ≡ some a.ref)
PartOk artifacts (part_other t) part = ⊥

built_from :
    (artifacts : List Artifact) (known : Dict Artifact) (k : String) (a : Artifact)
    → index_artifacts [] artifacts ≡ ok known
    → lookup k known ≡ some a
    → In a artifacts
unfolding lookup
built_from artifacts known k a built e = elim (index-only artifacts [] known k a built e) [
  | inl f ↦ absurd (ground arith)
  | inr m ↦ m
]

attachment_artifact :
    (artifacts : List Artifact) (known : Dict Artifact) (o : Option ArtifactRef) (k : String)
    → index_artifacts [] artifacts ≡ ok known
    → check_attachment known o ≡ ok k
    → (a : Artifact) × In a artifacts × (o ≡ some a.ref) × (a.ref.reference ≡ k)
unfolding check_attachment
attachment_artifact artifacts known none k built h = cc
attachment_artifact artifacts known (some ref) k built h =
    elim (Option-cases (lookup ref.reference known)) [
      | inl e ↦ absurd (ground (arith, e))
      | inr (a, e) ↦
          let same = ref_eq_sound a.ref ref (ground (arith, e)) in
          (
            a,
            built_from artifacts known ref.reference a built e,
            ap some (sym same),
            ground (arith, e, same),
          )
    ]

-- the references that a part of a type adds
abbrev PartReference : PartType → Part → String → Type 0
PartReference t part k = (r : ArtifactRef) × (part_ref t part ≡ some r) × (r.reference ≡ k)

-- one part that is accepted
part_accepted :
    (artifacts : List Artifact) (known : Dict Artifact) (referenced referenced' : List String)
    (t : PartType) (part : Part)
    → index_artifacts [] artifacts ≡ ok known
    → check_part known referenced t part ≡ ok referenced'
    → PartOk artifacts t part
      × ((k : String)
          → contains_id referenced' k ≡ true
          → (contains_id referenced k ≡ true) ⊎ PartReference t part k)
unfolding check_part contains_id
part_accepted artifacts known referenced referenced' part_text part built h =
    (ground arith, λ k c. inl (ground arith))
part_accepted artifacts known referenced referenced' part_attachment part built h =
    let (j, checked, added) = >>=-eq-ok (check_attachment known part.attachment) _ h in
    let (a, m, e, same) = attachment_artifact artifacts known part.attachment j built checked in
    (
      (a, m, e),
      λ k c. elim (Bool-cases (str_eq j k)) [
        | inl hit ↦ inr (a.ref, e, same ∙ (eq_iff j k).0 hit)
        | inr miss ↦ inl (ground (arith, added, c, miss))
      ],
    )
part_accepted artifacts known referenced referenced' (part_other t) part built h = cc

-- some part refers to an artifact by the reference
abbrev pub Refers : String → List Part → Type 0
Refers k [] = ⊥
Refers k (part ∷ rest) = PartReference part.type part k ⊎ Refers k rest

parts_accepted :
    (artifacts : List Artifact) (known : Dict Artifact) (l : List Part)
    (referenced referenced' : List String)
    → index_artifacts [] artifacts ≡ ok known
    → check_parts known referenced l ≡ ok referenced'
    → All (λ part. PartOk artifacts part.type part) l
      × ((k : String)
          → contains_id referenced' k ≡ true
          → (contains_id referenced k ≡ true) ⊎ Refers k l)
unfolding check_parts
parts_accepted artifacts known [] referenced referenced' built h = (tt, λ k c. inl (ground arith))
parts_accepted artifacts known (part ∷ l) referenced referenced' built h =
    let (middle, first, rest) = >>=-eq-ok (check_part known referenced part.type part) _ h in
    let (this, from_this) =
      part_accepted artifacts known referenced middle part.type part built first in
    let (others, from_others) = parts_accepted artifacts known l middle referenced' built rest in
    (
      (this, others),
      λ k c. elim (from_others k c) [
        | inr r ↦ inr (inr r)
        | inl c' ↦ elim (from_this k c') [ inl d ↦ inl d | inr r ↦ inr (inl r) ]
      ],
    )

all_referenced :
    (referenced : List String) (known : Dict Artifact) (k : String) (a : Artifact)
    → check_referenced referenced known ≡ ok tt
    → lookup k known ≡ some a
    → contains_id referenced k ≡ true
unfolding check_referenced lookup
all_referenced referenced [] k a h e = cc
all_referenced referenced ((j, b) ∷ known) k a h e = elim (Bool-cases (str_eq j k)) [
  | inl hit ↦ rw (← (eq_iff j k).0 hit) (ground arith)
  | inr miss ↦ all_referenced referenced known k a (ground arith) (ground arith)
]

-- What an accepted payload satisfies.
pub record IsExact (p : Payload) : Type 0 where
  pub distinct : Distinct (map reference_of p.artifacts)
  pub parts_ok : All (λ part. PartOk p.artifacts part.type part) p.input
  pub all_referred : All (λ a. Refers (reference_of a) p.input) p.artifacts

-- A payload that Validate accepts is exact: its artifacts have distinct references, every
-- attachment part carries the metadata of one of them, and every one is referred to by some part.
pub validate-IsExact : (p : Payload) → validate p ≡ ok tt → IsExact p
unfolding validate
validate-IsExact p h =
    let (known, built, checks) = >>=-eq-ok (index_artifacts [] p.artifacts) _ h in
    let (referenced, parts, referred) = >>=-eq-ok (check_parts known [] p.input) _ checks in
    let (accepted, from_parts) =
      parts_accepted p.artifacts known p.input [] referenced built parts in
    record {
      distinct = index-Distinct p.artifacts [] known built;
      parts_ok = accepted;
      all_referred = All-intro _ p.artifacts λ a m.
          let entry = index-holds p.artifacts [] known a built m in
          elim (from_parts (reference_of a)
            (all_referenced referenced known (reference_of a) a referred entry)) [
              | inl c ↦ absurd (unfold contains_id in ground (arith, c))
              | inr r ↦ r
            ];
    }
