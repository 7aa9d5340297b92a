-- ===== src/Content/Payloads/Index.antt =====
-- internal/content/content.go: the map of artifacts that Payload.Validate builds.
use text.Mathlib.Text.{◌==◌ as str_eq}
use alt_tui.Prelude.{
  String, ◌≡◌, refl, ap, ◌⊎◌, inl, inr, none, some, true, List, [], ◌∷◌, arith, eq_iff, eq_refl,
  All, In, Bool-cases, ok,
}
use alt_tui.Prelude.Dict.{Dict, lookup, insert, lookup-insert}
use alt_tui.Content.{
  ArtifactRef, Artifact, ref_eq, index_artifacts, kind_eq, ArtifactKind, image, other_kind,
}

kind_eq_sound : (a b : ArtifactKind) → kind_eq a b ≡ true → a ≡ b
kind_eq_sound image image h = refl
kind_eq_sound (other_kind a) (other_kind b) h = ap other_kind ((eq_iff a b).0 h)
kind_eq_sound image (other_kind b) h = cc
kind_eq_sound (other_kind a) image h = cc

-- == on the struct is equality
pub ref_eq_sound : (a b : ArtifactRef) → ref_eq a b ≡ true → a ≡ b
unfolding ref_eq
ref_eq_sound a b h = ground (
  arith,
  eq_iff a.reference b.reference,
  kind_eq_sound a.kind b.kind,
  eq_iff a.mime_type b.mime_type,
  eq_iff a.name b.name,
  eq_iff a.digest b.digest,
)

abbrev pub reference_of : Artifact → String
reference_of a = a.ref.reference

pub index-step :
    (a : Artifact) (l : List Artifact) (known known' : Dict Artifact)
    → index_artifacts known (a ∷ l) ≡ ok known'
    → (lookup (reference_of a) known ≡ none)
      × (index_artifacts (insert (reference_of a) a known) l ≡ ok known')
unfolding index_artifacts
index-step a l known known' h = (ground arith, ground arith)

-- an entry stays while the loop runs
pub index-keeps :
    (l : List Artifact) (known known' : Dict Artifact) (k : String) (a : Artifact)
    → index_artifacts known l ≡ ok known'
    → lookup k known ≡ some a
    → lookup k known' ≡ some a
index-keeps [] known known' k a h e = unfold index_artifacts in ground arith
index-keeps (b ∷ l) known known' k a h e =
    let (new, rest) = index-step b l known known' h in
    index-keeps l (insert (reference_of b) b known) known' k a rest
      (ground (arith, new, lookup-insert (reference_of b) k b known, eq_iff (reference_of b) k))

-- every artifact is in the map under its own reference
pub index-holds :
    (l : List Artifact) (known known' : Dict Artifact) (a : Artifact)
    → index_artifacts known l ≡ ok known'
    → In a l
    → lookup (reference_of a) known' ≡ some a
index-holds [] known known' a h m = elim m [ ]
index-holds (b ∷ l) known known' a h (inl e) =
    let (new, rest) = index-step b l known known' h in
    rw e (
      index-keeps l (insert (reference_of b) b known) known' (reference_of b) b rest (
        ground (
          arith,
          lookup-insert (reference_of b) (reference_of b) b known,
          eq_refl (reference_of b),
        )))
index-holds (b ∷ l) known known' a h (inr m) =
    let (new, rest) = index-step b l known known' h in
    index-holds l (insert (reference_of b) b known) known' a rest m

-- the map holds nothing but the artifacts
pub index-only :
    (l : List Artifact) (known known' : Dict Artifact) (k : String) (a : Artifact)
    → index_artifacts known l ≡ ok known'
    → lookup k known' ≡ some a
    → (lookup k known ≡ some a) ⊎ In a l
index-only [] known known' k a h e = inl (unfold index_artifacts in ground arith)
index-only (b ∷ l) known known' k a h e =
    let (new, rest) = index-step b l known known' h in
    elim (index-only l (insert (reference_of b) b known) known' k a rest e) [
      | inr m ↦ inr (inr m)
      | inl f ↦ elim (Bool-cases (str_eq (reference_of b) k)) [
        | inl same ↦ inr (inl (ground (arith, f, lookup-insert (reference_of b) k b known)))
        | inr other ↦ inl (ground (arith, f, lookup-insert (reference_of b) k b known))
      ]
    ]

-- the references of `l` are new to the map
pub index-new :
    (l : List Artifact) (known known' : Dict Artifact)
    → index_artifacts known l ≡ ok known'
    → All (λ b. lookup (reference_of b) known ≡ none) l
index-new [] known known' h = tt
index-new (a ∷ l) known known' h =
    let (new, rest) = index-step a l known known' h in
    (new, still_new a known l (index-new l (insert (reference_of a) a known) known' rest))
  where
    still_new :
        (a : Artifact) (known : Dict Artifact) (l : List Artifact)
        → All (λ b. lookup (reference_of b) (insert (reference_of a) a known) ≡ none) l
        → All (λ b. lookup (reference_of b) known ≡ none) l
    still_new a known [] h = tt
    still_new a known (b ∷ l) h = (
      ground (arith, h.0, lookup-insert (reference_of a) (reference_of b) a known),
      still_new a known l h.1,
    )
