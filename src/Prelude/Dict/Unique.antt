-- ===== src/Prelude/Dict/Unique.antt =====
-- Maps whose keys are distinct, as Go's are: insertion and writing keep them so, and then an entry is
-- what its key looks up.
use Prim.Native.String.{String}
use mathlib.Core.Path.{◌≡◌, refl, sym, ap, ◌∙◌, subst}
use mathlib.Core.Logic.{inl, inr}
use mathlib.Core.Option.{none, some}
use mathlib.Core.List.{[], ◌∷◌}
use native.Mathlib.Omega.{arith}
use text.Mathlib.Text.{◌==◌ as str_eq}
use text.Mathlib.TextEquality.{eq_iff}
use alt_tui.Prelude.Tests.{Bool-cases}
use alt_tui.Prelude.Lists.{In}
use alt_tui.Prelude.Dict.{Dict, lookup, insert, update, lookup-insert, lookup-update}

-- no key stands twice
abbrev pub HasUniqueKeys : {V : Type 0} → Dict V → Type 0
HasUniqueKeys [] = Unit
HasUniqueKeys ((k, v) ∷ m) = (lookup k m ≡ none) × HasUniqueKeys m

module _ {V : Type 0} where
  pub HasUniqueKeys-insert :
      (k : String) (v : V) (m : Dict V) → HasUniqueKeys m → HasUniqueKeys (insert k v m)
  unfolding insert lookup
  HasUniqueKeys-insert k v [] h = (refl, tt)
  HasUniqueKeys-insert k v ((j, w) ∷ m) h = elim (Bool-cases (str_eq j k)) [
    | inl e ↦ rw e (subst (λ i. lookup i m ≡ none) ((eq_iff j k).0 e) h.0, h.1)
    | inr e ↦ rw e (
      ground (arith, lookup-insert k j v m, h.0, eq_iff j k, eq_iff k j, e),
      HasUniqueKeys-insert k v m h.1,
    )
  ]

  pub HasUniqueKeys-update :
      (k : String) (f : V → V) (m : Dict V) → HasUniqueKeys m → HasUniqueKeys (update k f m)
  unfolding update lookup
  HasUniqueKeys-update k f [] h = tt
  HasUniqueKeys-update k f ((j, w) ∷ m) h = elim (Bool-cases (str_eq j k)) [
    | inl e ↦ rw e (h.0, h.1)
    | inr e ↦ rw e (ground (arith, lookup-update k j f m, h.0), HasUniqueKeys-update k f m h.1)
  ]

  -- what a key looks up is an entry
  pub In-lookup : (k : String) (v : V) (m : Dict V) → lookup k m ≡ some v → In (k, v) m
  unfolding lookup
  In-lookup k v [] h = cc
  In-lookup k v ((j, w) ∷ m) h = elim (Bool-cases (str_eq j k)) [
    | inl e ↦ inl (ground (arith, (eq_iff j k).0 e, e, h))
    | inr e ↦ inr (In-lookup k v m (ground (arith, e, h)))
  ]

  pub lookup-In :
      (k : String) (v : V) (m : Dict V) → HasUniqueKeys m → In (k, v) m → lookup k m ≡ some v
  unfolding lookup
  lookup-In k v [] h m = elim m [ ]
  lookup-In k v ((j, w) ∷ m) h (inl e) =
      let key : j ≡ k = ap (λ (x : String × V). x.0) (sym e) in
      let value : w ≡ v = ap (λ (x : String × V). x.1) (sym e) in
      rw ((eq_iff j k).1 key) (ap some value)
  lookup-In k v ((j, w) ∷ m) h (inr n) = elim (Bool-cases (str_eq j k)) [
    | inl e ↦ absurd (not_twice j k v m ((eq_iff j k).0 e) h.0 (lookup-In k v m h.1 n))
    | inr e ↦ rw e (lookup-In k v m h.1 n)
  ]
    where
      not_twice :
          (j k : String) (v : V) (m : Dict V) → j ≡ k → lookup j m ≡ none → lookup k m ≡ some v → ⊥
      not_twice j k v m e a b = let clash : none ≡ some v = sym a ∙ ap (λ i. lookup i m) e ∙ b in cc
