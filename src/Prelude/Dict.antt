-- ===== src/Prelude/Dict.antt =====
-- Go maps with string keys, as association lists whose keys are distinct when built by `insert`.
-- Iteration goes through the list, so a theorem about a list in any order covers Go's random order.
pub mod Unique
use Prim.Native.String.{String}
use mathlib.Core.Path.{◌≡◌, refl, subst}
use mathlib.Core.Logic.{inl, inr}
use mathlib.Core.Option.{Option, none, some}
use mathlib.Core.List.{List, [], ◌∷◌}
use native.Mathlib.Omega.{arith}
use text.Mathlib.Text.{◌==◌ as str_eq}
use text.Mathlib.TextEquality.{eq_iff}
use alt_tui.Prelude.Tests.{if◌then◌else◌, Bool-cases}

abbrev pub Dict {ℓ} : Type ℓ → Type ℓ
Dict V = List (String × V)

module _ {ℓ} {V : Type ℓ} where
  -- m[k]
  unfoldable pub lookup : String → Dict V → Option V
  lookup k [] = none
  lookup k ((j, v) ∷ m) = if str_eq j k then some v else lookup k m

  -- m[k] = v
  unfoldable pub insert : String → V → Dict V → Dict V
  insert k v [] = (k, v) ∷ []
  insert k v ((j, w) ∷ m) = if str_eq j k then (k, v) ∷ m else (j, w) ∷ insert k v m

  -- a write through the pointer m[k], if there is one
  unfoldable pub update : String → (V → V) → Dict V → Dict V
  update k f [] = []
  update k f ((j, v) ∷ m) = if str_eq j k then (j, f v) ∷ m else (j, v) ∷ update k f m

  -- delete(m, k)
  unfoldable pub remove : String → Dict V → Dict V
  remove k [] = []
  remove k ((j, v) ∷ m) = let rest = remove k m in if str_eq j k then rest else (j, v) ∷ rest

  pub lookup-insert :
      (new sought : String) (value : V) (m : Dict V)
      → lookup sought (insert new value m)
        ≡ (if str_eq new sought then some value else lookup sought m)
  unfolding lookup insert
  lookup-insert new sought value [] = refl
  lookup-insert new sought value ((held, w) ∷ m) = ground (
    arith,
    lookup-insert new sought value m,
    eq_iff new sought,
    eq_iff held new,
    eq_iff held sought,
  )

  abbrev pub on_some : (V → V) → Option V → Option V
  on_some f none = none
  on_some f (some v) = some (f v)

  pub lookup-update :
      (k j : String) (f : V → V) (m : Dict V)
      → lookup j (update k f m) ≡ (if str_eq k j then on_some f (lookup j m) else lookup j m)
  unfolding lookup update
  lookup-update k j f [] = ground arith
  lookup-update k j f ((i, w) ∷ m) =
      ground (arith, eq_iff k j, eq_iff i k, eq_iff i j, lookup-update k j f m)

  pub lookup-remove :
      (k j : String) (m : Dict V)
      → lookup j (remove k m) ≡ (if str_eq k j then none else lookup j m)
  unfolding lookup remove
  lookup-remove k j [] = ground arith
  lookup-remove k j ((i, w) ∷ m) =
      ground (arith, eq_iff k j, eq_iff i k, eq_iff i j, lookup-remove k j m)

pub ruleset dict_laws = (lookup-insert, lookup-update, lookup-remove)

-- `P` holds of every entry of a map.
abbrev pub Entries {ℓ} : {V : Type ℓ} → (String → V → Type 0) → Dict V → Type 0
Entries P [] = Unit
Entries P ((k, v) ∷ m) = P k v × Entries P m

module _ {ℓ} {V : Type ℓ} (P : String → V → Type 0) where
  pub Entries-insert :
      (k : String) (v : V) (m : Dict V) → P k v → Entries P m → Entries P (insert k v m)
  unfolding insert
  Entries-insert k v [] p h = (p, tt)
  Entries-insert k v ((j, w) ∷ m) p h = elim (Bool-cases (str_eq j k)) [
    | inl e ↦ rw e (p, h.1)
    | inr e ↦ rw e (h.0, Entries-insert k v m p h.1)
  ]

  pub Entries-update :
      (k : String) (f : V → V) (m : Dict V)
      → ((j : String) (v : V) → P j v → P j (f v))
      → Entries P m
      → Entries P (update k f m)
  unfolding update
  Entries-update k f [] step h = tt
  Entries-update k f ((j, w) ∷ m) step h = elim (Bool-cases (str_eq j k)) [
    | inl e ↦ rw e (step j w h.0, h.1)
    | inr e ↦ rw e (h.0, Entries-update k f m step h.1)
  ]

  pub Entries-lookup : (k : String) (v : V) (m : Dict V) → Entries P m → lookup k m ≡ some v → P k v
  unfolding lookup
  Entries-lookup k v [] h e = cc
  Entries-lookup k v ((j, w) ∷ m) h e = elim (Bool-cases (str_eq j k)) [
    | inl same ↦
        subst (λ i. P i v) ((eq_iff j k).0 same) (subst (λ u. P j u) (ground (arith, same, e)) h.0)
    | inr other ↦ Entries-lookup k v m h.1 (ground (arith, other))
  ]
