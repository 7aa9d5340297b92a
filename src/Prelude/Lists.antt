-- ===== src/Prelude/Lists.antt =====
-- Lists measured and indexed by native numbers, with Boolean and recursive quantifiers.
use Prim.Native.Nat.{ℕ, zero, suc, ◌+◌}
use mathlib.Core.Path.{◌≡◌, refl, sym, ap, subst}
use mathlib.Core.Logic.{◌⊎◌, inl, inr}
use mathlib.Core.Bool.{Bool, true, false, ◌&&◌, ◌||◌}
use mathlib.Core.Option.{Option, none, some}
use mathlib.Core.List.{List, [], ◌∷◌, ◌++◌}
use native.Mathlib.Omega.{arith}
use alt_tui.Prelude.Tests.{if◌then◌else◌, Bool-cases}

module _ {ℓ} {A : Type ℓ} where
  abbrev pub length : List A → ℕ
  length [] = 0
  length (x ∷ xs) = suc (length xs)

  abbrev pub get_elem? : List A → ℕ → Option A
  get_elem? [] i = none
  get_elem? (x ∷ xs) zero = some x
  get_elem? (x ∷ xs) (suc i) = get_elem? xs i

  -- whether some element passes the test
  abbrev pub any : (A → Bool) → List A → Bool
  any p [] = false
  any p (x ∷ xs) = p x || any p xs

  -- whether every element passes the test
  abbrev pub every : (A → Bool) → List A → Bool
  every p [] = true
  every p (x ∷ xs) = p x && every p xs

  pub length-append : (xs ys : List A) → length (xs ++ ys) ≡ length xs + length ys
  length-append [] ys = omega arith
  length-append (x ∷ xs) ys = omega (arith, length-append xs ys)

  pub any-append : (p : A → Bool) (xs ys : List A) → any p (xs ++ ys) ≡ (any p xs || any p ys)
  any-append p [] ys = refl
  any-append p (x ∷ xs) ys = ground (arith, any-append p xs ys)

-- A predicate that every element satisfies, computing to a tuple.
abbrev pub All {ℓ κ} : {A : Type ℓ} → (A → Type κ) → List A → Type κ
All P [] = Unit
All P (first ∷ rest) = P first × All P rest

pub All-append {ℓ κ} :
    {A : Type ℓ} (P : A → Type κ) (before after : List A)
    → All P before
    → All P after
    → All P (before ++ after)
All-append P [] after _ later = later
All-append P (first ∷ rest) after held later = (held.0, All-append P rest after held.1 later)

-- `x` stands in the list; it computes to a sum of equations.
abbrev pub In : {A : Type 0} → A → List A → Type 0
In x [] = ⊥
In x (y ∷ ys) = (x ≡ y) ⊎ In x ys

module _ {A : Type 0} where
  pub In-append : (x : A) (xs ys : List A) → In x xs ⊎ In x ys → In x (xs ++ ys)
  In-append x [] ys (inl m) = elim m [ ]
  In-append x [] ys (inr m) = m
  In-append x (y ∷ xs) ys (inl (inl e)) = inl e
  In-append x (y ∷ xs) ys (inl (inr m)) = inr (In-append x xs ys (inl m))
  In-append x (y ∷ xs) ys (inr m) = inr (In-append x xs ys (inr m))

  pub In-append_cases : (x : A) (xs ys : List A) → In x (xs ++ ys) → In x xs ⊎ In x ys
  In-append_cases x [] ys m = inr m
  In-append_cases x (y ∷ xs) ys (inl e) = inl (inl e)
  In-append_cases x (y ∷ xs) ys (inr m) = elim (In-append_cases x xs ys m) [
    | inl a ↦ inl (inr a)
    | inr b ↦ inr b
  ]

  pub All-intro : (P : A → Type 0) (xs : List A) → ((x : A) → In x xs → P x) → All P xs
  All-intro P [] h = tt
  All-intro P (x ∷ xs) h = (h x (inl refl), All-intro P xs (λ y m. h y (inr m)))

  pub All-at : (P : A → Type 0) (x : A) (xs : List A) → All P xs → In x xs → P x
  All-at P x [] h m = elim m [ ]
  All-at P x (y ∷ xs) h (inl e) = subst P (sym e) h.0
  All-at P x (y ∷ xs) h (inr m) = All-at P x xs h.1 m

module _ {A : Type 0} where
  -- the elements that pass the test
  unfoldable pub keep : (A → Bool) → List A → List A
  keep p [] = []
  keep p (x ∷ xs) = let rest = keep p xs in if p x then x ∷ rest else rest

  keep_cons_cases :
      (p : A → Bool) (x c : A) (l : List A) (b : Bool)
      → p c ≡ b
      → In x (if b then c ∷ keep p l else keep p l)
      → (In x (keep p l) → In x l × (p x ≡ true))
      → In x (c ∷ l) × (p x ≡ true)
  keep_cons_cases p x c l true e (inl q) ih = (inl q, subst (λ y. p y ≡ true) (sym q) e)
  keep_cons_cases p x c l true e (inr m) ih = (inr (ih m).0, (ih m).1)
  keep_cons_cases p x c l false e m ih = (inr (ih m).0, (ih m).1)

  pub of_In-keep : (p : A → Bool) (x : A) (l : List A) → In x (keep p l) → In x l × (p x ≡ true)
  unfolding keep
  of_In-keep p x [] m = elim m [ ]
  of_In-keep p x (c ∷ l) m = keep_cons_cases p x c l (p c) refl m (of_In-keep p x l)

  pub In-keep : (p : A → Bool) (x : A) (l : List A) → In x l → p x ≡ true → In x (keep p l)
  unfolding keep
  In-keep p x [] m h = elim m [ ]
  In-keep p x (c ∷ l) (inl q) h = rw (subst (λ y. p y ≡ true) q h) (inl q)
  In-keep p x (c ∷ l) (inr m) h = elim (Bool-cases (p c)) [
    | inl e ↦ rw e (inr (In-keep p x l m h))
    | inr e ↦ rw e (In-keep p x l m h)
  ]

module _ {A : Type 0} where
  -- `if value, ok := …; ok { result = append(result, value) }`, from the end of the list
  abbrev pub cons_some : Option A → List A → List A
  cons_some none xs = xs
  cons_some (some x) xs = x ∷ xs

  pub In-cons_some :
      (x : A) (o : Option A) (xs : List A) → (o ≡ some x) ⊎ In x xs → In x (cons_some o xs)
  In-cons_some x none xs (inl e) = cc
  In-cons_some x none xs (inr m) = m
  In-cons_some x (some y) xs (inl e) = inl (ground arith)
  In-cons_some x (some y) xs (inr m) = inr m

  pub of_In-cons_some :
      (x : A) (o : Option A) (xs : List A) → In x (cons_some o xs) → (o ≡ some x) ⊎ In x xs
  of_In-cons_some x none xs m = inr m
  of_In-cons_some x (some y) xs (inl e) = inl (ap some (sym e))
  of_In-cons_some x (some y) xs (inr m) = inr m
