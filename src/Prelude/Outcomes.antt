-- ===== src/Prelude/Outcomes.antt =====
-- Results of Go functions that return an error beside their value.
use mathlib.Core.Path.{◌≡◌, refl}
use mathlib.Core.Bool.{Bool, true, false}

pub data Result {ℓ} (E A : Type ℓ) : Type ℓ where
  ok : A → Result E A
  err : E → Result E A

infixl 5 ◌>>=◌ ◌>>◌
abbrev pub ◌>>=◌ {ℓ} : {E A B : Type ℓ} → Result E A → (A → Result E B) → Result E B
ok a >>= f = f a
err e >>= f = err e

abbrev pub ◌>>◌ {ℓ} : {E B : Type ℓ} → Result E (Unit {ℓ}) → Result E B → Result E B
m >> k = m >>= λ _. k

-- `if bad { return …, e }`
abbrev pub reject_if {ℓ} : {E : Type ℓ} → Bool → E → Result E (Unit {ℓ})
reject_if true e = err e
reject_if false e = ok tt

-- Inversion of a successful bind, for proofs where the parts stay shut.
pub >>=-eq-ok {ℓ} :
    {E A B : Type ℓ} (result : Result E A) (next : A → Result E B) {last : B}
    → (result >>= next) ≡ ok last
    → (value : A) × (result ≡ ok value) × (next value ≡ ok last)
>>=-eq-ok (err e) next h = cc
>>=-eq-ok (ok value) next h = (value, refl, h)

pub >>=-assoc {ℓ} :
    {E A B C : Type ℓ} (result : Result E A) (next : A → Result E B) (final : B → Result E C)
    → ((result >>= next) >>= final) ≡ (result >>= λ value. next value >>= final)
>>=-assoc (err e) next final = refl
>>=-assoc (ok value) next final = refl

pub ok-injective {ℓ} : {E A : Type ℓ} {a b : A} → Path (Result E A) (ok a) (ok b) → a ≡ b
ok-injective h = cc

pub passed {ℓ} :
    {E A : Type ℓ} (bad : Bool) (e : E) (rest : Result E A) {a : A}
    → (reject_if bad e >> rest) ≡ ok a
    → (bad ≡ false) × (rest ≡ ok a)
passed true e rest h = cc
passed false e rest h = (refl, h)
