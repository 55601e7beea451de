-- ===== src/Prelude/Result.antt =====
-- Fallible code: a value, or the exception that was raised.
use mathlib.Core.Path.{◌≡◌, refl}
use mathlib.Core.Bool.{Bool, true, false}
use exais_vector_store.Prelude.Tests.{if◌then◌else◌}
use mathlib.Core.Logic.{◌⊎◌, inl, inr}

pub data Result {ℓ κ} (E : Type ℓ) (A : Type κ) : Type (ℓ ⊔ κ) where
  ok : A → Result E A
  err : E → Result E A

infixl 5 ◌>>=◌
abbrev pub ◌>>=◌ {ℓ κ ι} :
    {E : Type ℓ} {A : Type κ} {B : Type ι} → Result E A → (A → Result E B) → Result E B
ok a >>= f = f a
err e >>= f = err e

-- Where two steps succeed together, each of them does.
module _ {ℓ κ ι} {E : Type ℓ} {A : Type κ} {B : Type ι} (next : A → Result E B) where
  pub both_ok :
      (first : Result E A) {result : B}
      → (first >>= next) ≡ ok result
      → (middle : A) × (first ≡ ok middle) × (next middle ≡ ok result)
  both_ok (ok middle) returned = (middle, refl, returned)
  both_ok (err problem) returned = cc

pub Result-cases {ℓ κ} :
    {E : Type ℓ} {A : Type κ} (m : Result E A) → ((a : A) × (m ≡ ok a)) ⊎ ((e : E) × (m ≡ err e))
Result-cases (ok value) = inl (value, refl)
Result-cases (err problem) = inr (problem, refl)

pub ok-inj {ℓ κ} :
    {E : Type ℓ} {A : Type κ} {a b : A} (same : Path (Result E A) (ok a) (ok b)) → a ≡ b
ok-inj same = cc

-- What has passed a guard.
pub past_guard {ℓ κ} :
    {E : Type ℓ} {A : Type κ} (test : Bool) (problem : E) (rest : Result E A) {value : A}
    → (if test then err problem else rest) ≡ ok value
    → (test ≡ false) × (rest ≡ ok value)
past_guard true problem rest passed = cc
past_guard false problem rest passed = (refl, passed)

-- Where a conditional succeeds, the branch that it takes does.
pub branch_ok {ℓ κ} :
    {E : Type ℓ} {A : Type κ} (test : Bool) (first second : Result E A) {value : A}
    → (if test then first else second) ≡ ok value
    → ((test ≡ true) × (first ≡ ok value)) ⊎ ((test ≡ false) × (second ≡ ok value))
branch_ok true first second is = inl (refl, is)
branch_ok false first second is = inr (refl, is)

-- What has passed a test that is needed.
pub past_need {ℓ κ} :
    {E : Type ℓ} {A : Type κ} (test : Bool) (problem : E) (rest : Result E A) {value : A}
    → (if test then rest else err problem) ≡ ok value
    → (test ≡ true) × (rest ≡ ok value)
past_need true problem rest passed = (refl, passed)
past_need false problem rest passed = cc
