-- ===== src/Prelude/Order.antt =====
-- The order on the native numbers is well founded, and so is a relation measured by it.
use mathlib.Core.WellFounded.{Acc}
use exais_vector_store.Prelude.{ℕ, zero, suc, ◌<◌, arith, length, List}

-- `xs` is shorter than `ys`
abbrev pub IsShorter {ℓ} : {A : Type ℓ} → List A → List A → Type 0
IsShorter xs ys = length xs < length ys

IsShorter-below {ℓ} : {A : Type ℓ} (k : ℕ) (xs : List A) → length xs < k → Acc IsShorter xs
IsShorter-below zero xs h = elim h [ ]
IsShorter-below (suc k) xs h = Acc.intro xs (λ ys hy. IsShorter-below k ys (omega arith))

unfoldable pub IsShorter-acc {ℓ} : {A : Type ℓ} (xs : List A) → Acc IsShorter xs
unfolding IsShorter-below
IsShorter-acc xs = IsShorter-below (suc (length xs)) xs (omega arith)
