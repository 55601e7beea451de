-- ===== src/Prelude/Exec.antt =====
-- Code that reads and changes a state of the world and may raise. What was done before a raise stays
-- done, so the state comes back beside the exception too.
use Prim.Native.Nat.{ℕ, ◌≤◌}
use exais_vector_store.Prelude.Result.{Result, ok, err}

abbrev pub Exec : Type 0 → Type 0 → Type 0 → Type 0
Exec S E A = S → Result E A × S

module _ {S E A : Type 0} where
  abbrev pub pure : A → Exec S E A
  pure a s = (ok a, s)

  abbrev pub raise : E → Exec S E A
  raise e s = (err e, s)

module _ {S E A B : Type 0} where
  abbrev pub resume : Result E A → (A → Exec S E B) → Exec S E B
  resume (ok a) f s = f a s
  resume (err e) f s = (err e, s)

  infixl 5 ◌>>=◌
  abbrev pub ◌>>=◌ : Exec S E A → (A → Exec S E B) → Exec S E B
  ◌>>=◌ m f s = resume (m s).0 f (m s).1

-- What holds of the value, or of the exception.
abbrev pub Ensures {ℓ} : {E A : Type 0} → (A → Type ℓ) → (E → Type ℓ) → Result E A → Type ℓ
Ensures P Q (ok a) = P a
Ensures P Q (err e) = Q e

module _ {ℓ} {E A : Type 0} {P P' : A → Type ℓ} {Q Q' : E → Type ℓ} where
  pub Ensures-mono :
      (r : Result E A)
      → ((a : A) → P a → P' a)
      → ((e : E) → Q e → Q' e)
      → Ensures P Q r
      → Ensures P' Q' r
  Ensures-mono (ok a) p q h = p a h
  Ensures-mono (err e) p q h = q e h

module _ {ℓ} {S E A B : Type 0} (P : A → Type ℓ) (R : B → Type ℓ) (Q : E → Type ℓ) where
  pub Ensures-resume :
      (r : Result E A) (f : A → Exec S E B) (s : S)
      → Ensures P Q r
      → ((a : A) (s' : S) → P a → Ensures R Q (f a s').0)
      → Ensures R Q (resume r f s).0
  Ensures-resume (ok a) f s h k = k a s h
  Ensures-resume (err e) f s h k = h

-- A bound on a number that a run may raise: it holds if it holds where the run may stop.
module _ {S E A B : Type 0} (cost : S → ℕ) where
  pub cost-resume :
      (r : Result E A) (f : A → Exec S E B) (s : S) (n : ℕ)
      → cost s ≤ n
      → ((a : A) → cost (f a s).1 ≤ n)
      → cost (resume r f s).1 ≤ n
  cost-resume (ok a) f s n h k = k a
  cost-resume (err e) f s n h k = h
