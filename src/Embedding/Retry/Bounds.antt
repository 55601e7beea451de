-- ===== src/Embedding/Retry/Bounds.antt =====
-- What a round of the retry loop may lead to.
use exais_vector_store.Prelude.{
  Bool-cases, inl, inr, ℕ, suc, ◌+◌, ◌≤◌, ◌<◌, ◌≡◌, refl, List, [], ◌∷◌, Option, none, some, false,
  arith, ltb, ◌==◌, if◌then◌else◌,
}
use exais_vector_store.Prelude.Result.{ok, err}
use exais_vector_store.Embedding.Retry.{
  is_retryable_status, TransportError, Response, Posted, response, transport, escaped, Failure,
  exhausted, other, unreachable, Event, posted, double_bill, slept, Client, Limits, Progress,
  Verdict, return, stop, again, after_response, after_transport, try_post, plan_wait, read_timeout,
}

abbrev pub count_posted : List Event → ℕ
count_posted [] = 0
count_posted (posted ∷ events) = suc (count_posted events)
count_posted (double_bill done cap ∷ events) = count_posted events
count_posted (slept delay ∷ events) = count_posted events

abbrev pub count_double_bill : List Event → ℕ
count_double_bill [] = 0
count_double_bill (posted ∷ events) = count_double_bill events
count_double_bill (double_bill done cap ∷ events) = suc (count_double_bill events)
count_double_bill (slept delay ∷ events) = count_double_bill events

-- Every warning of a possible double bill is followed by a sleep and by the retry that it names.
abbrev pub IsHonest : List Event → Type 0
IsHonest [] = Unit
IsHonest (posted ∷ events) = IsHonest events
IsHonest (slept delay ∷ events) = IsHonest events
IsHonest (double_bill done cap ∷ slept delay ∷ posted ∷ events) = IsHonest events
IsHonest (double_bill done cap ∷ _) = ⊥

-- The exception reports the number of its last attempt.
abbrev pub Reports : {B E : Type 0} → ℕ → Failure B E → Type 0
Reports attempt (exhausted e) = e.attempts ≡ attempt
Reports attempt (other e) = Unit
Reports attempt unreachable = ⊥

-- what a round may lead to
abbrev pub Tried : {B E : Type 0} → Limits → ℕ → Progress B → Verdict B E → Type 0
Tried limits attempt p (return r) = is_retryable_status r.status_code ≡ false
Tried limits attempt p (stop e) = Reports attempt e
Tried limits attempt p (again p' wait none) = p'.timeout_retries ≡ p.timeout_retries
Tried limits attempt p (again p' wait (some (done, allowance))) =
    (p'.timeout_retries ≡ p.timeout_retries + 1)
    × (p'.timeout_retries ≤ limits.timeout_cap)
    × (done ≡ p'.timeout_retries)
    × (allowance ≡ limits.timeout_cap)

module _ {W B E : Type 0} (c : Client W B E) where
  after_response-Tried :
      (limits : Limits) (attempt : ℕ) (p : Progress B) (r : Response B) (w : W)
      → Tried limits attempt p (after_response c p r w).0
  unfolding after_response
  after_response-Tried limits attempt p r w =
      elim (Bool-cases (is_retryable_status r.status_code)) [
        | inl retryable ↦ elim (Bool-cases (r.status_code == 429)) [
          | inl limited ↦ rw (retryable, limited, if◌then◌else◌) refl
          | inr limited ↦ rw (retryable, limited, if◌then◌else◌) refl
        ]
        | inr final ↦ rw (final, if◌then◌else◌) final
      ]

  after_transport-Tried :
      (limits : Limits) (attempt : ℕ) (p : Progress B) (e : TransportError)
      → Tried {E = E} limits attempt p (after_transport limits attempt p e)
  unfolding after_transport
  after_transport-Tried limits attempt p read_timeout =
      elim (Bool-cases (ltb limits.timeout_cap (p.timeout_retries + 1))) [
        | inl spent ↦ rw (spent, if◌then◌else◌) refl
        | inr left ↦ rw (left, if◌then◌else◌) (refl, ground arith, refl, refl)
      ]
  after_transport-Tried limits attempt p _ = refl

  pub try_post-Tried :
      (limits : Limits) (attempt : ℕ) (p : Progress B) (w : W)
      → Tried limits attempt p (try_post c limits attempt p w).0
  unfolding try_post
  try_post-Tried limits attempt p w = go (c.post w).0 refl
    where
      go :
          (r : Posted B E)
          → (c.post w).0 ≡ r
          → Tried limits attempt p (try_post c limits attempt p w).0
      go (response r) e = rw (e, try_post) (after_response-Tried limits attempt p r (c.post w).1)
      go (transport t) e = rw (e, try_post) (after_transport-Tried limits attempt p t)
      go (escaped x) e = rw (e, try_post) tt

  pub plan_wait-Reports :
      (limits : Limits) (started attempt : ℕ) (p : Progress B) (wait : Option ℕ) (w : W)
      (e : Failure B E)
      → (plan_wait c limits started attempt p wait w).0 ≡ err e
      → Reports attempt e
  unfolding plan_wait
  plan_wait-Reports limits started attempt p none w (exhausted x) h = ground arith
  plan_wait-Reports limits started attempt p none w (other x) h = tt
  plan_wait-Reports limits started attempt p none w unreachable h = ground arith
  plan_wait-Reports limits started attempt p (some d) w (exhausted x) h = ground arith
  plan_wait-Reports limits started attempt p (some d) w (other x) h = tt
  plan_wait-Reports limits started attempt p (some d) w unreachable h = ground arith

  pub plan_wait-attempts :
      (limits : Limits) (started attempt : ℕ) (p : Progress B) (wait : Option ℕ) (w : W) (d : ℕ)
      → (plan_wait c limits started attempt p wait w).0 ≡ ok d
      → attempt < limits.attempts
  unfolding plan_wait
  plan_wait-attempts limits started attempt p none w d h = ground arith
  plan_wait-attempts limits started attempt p (some wait) w d h = ground arith
