-- ===== src/Worker/Drained.antt =====
-- The worker drains its queue: each round spends an attempt.
use exais_vector_store.Prelude.{
  ℕ, ◌≡◌, refl, sym, ap, subst, inl, inr, true, false, List, [], ◌∷◌, ◌++◌, Option, none, some,
  arith, if◌then◌else◌, Bool-cases, All, ◌+◌, ◌-◌, ◌≤◌, ◌<◌, zero, suc, leb, ◌⊎◌,
}
use exais_vector_store.Prelude.Result.{Result, ok, err}
use exais_vector_store.Prelude.Text.{Text}
use exais_vector_store.Worker.{
  Job, JobError, Tables, Handlers, is_queued, eligible, claim, lock_row, perform, settle, attempt,
  process_once, run_worker, queued, completed, failed,
}
use exais_vector_store.Worker.Claimed.{IsClaim, claim-IsClaim}

module _ (allowance : Text → ℕ) where
  -- the attempts that are left to a job, and what a success of it may queue
  abbrev pub attempts_left : Job → ℕ
  attempts_left j =
      if is_queued j.status then (j.max_attempts - j.attempts) + allowance j.job_type else 0

  abbrev pub budget : List Job → ℕ
  budget [] = 0
  budget (j ∷ jobs) = attempts_left j + budget jobs

  pub budget-append : (xs ys : List Job) → budget (xs ++ ys) ≡ budget xs + budget ys
  budget-append [] ys = omega arith
  budget-append (x ∷ xs) ys = omega (arith, budget-append xs ys)

  -- a job in another state at the same place, which leaves something to spend
  spends :
      (before : List Job) (j k : Job) (after : List Job) (left : ℕ)
      → attempts_left k + left < attempts_left j
      → budget (before ++ k ∷ after) + left < budget (before ++ j ∷ after)
  spends before j k after left less =
      let old = budget-append before (j ∷ after) in
      let new = budget-append before (k ∷ after) in omega (arith, less, old, new)

-- no job can be claimed
abbrev pub IsDrained : {D : Type 0} → Tables D → Type 0
IsDrained t = All (λ k. eligible k ≡ false) t.jobs

module _ {D E : Type 0} (handlers : Handlers D E) (allowance : Text → ℕ) (weight : D → ℕ) where
  -- A handler that succeeds pays for the jobs that it queues, from the weight of the data and from
  -- what its own job was allowed.
  abbrev pub Pays : Type 0
  Pays =
      (row : Job) (d d2 : D) (new : List Job)
      → perform handlers row d ≡ ok (d2, new)
      → budget allowance new + weight d2 ≤ weight d + allowance row.job_type

  abbrev pub potential : Tables D → ℕ
  potential t = budget allowance t.jobs + weight t.rest

  settle_spends :
      (now : ℕ) (worker : Text) (before : List Job) (j : Job) (after : List Job) (t : Tables D)
      (result : Result (JobError E) (D × List Job))
      → Pays
      → perform handlers (lock_row worker j) t.rest ≡ result
      → eligible j ≡ true
      → before ++ j ∷ after ≡ t.jobs
      → potential (settle handlers now before (lock_row worker j) after t result) < potential t
  unfolding settle
  settle_spends now worker before j after t (ok (d, new)) pays is fits whole =
      let paid = pays (lock_row worker j) t.rest d new is in
      let fewer =
        spends allowance before j (record (lock_row worker j) { status = completed }) after
          (allowance j.job_type) (ground (arith, fits)) in
      let split =
        budget-append allowance
          (before ++ record (lock_row worker j) { status = completed } ∷ after) new in
      let same = ap (budget allowance) whole in omega (arith, paid, fewer, split, same)
  settle_spends now worker before j after t (err e) pays is fits whole =
      elim (Bool-cases (leb j.max_attempts (j.attempts + 1))) [
        | inl last ↦
            rw (last, if◌then◌else◌)
              (let fewer =
                  spends allowance before j
                    (record (lock_row worker j) { status = failed; locked_by = none }) after 0
                    (ground (arith, fits)) in
                let same = ap (budget allowance) whole in omega (arith, fewer, same))
        | inr more ↦
            rw (more, if◌then◌else◌)
              (let fewer =
                  spends allowance before j
                    (record (lock_row worker j) { status = queued; locked_by = none }) after 0
                    (ground (arith, fits)) in
                let same = ap (budget allowance) whole in omega (arith, fewer, same))
      ]

  -- nothing is claimed, or the potential falls
  abbrev Spends : Text → ℕ → Tables D → Option (List Job × Job × List Job) → Type 0
  Spends worker now t found =
      ((found ≡ none) × IsDrained t)
      ⊎ (potential (attempt handlers worker now t found).1 < potential t)

  attempt-Spends :
      (worker : Text) (now : ℕ) (t : Tables D) (found : Option (List Job × Job × List Job))
      → Pays
      → IsClaim t.jobs found
      → Spends worker now t found
  unfolding attempt
  attempt-Spends worker now t none pays is = inl (refl, is)
  attempt-Spends worker now t (some (before, j, after)) pays (whole, fits, rest) = inr (
      settle_spends now worker before j after t (perform handlers (lock_row worker j) t.rest) pays
        refl fits whole)

  drained_stays :
      (rounds : ℕ) (worker : Text) (now : ℕ) (t : Tables D)
      → claim t.jobs ≡ none
      → run_worker handlers rounds worker now t ≡ t
  unfolding run_worker process_once attempt
  drained_stays zero worker now t is = refl
  drained_stays (suc rounds) worker now t is = rw is (drained_stays rounds worker (now + 1) t is)

  -- The worker drains its queue. Where each handler that succeeds pays, from the weight of the data
  -- and the allowance of its job's type, for the attempts and the allowances of the jobs that it
  -- queues, then after as many rounds as attempts and allowances are left and weight there is,
  -- whatever the handlers do, no job can be claimed.
  pub run_worker-IsDrained :
      ((row : Job) (d d2 : D) (new : List Job)
        → perform handlers row d ≡ ok (d2, new)
        → budget allowance new + weight d2 ≤ weight d + allowance row.job_type)
      → (rounds : ℕ) (worker : Text) (now : ℕ) (t : Tables D)
      → budget allowance t.jobs + weight t.rest ≤ rounds
      → IsDrained (run_worker handlers rounds worker now t)
  unfolding run_worker process_once
  run_worker-IsDrained pays zero worker now t enough =
      elim (attempt-Spends worker now t (claim t.jobs) pays (claim-IsClaim t.jobs)) [
        | inl (is, idle) ↦ idle
        | inr less ↦ absurd (omega (arith, less, enough))
      ]
  run_worker-IsDrained pays (suc rounds) worker now t enough =
      elim (attempt-Spends worker now t (claim t.jobs) pays (claim-IsClaim t.jobs)) [
        | inl (is, idle) ↦ subst IsDrained (sym (drained_stays (suc rounds) worker now t is)) idle
        | inr less ↦
            run_worker-IsDrained pays rounds worker (now + 1) (process_once handlers worker now t).1
              (omega (arith, less, enough))
      ]
