-- ===== src/Worker/Ended.antt =====
-- How jobs end: completed, or failed after every attempt.
use exais_vector_store.Prelude.{
  ℕ, ◌≡◌, refl, sym, subst, inl, inr, Bool, true, false, ◌&&◌, List, [], ◌∷◌, ◌++◌, Option, none,
  some, arith, if◌then◌else◌, Bool-cases, All, ◌+◌, ◌≤◌, zero, suc, leb, ltb, ◌==◌, All-append,
  All-replace,
}
use exais_vector_store.Prelude.Result.{Result, ok, err}
use exais_vector_store.Prelude.Text.{Text}
use exais_vector_store.Worker.{
  Job, JobStatus, JobError, Tables, Handlers, is_queued, eligible, claim, lock_row, perform, settle,
  attempt, process_once, queued, running, completed, failed, cancelled, run_worker,
}
use exais_vector_store.Worker.Claimed.{IsClaim, claim-IsClaim}
use exais_vector_store.Worker.Drained.{budget, run_worker-IsDrained}

-- between rounds: a queued job has an attempt left, none runs, a failed one has none left, and no
-- job has had more than it may
abbrev pub is_settled : JobStatus → ℕ → ℕ → Bool
is_settled queued attempts max_attempts = ltb attempts max_attempts
is_settled running attempts max_attempts = false
is_settled completed attempts max_attempts = leb attempts max_attempts
is_settled failed attempts max_attempts = attempts == max_attempts
is_settled cancelled attempts max_attempts = leb attempts max_attempts

abbrev pub IsSettled : Job → Type 0
IsSettled j = is_settled j.status j.attempts j.max_attempts ≡ true

-- completed within its attempts, failed at the last, or cancelled
abbrev pub is_ended : JobStatus → ℕ → ℕ → Bool
is_ended queued attempts max_attempts = false
is_ended running attempts max_attempts = false
is_ended completed attempts max_attempts = leb attempts max_attempts
is_ended failed attempts max_attempts = attempts == max_attempts
is_ended cancelled attempts max_attempts = leb attempts max_attempts

abbrev pub IsEnded : Job → Type 0
IsEnded j = is_ended j.status j.attempts j.max_attempts ≡ true

idle_ended :
    (status : JobStatus) (attempts max_attempts : ℕ)
    → is_queued status && ltb attempts max_attempts ≡ false
    → is_settled status attempts max_attempts ≡ true
    → is_ended status attempts max_attempts ≡ true
idle_ended queued attempts max_attempts idle is = absurd (ground (arith, idle, is))
idle_ended running attempts max_attempts idle is = cc
idle_ended completed attempts max_attempts idle is = is
idle_ended failed attempts max_attempts idle is = is
idle_ended cancelled attempts max_attempts idle is = is

All-IsEnded :
    (jobs : List Job) → All (λ k. eligible k ≡ false) jobs → All IsSettled jobs → All IsEnded jobs
All-IsEnded [] idle is = tt
All-IsEnded (j ∷ jobs) (idle, idles) (is, all) =
    (idle_ended j.status j.attempts j.max_attempts idle is, All-IsEnded jobs idles all)

module _ {D E : Type 0} (handlers : Handlers D E) where
  settle-IsSettled :
      (now : ℕ) (worker : Text) (before : List Job) (j : Job) (after : List Job) (t : Tables D)
      (result : Result (JobError E) (D × List Job))
      → ((d2 : D) (new : List Job) → result ≡ ok (d2, new) → All IsSettled new)
      → eligible j ≡ true
      → All IsSettled (before ++ j ∷ after)
      → All IsSettled (settle handlers now before (lock_row worker j) after t result).jobs
  unfolding settle
  settle-IsSettled now worker before j after t (ok (d, new)) fresh fits all =
      let k : Job = record (lock_row worker j) { status = completed } in
      All-append IsSettled (before ++ k ∷ after) new
        (All-replace IsSettled before j k after (ground (arith, fits)) all) (fresh d new refl)
  settle-IsSettled now worker before j after t (err e) fresh fits all =
      elim (Bool-cases (leb j.max_attempts (j.attempts + 1))) [
        | inl last ↦
            rw (last, if◌then◌else◌)
              (All-replace IsSettled before j
                (record (lock_row worker j) { status = failed; locked_by = none }) after
                (ground (arith, fits, last)) all)
        | inr more ↦
            rw (more, if◌then◌else◌)
              (All-replace IsSettled before j
                (record (lock_row worker j) { status = queued; locked_by = none }) after
                (ground (arith, fits, more)) all)
      ]

  attempt-IsSettled :
      (worker : Text) (now : ℕ) (t : Tables D) (found : Option (List Job × Job × List Job))
      → ((row : Job) (d d2 : D) (new : List Job)
          → perform handlers row d ≡ ok (d2, new)
          → All IsSettled new)
      → IsClaim t.jobs found
      → All IsSettled t.jobs
      → All IsSettled (attempt handlers worker now t found).1.jobs
  unfolding attempt
  attempt-IsSettled worker now t none fresh is all = all
  attempt-IsSettled worker now t (some (before, j, after)) fresh (whole, fits, rest) all =
      settle-IsSettled now worker before j after t (perform handlers (lock_row worker j) t.rest)
        (fresh (lock_row worker j) t.rest) fits (subst (All IsSettled) (sym whole) all)

  run_worker-IsSettled :
      ((row : Job) (d d2 : D) (new : List Job)
        → perform handlers row d ≡ ok (d2, new)
        → All IsSettled new)
      → (rounds : ℕ) (worker : Text) (now : ℕ) (t : Tables D) → All IsSettled t.jobs
      → All IsSettled (run_worker handlers rounds worker now t).jobs
  unfolding run_worker process_once
  run_worker-IsSettled fresh zero worker now t all = all
  run_worker-IsSettled fresh (suc rounds) worker now t all =
      run_worker-IsSettled fresh rounds worker (now + 1) (process_once handlers worker now t).1
        (attempt-IsSettled worker now t (claim t.jobs) fresh (claim-IsClaim t.jobs) all)

  -- Every job ends. Where no job runs, a queued job has an attempt left, a failed one has none and a
  -- cancelled one has not had more than it may, also for the jobs that handlers queue, and where each
  -- handler that succeeds pays, from the weight of the data and the allowance of its job's type, for
  -- the attempts and the allowances of the jobs that it queues: after as many rounds as attempts and
  -- allowances are left and weight there is, each job is completed within its attempts, failed after
  -- exactly all of them, or cancelled.
  pub run_worker-IsEnded :
      (allowance : Text → ℕ) (weight : D → ℕ)
      → ((row : Job) (d d2 : D) (new : List Job)
          → perform handlers row d ≡ ok (d2, new)
          → budget allowance new + weight d2 ≤ weight d + allowance row.job_type)
      → ((row : Job) (d d2 : D) (new : List Job)
          → perform handlers row d ≡ ok (d2, new)
          → All IsSettled new)
      → (rounds : ℕ) (worker : Text) (now : ℕ) (t : Tables D) → All IsSettled t.jobs
      → budget allowance t.jobs + weight t.rest ≤ rounds
      → All IsEnded (run_worker handlers rounds worker now t).jobs
  run_worker-IsEnded allowance weight pays fresh rounds worker now t all enough =
      All-IsEnded (run_worker handlers rounds worker now t).jobs
        (run_worker-IsDrained handlers allowance weight pays rounds worker now t enough)
        (run_worker-IsSettled fresh rounds worker now t all)
