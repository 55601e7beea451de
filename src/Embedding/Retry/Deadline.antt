-- ===== src/Embedding/Retry/Deadline.antt =====
-- The retry deadline: how long a call may sleep.
use exais_vector_store.Prelude.{
  ℕ, ◌+◌, ◌≤◌, ◌≡◌, inl, inr, refl, List, [], ◌∷◌, Option, none, some, arith, ◌==◌, if◌then◌else◌,
  Bool-cases, ◌*◌, ◌++◌, ◌^◌, ◌-◌, zero, suc,
}
use exais_vector_store.Prelude.Result.{ok}
use exais_vector_store.Embedding.Retry.{
  is_retryable_status, Response, Posted, response, transport, escaped, Event, posted, double_bill,
  slept, Client, Limits, Progress, after_response, try_post, plan_wait, wait_events, retry_from,
  post_embedding_with_retry, max, suc, fresh, Verdict, Ran, again, Result, Failure, err, return,
  stop,
}

-- the sleeps of a trace, added up
abbrev pub total_slept : List Event → ℕ
total_slept [] = 0
total_slept (posted ∷ events) = total_slept events
total_slept (double_bill done allowance ∷ events) = total_slept events
total_slept (slept delay ∷ events) = delay + total_slept events

module _ {W B E : Type 0} (c : Client W B E) (time : W → ℕ) where
  -- `time` is what the monotonic clock reads: it never goes back, and a sleep takes its time.
  pub record IsClock : Type 0 where
    pub reads : (w : W) → (c.now w).0 ≡ time w
    pub now_later : (w : W) → time w ≤ time (c.now w).1
    pub post_later : (w : W) → time w ≤ time (c.post w).1
    pub wall_later : (w : W) → time w ≤ time (c.wall_now w).1
    pub pick_later : (n : ℕ) (w : W) → time w ≤ time (c.pick n w).1
    pub sleep_later : (n : ℕ) (w : W) → time w + n ≤ time (c.sleep n w)

  module _ (clock : IsClock) where
    after_response-later :
        (p : Progress B) (r : Response B) (w : W) → time w ≤ time (after_response {E = E} c p r w).1
    unfolding after_response
    after_response-later p r w = elim (Bool-cases (is_retryable_status r.status_code)) [
      | inl retryable ↦ elim (Bool-cases (r.status_code == 429)) [
        | inl limited ↦ rw (retryable, limited, if◌then◌else◌) (clock.wall_later w)
        | inr limited ↦ rw (retryable, limited, if◌then◌else◌) (omega arith)
      ]
      | inr final ↦ rw (final, if◌then◌else◌) (omega arith)
    ]

    try_post-later :
        (limits : Limits) (attempt : ℕ) (p : Progress B) (w : W)
        → time w ≤ time (try_post c limits attempt p w).1
    unfolding try_post
    try_post-later limits attempt p w = go (c.post w).0 refl
      where
        go : (r : Posted B E) → (c.post w).0 ≡ r → time w ≤ time (try_post c limits attempt p w).1
        go (response r) e =
            rw (e, try_post)
              (omega (arith, clock.post_later w, after_response-later p r (c.post w).1))
        go (transport t) e = rw (e, try_post) (clock.post_later w)
        go (escaped x) e = rw (e, try_post) (clock.post_later w)

    plan_wait-world :
        (limits : Limits) (started attempt : ℕ) (p : Progress B) (wait : Option ℕ) (w : W)
        → time w ≤ time (plan_wait c limits started attempt p wait w).1
    unfolding plan_wait
    plan_wait-world limits started attempt p none w =
        ground
          (arith, clock.now_later w, clock.pick_later (limits.base * 2 ^ (attempt - 1)) (c.now w).1)
    plan_wait-world limits started attempt p (some wait) w = ground (arith, clock.now_later w)

    -- a delay ends before the deadline, counted from where the clock was read
    plan_wait-delay :
        (limits : Limits) (started attempt : ℕ) (p : Progress B) (wait : Option ℕ) (w : W) (d : ℕ)
        → (plan_wait c limits started attempt p wait w).0 ≡ ok d
        → time w + d ≤ started + limits.deadline
    unfolding plan_wait
    plan_wait-delay limits started attempt p none w d h = ground (arith, clock.reads w)
    plan_wait-delay limits started attempt p (some wait) w d h = ground (arith, clock.reads w)

    total_slept-wait_events :
        (pending : Option (ℕ × ℕ)) (delay : ℕ) (events : List Event)
        → total_slept (wait_events pending delay ++ events) ≡ delay + total_slept events
    unfolding wait_events
    total_slept-wait_events none delay events = refl
    total_slept-wait_events (some (done, allowance)) delay events = refl

    -- from `w` on, a run sleeps no longer than is left until the deadline
    abbrev SleptBy : ℕ → ℕ → W → Ran W B E → Type 0
    SleptBy started deadline w run =
        time w + total_slept run.trace ≤ max (time w) (started + deadline)

    round-SleptBy :
        (limits : Limits) (started left attempt : ℕ) (p : Progress B) (w : W)
        → ((p' : Progress B) (w' : W)
            → SleptBy started limits.deadline w'
                (retry_from c limits started left (attempt + 1) p' w'))
        → SleptBy started limits.deadline w (retry_from c limits started (suc left) attempt p w)
    unfolding retry_from
    round-SleptBy limits started left attempt p w rest = try_next tried.0 refl
      where
        tried : Verdict B E × W
        tried = try_post c limits attempt p w

        run : Ran W B E
        run = retry_from c limits started (suc left) attempt p w

        waited :
            (p' : Progress B) (wait : Option ℕ) (pending : Option (ℕ × ℕ))
            → tried.0 ≡ again p' wait pending
            → (r : Result (Failure B E) ℕ)
            → (plan_wait c limits started attempt p' wait tried.1).0 ≡ r
            → SleptBy started limits.deadline w run
        waited p' wait pending h (err x) d = rw (h, d, retry_from) (omega arith)
        waited p' wait pending h (ok delay) d =
            let w' = (plan_wait c limits started attempt p' wait tried.1).1 in
            rw (h, d, retry_from)
              (omega (
                arith,
                total_slept-wait_events pending delay
                    (retry_from c limits started left (attempt + 1) p' (c.sleep delay w')).trace,
                try_post-later limits attempt p w,
                plan_wait-world limits started attempt p' wait tried.1,
                plan_wait-delay limits started attempt p' wait tried.1 delay d,
                clock.sleep_later delay w',
                rest p' (c.sleep delay w'),
              ))

        try_next : (v : Verdict B E) → tried.0 ≡ v → SleptBy started limits.deadline w run
        try_next (return r) h = rw (h, retry_from) (omega arith)
        try_next (stop x) h = rw (h, retry_from) (omega arith)
        try_next (again p' wait pending) h = waited p' wait pending h _ refl

    retry_from-SleptBy :
        (limits : Limits) (started left attempt : ℕ) (p : Progress B) (w : W)
        → SleptBy started limits.deadline w (retry_from c limits started left attempt p w)
    unfolding retry_from
    retry_from-SleptBy limits started zero attempt p w = omega arith
    retry_from-SleptBy limits started (suc left) attempt p w =
        round-SleptBy limits started left attempt p w
          (λ p' w'. retry_from-SleptBy limits started left (attempt + 1) p' w')

    -- On a clock that never goes back, the sleeps of a call add up to at most its deadline,
    -- whatever the endpoint names in `Retry-After`.
    pub total_slept-retry :
        (given : Limits) (w : W)
        → total_slept (post_embedding_with_retry c given w).trace ≤ given.deadline
    unfolding post_embedding_with_retry
    total_slept-retry given w = omega (
      arith,
      clock.reads w,
      clock.now_later w,
      retry_from-SleptBy (record given { attempts = max 1 given.attempts }) (c.now w).0
          (max 1 given.attempts) 1 fresh (c.now w).1,
    )
