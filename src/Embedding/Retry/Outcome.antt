-- ===== src/Embedding/Retry/Outcome.antt =====
-- What bounds a whole run of the retry loop, and what it returns.
use exais_vector_store.Prelude.{
  ℕ, zero, suc, ◌+◌, ◌-◌, ◌≤◌, ◌<◌, ◌≡◌, refl, List, [], ◌∷◌, ◌++◌, Option, none, some, false,
  arith, max,
}
use exais_vector_store.Prelude.Result.{Result, ok, err}
use exais_vector_store.Embedding.Retry.{
  is_retryable_status, Response, Failure, Event, posted, Client, Limits, Progress, Verdict, return,
  stop, again, Ran, try_post, plan_wait, wait_events, retry_from, fresh, post_embedding_with_retry,
}
use exais_vector_store.Embedding.Retry.Bounds.{
  count_posted, count_double_bill, IsHonest, Reports, Tried, try_post-Tried, plan_wait-Reports,
  plan_wait-attempts,
}

module _ {W B E : Type 0} (c : Client W B E) where
  -- a response that is not to be retried, or an exception that counts the requests made
  abbrev pub Ends : ℕ → Result (Failure B E) (Response B) → Type 0
  Ends attempt (ok r) = is_retryable_status r.status_code ≡ false
  Ends attempt (err e) = Reports attempt e

  -- What holds of the rest of a run, from attempt number `attempt` on, with `left` attempts left.
  pub record Bounded (limits : Limits) (attempt left : ℕ) (p : Progress B) (r : Ran W B E)
      : Type 0 where
    pub posts : count_posted r.trace ≤ left
    pub begins : (events : List Event) × (r.trace ≡ posted ∷ events)
    pub bills : p.timeout_retries + count_double_bill r.trace ≤ limits.timeout_cap
    pub honest : IsHonest r.trace
    pub ends : Ends (attempt + count_posted r.trace - 1) r.outcome

  single-Bounded :
      (limits : Limits) (attempt left : ℕ) (p : Progress B) (r : Ran W B E)
      → p.timeout_retries ≤ limits.timeout_cap
      → r.trace ≡ posted ∷ []
      → Ends attempt r.outcome
      → Bounded limits attempt (suc left) p r
  single-Bounded limits attempt left p r within t e = record {
    posts = rw t (omega arith);
    begins = ([], t);
    bills = rw t (omega arith);
    honest = rw t tt;
    ends = rw t (let same : attempt + 1 - 1 ≡ attempt = omega arith in rw same e);
  }

  waited-Bounded :
      (limits : Limits) (attempt left delay : ℕ) (p p' : Progress B) (pending : Option (ℕ × ℕ))
      (wait : Option ℕ) (r : Ran W B E)
      → Tried {B = B} {E = E} limits attempt p (again p' wait pending)
      → Bounded limits (attempt + 1) left p' r
      → Bounded limits attempt
          (suc left)
          p
          (record r { trace = posted ∷ (wait_events pending delay ++ r.trace) })
  unfolding wait_events
  waited-Bounded limits attempt left delay p p' none wait r t b = record {
    posts = omega (arith, b.posts);
    begins = (_, refl);
    bills = omega (arith, b.bills);
    honest = b.honest;
    ends =
        let n = count_posted r.trace in
        let same : attempt + suc n - 1 ≡ attempt + 1 + n - 1 = omega arith in rw same b.ends;
  }
  waited-Bounded limits attempt left delay p p' (some (done, allowance)) wait r t b = record {
    posts = omega (arith, b.posts);
    begins = (_, refl);
    bills = omega (arith, b.bills);
    honest = let (events, e) = b.begins in rw e (rw e at b.honest);
    ends =
        let n = count_posted r.trace in
        let same : attempt + suc n - 1 ≡ attempt + 1 + n - 1 = omega arith in rw same b.ends;
  }

  -- the counter of read timeouts is still within its cap
  Tried-within :
      (limits : Limits) (attempt : ℕ) (p p' : Progress B) (wait : Option ℕ)
      (pending : Option (ℕ × ℕ))
      → Tried {B = B} {E = E} limits attempt p (again p' wait pending)
      → p.timeout_retries ≤ limits.timeout_cap
      → p'.timeout_retries ≤ limits.timeout_cap
  Tried-within limits attempt p p' wait none t h = omega arith
  Tried-within limits attempt p p' wait (some (done, allowance)) t h = omega arith

  round-Bounded :
      (limits : Limits) (started left attempt : ℕ) (p : Progress B) (w : W)
      → p.timeout_retries ≤ limits.timeout_cap
      → ((p' : Progress B) (w' : W)
          → p'.timeout_retries ≤ limits.timeout_cap
          → attempt < limits.attempts
          → Bounded limits
              (attempt + 1)
              left
              p'
              (retry_from c limits started left (attempt + 1) p' w'))
      → Bounded limits attempt (suc left) p (retry_from c limits started (suc left) attempt p w)
  unfolding retry_from
  round-Bounded limits started left attempt p w within rest =
      tried-Bounded tried.0 refl (try_post-Tried c limits attempt p w)
    where
      tried : Verdict B E × W
      tried = try_post c limits attempt p w

      run : Ran W B E
      run = retry_from c limits started (suc left) attempt p w

      waited :
          (p' : Progress B) (wait : Option ℕ) (pending : Option (ℕ × ℕ))
          → tried.0 ≡ again p' wait pending
          → Tried {E = E} limits attempt p (again p' wait pending)
          → (r : Result (Failure B E) ℕ)
          → (plan_wait c limits started attempt p' wait tried.1).0 ≡ r
          → Bounded limits attempt (suc left) p run
      waited p' wait pending h t (err x) d =
          rw (h, d, retry_from)
            (single-Bounded limits attempt left p _ within refl
              (plan_wait-Reports c limits started attempt p' wait tried.1 x d))
      waited p' wait pending h t (ok delay) d =
          rw (h, d, retry_from)
            (waited-Bounded limits attempt left delay p p' pending wait _ t (
              rest p' _ (Tried-within limits attempt p p' wait pending t within)
                (plan_wait-attempts c limits started attempt p' wait tried.1 delay d)))

      tried-Bounded :
          (v : Verdict B E)
          → tried.0 ≡ v
          → Tried limits attempt p v
          → Bounded limits attempt (suc left) p run
      tried-Bounded (return r) h t =
          rw (h, retry_from) (single-Bounded limits attempt left p _ within refl t)
      tried-Bounded (stop x) h t =
          rw (h, retry_from) (single-Bounded limits attempt left p _ within refl t)
      tried-Bounded (again p' wait pending) h t = waited p' wait pending h t _ refl

  retry_from-Bounded :
      (limits : Limits) (started left attempt : ℕ) (p : Progress B) (w : W)
      → p.timeout_retries ≤ limits.timeout_cap
      → attempt + left ≡ limits.attempts
      → Bounded limits attempt (suc left) p (retry_from c limits started (suc left) attempt p w)
  retry_from-Bounded limits started zero attempt p w within e =
      round-Bounded limits started zero attempt p w within (λ p' w' h less. absurd (omega arith))
  retry_from-Bounded limits started (suc left) attempt p w within e =
      round-Bounded limits started (suc left) attempt p w within
        λ p' w' h less. retry_from-Bounded limits started left (attempt + 1) p' w' h (omega arith)

  first-Bounded :
      (limits : Limits) (started n : ℕ) (w : W)
      → 1 ≤ n
      → n ≡ limits.attempts
      → let r = retry_from c limits started n 1 fresh w in
        (1 ≤ count_posted r.trace)
        × (count_posted r.trace ≤ n)
        × (count_double_bill r.trace ≤ limits.timeout_cap)
        × IsHonest r.trace
        × Ends (count_posted r.trace) r.outcome
  first-Bounded limits started zero w h e = absurd (omega arith)
  first-Bounded limits started (suc left) w h e =
      let run = retry_from c limits started (suc left) 1 fresh w in
      let b = retry_from-Bounded limits started left 1 fresh w (omega arith) (omega arith) in
      let same : 1 + count_posted run.trace - 1 ≡ count_posted run.trace = omega arith in
      (rw b.begins.1 (omega arith), b.posts, omega (arith, b.bills), b.honest, (rw same at b.ends))

  -- A call makes at least one request and at most `max(1, max_attempts)`. It logs at most
  -- `timeout_cap` possible double bills, each followed by the retry that it names. A response that
  -- it returns is not to be retried; `EmbeddingRetryExhausted` reports the number of requests made.
  pub retry-Bounded :
      (given : Limits) (w : W)
      → let r = post_embedding_with_retry c given w in
        (1 ≤ count_posted r.trace)
        × (count_posted r.trace ≤ max 1 given.attempts)
        × (count_double_bill r.trace ≤ given.timeout_cap)
        × IsHonest r.trace
        × Ends (count_posted r.trace) r.outcome
  unfolding post_embedding_with_retry
  retry-Bounded given w =
      first-Bounded (record given { attempts = max 1 given.attempts }) (c.now w).0
        (max 1 given.attempts) (c.now w).1 (omega arith) refl
