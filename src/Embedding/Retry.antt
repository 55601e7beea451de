-- ===== src/Embedding/Retry.antt =====
-- `post_embedding_with_retry` of packages/svs_common/svs_common/providers.py, with
-- `_is_retryable_status` and `_parse_retry_after`.
--
-- The HTTP client, the two clocks, the jitter and `asyncio.sleep` are a parameter that acts on the
-- state `W` of the world. Times and delays are natural numbers of one unit (a tick), so `max(0.0, x)`
-- is the truncated difference where `x` is a difference. A run also gives its trace: the requests,
-- the `possible_double_bill` warnings and the sleeps, in order.
pub mod Bounds
pub mod Outcome
pub mod Deadline
mod Examples
use exais_vector_store.Prelude.{
  ℕ, zero, suc, ◌+◌, ◌-◌, ◌*◌, ◌^◌, max, min, List, [], ◌∷◌, ◌++◌, Option, none, some, Bool, true,
  false, ◌&&◌, ◌||◌, ltb, leb, ◌==◌, if◌then◌else◌,
}
use exais_vector_store.Prelude.Result.{Result, ok, err}
use exais_vector_store.Prelude.Int.{ℤ, pos_part}

-- 429 and 5xx only
unfoldable pub is_retryable_status : ℕ → Bool
is_retryable_status status_code = status_code == 429 || (leb 500 status_code && leb status_code 599)

-- RETRYABLE_TRANSPORT_ERRORS; the read timeout is the one of POSSIBLE_DOUBLE_BILL_ERRORS
pub data TransportError : Type 0 where
  connect_error connect_timeout read_timeout write_timeout : TransportError
  pool_timeout read_error write_error remote_protocol_error : TransportError

unfoldable pub is_double_bill : TransportError → Bool
is_double_bill read_timeout = true
is_double_bill _ = false

pub record Response (B : Type 0) : Type 0 where
  pub status_code : ℕ
  pub retry_after : Option (List ℕ)
  pub body : B

pub data Posted (B E : Type 0) : Type 0 where
  response : Response B → Posted B E
  transport : TransportError → Posted B E
  escaped : E → Posted B E

pub data Cause : Type 0 where
  no_attempt : Cause
  http : ℕ → Cause
  transport_cause : TransportError → Cause
  retry_after_exceeds : ℕ → ℕ → Cause

-- EmbeddingRetryExhausted
pub record Exhausted (B : Type 0) : Type 0 where
  pub attempts : ℕ
  pub cause : Cause
  pub status_code : Option ℕ
  pub body_snippet : Option B

pub data Failure (B E : Type 0) : Type 0 where
  exhausted : Exhausted B → Failure B E
  other : E → Failure B E
  unreachable : Failure B E

pub data Event : Type 0 where
  posted : Event
  double_bill : ℕ → ℕ → Event
  slept : ℕ → Event

-- The libraries that the loop calls. `parse_seconds` is `float`, `parse_date` is the timestamp of
-- `parsedate_to_datetime`; both give `none` where the source catches an exception.
pub record Client (W B E : Type 0) : Type 0 where
  pub post : W → Posted B E × W
  pub now : W → ℕ × W
  pub wall_now : W → ℕ × W
  pub pick : ℕ → W → ℕ × W
  pub sleep : ℕ → W → W
  pub snippet : B → B
  pub parse_seconds : List ℕ → Option ℤ
  pub parse_date : List ℕ → Option ℕ
  pub strip : List ℕ → List ℕ

pub record Limits : Type 0 where
  pub attempts : ℕ
  pub base : ℕ
  pub deadline : ℕ
  pub timeout_cap : ℕ

-- the variables that the loop carries
pub record Progress (B : Type 0) : Type 0 where
  pub timeout_retries : ℕ
  pub last_cause : Cause
  pub last_status : Option ℕ
  pub last_body : Option B

-- what the `try` block leads to
pub data Verdict (B E : Type 0) : Type 0 where
  return : Response B → Verdict B E
  stop : Failure B E → Verdict B E
  again : Progress B → Option ℕ → Option (ℕ × ℕ) → Verdict B E

pub record Ran (W B E : Type 0) : Type 0 where
  pub outcome : Result (Failure B E) (Response B)
  pub world : W
  pub trace : List Event

-- the warning of a retry that may be billed twice, and the sleep
unfoldable pub wait_events : Option (ℕ × ℕ) → ℕ → List Event
wait_events none delay = slept delay ∷ []
wait_events (some (done, cap)) delay = double_bill done cap ∷ slept delay ∷ []

abbrev pub fresh : {B : Type 0} → Progress B
fresh = record {
  timeout_retries = 0;
  last_cause = no_attempt;
  last_status = none;
  last_body = none;
}

module _ {B E : Type 0} where
  unfoldable pub exhaust : ℕ → Cause → Progress B → Failure B E
  exhaust attempt cause p = exhausted (record {
    attempts = attempt;
    cause = cause;
    status_code = p.last_status;
    body_snippet = p.last_body;
  })

  unfoldable pub after_transport : Limits → ℕ → Progress B → TransportError → Verdict B E
  unfolding exhaust is_double_bill
  after_transport limits attempt p e =
      let failed : Progress B = record p { last_cause = transport_cause e } in
      let timeouts = p.timeout_retries + 1 in
      if is_double_bill e
      then (if ltb limits.timeout_cap timeouts
          then stop
              (exhaust attempt (transport_cause e) (record failed { timeout_retries = timeouts }))
          else again (record failed { timeout_retries = timeouts }) none
              (some (timeouts, limits.timeout_cap)))
      else again failed none none

module _ {W B E : Type 0} (c : Client W B E) where
  -- `_parse_retry_after`; an empty header is falsy
  unfoldable pub parse_retry_after : Option (List ℕ) → ℕ → Option ℕ
  parse_retry_after none wall = none
  parse_retry_after (some []) wall = none
  parse_retry_after (some (x ∷ xs)) wall = elim (c.parse_seconds (c.strip (x ∷ xs))) [
    | some seconds ↦ some (pos_part seconds)
    | none ↦ elim (c.parse_date (c.strip (x ∷ xs))) [ none ↦ none | some when ↦ some (when - wall) ]
  ]

  unfoldable pub after_response : Progress B → Response B → W → Verdict B E × W
  after_response p r w =
      let failed : Progress B = record {
        timeout_retries = p.timeout_retries;
        last_cause = http r.status_code;
        last_status = some r.status_code;
        last_body = some (c.snippet r.body);
      } in
      if is_retryable_status r.status_code
      then (if r.status_code == 429
          then (
            again failed (parse_retry_after r.retry_after (c.wall_now w).0) none,
            (c.wall_now w).1,
          )
          else (again failed none none, w))
      else (return r, w)

  unfoldable pub try_post : Limits → ℕ → Progress B → W → Verdict B E × W
  unfolding after_response after_transport
  try_post limits attempt p w = elim (c.post w).0 [
    | response r ↦ after_response p r (c.post w).1
    | transport e ↦ (after_transport limits attempt p e, (c.post w).1)
    | escaped e ↦ (stop (other e), (c.post w).1)
  ]

  -- the delay before the next attempt, or what is raised, once `remaining` is positive
  unfoldable pub choose_delay :
      Limits → ℕ → Progress B → Option ℕ → ℕ → W → Result (Failure B E) ℕ × W
  unfolding exhaust
  choose_delay limits attempt p (some wait) remaining w =
      if ltb remaining wait
      then (err (exhaust attempt (retry_after_exceeds wait remaining) p), w)
      else (ok wait, w)
  choose_delay limits attempt p none remaining w =
      let picked = c.pick (limits.base * 2 ^ (attempt - 1)) w in
      (ok (min picked.0 remaining), picked.1)

  -- from `if attempt >= attempts` to the delay; `remaining` is 0 where the source's is not positive
  unfoldable pub plan_wait : Limits → ℕ → ℕ → Progress B → Option ℕ → W → Result (Failure B E) ℕ × W
  unfolding choose_delay
  plan_wait limits started attempt p retry_after w =
      let read = c.now w in
      let remaining = limits.deadline + started - read.0 in
      if leb limits.attempts attempt
      then (err (exhaust attempt p.last_cause p), w)
      else if remaining == 0
      then (err (exhaust attempt p.last_cause p), read.1)
      else choose_delay limits attempt p retry_after remaining read.1

  unfoldable pub retry_from : Limits → ℕ → ℕ → ℕ → Progress B → W → Ran W B E
  unfolding try_post plan_wait wait_events
  retry_from limits started zero attempt p w = record {
    outcome = err unreachable;
    world = w;
    trace = [];
  }
  retry_from limits started (suc left) attempt p w =
      let tried = try_post limits attempt p w in
      elim tried.0 [
        | return r ↦ record { outcome = ok r; world = tried.1; trace = posted ∷ [] }
        | stop e ↦ record { outcome = err e; world = tried.1; trace = posted ∷ [] }
        | again p' retry_after pending ↦
            let waits = plan_wait limits started attempt p' retry_after tried.1 in
            elim waits.0 [
              | err e ↦ record { outcome = err e; world = waits.1; trace = posted ∷ [] }
              | ok delay ↦
                  let rest =
                    retry_from limits started left (attempt + 1) p' (c.sleep delay waits.1) in
                  record rest { trace = posted ∷ (wait_events pending delay ++ rest.trace) }
            ]
      ]

  -- `max(1, ...)` bounds the attempts from below
  unfoldable pub post_embedding_with_retry : Limits → W → Ran W B E
  unfolding retry_from
  post_embedding_with_retry given w =
      let limits = record given { attempts = max 1 given.attempts } in
      retry_from limits (c.now w).0 limits.attempts 1 fresh (c.now w).1
