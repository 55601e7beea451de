-- ===== src/Embedding/Retry/Examples.antt =====
-- The theorems of the retry loop at a concrete client, and tests of the loop.
use exais_vector_store.Prelude.{
  ℕ, ◌+◌, ◌≤◌, ◌≡◌, refl, List, [], ◌∷◌, Option, none, some, max, arith,
}
use exais_vector_store.Prelude.Int.{ℤ, pos}
use exais_vector_store.Prelude.Result.{err}
use exais_vector_store.Embedding.Retry.{
  is_retryable_status, Posted, response, transport, escaped, read_timeout, exhausted, posted,
  double_bill, slept, Client, Limits, retry_after_exceeds, retry_from, try_post, plan_wait,
  wait_events, parse_retry_after, post_embedding_with_retry,
}
use exais_vector_store.Embedding.Retry.Bounds.{count_posted, count_double_bill, IsHonest}
use exais_vector_store.Embedding.Retry.Outcome.{Ends, retry-Bounded}
use exais_vector_store.Embedding.Retry.Deadline.{total_slept, IsClock, total_slept-retry}

-- the replies to come, and the clock
pub record World : Type 0 where
  pub replies : List (Posted ℕ (Unit {0}))
  pub clock : ℕ

abbrev next_reply : List (Posted ℕ (Unit {0})) → Posted ℕ (Unit {0})
next_reply [] = escaped tt
next_reply (r ∷ rs) = r

abbrev later_replies : List (Posted ℕ (Unit {0})) → List (Posted ℕ (Unit {0}))
later_replies [] = []
later_replies (r ∷ rs) = rs

abbrev seconds : List ℕ → Option ℤ
seconds [] = none
seconds (n ∷ ns) = some (pos n)

-- a request takes one tick; the jitter picks the whole delay; a header is one number of ticks
abbrev scripted : Client World ℕ (Unit {0})
scripted = record {
  post = λ w.
      (next_reply w.replies, record { replies = later_replies w.replies; clock = w.clock + 1 });
  now = λ w. (w.clock, w);
  wall_now = λ w. (1000 + w.clock, w);
  pick = λ n w. (n, w);
  sleep = λ n w. record w { clock = w.clock + n };
  snippet = λ b. b;
  parse_seconds = seconds;
  parse_date = λ header. none;
  strip = λ header. header;
}

abbrev reply : ℕ → Option (List ℕ) → Posted ℕ (Unit {0})
reply status header = response (record { status_code = status; retry_after = header; body = 0 })

abbrev limits : Limits
limits = record { attempts = 4; base = 10; deadline = 60; timeout_cap = 1 }

abbrev flaky : World
flaky = record {
  replies =
      transport read_timeout ∷ reply 429 (some (5 ∷ [])) ∷ reply 503 none ∷ reply 200 none ∷ [];
  clock = 7;
}

flaky_trace :
    (post_embedding_with_retry scripted limits flaky).trace
    ≡ posted ∷ double_bill 1 1 ∷ slept 10 ∷ posted ∷ slept 5 ∷ posted ∷ slept 40 ∷ posted ∷ []
unfolding post_embedding_with_retry retry_from try_post plan_wait wait_events is_retryable_status
    parse_retry_after
flaky_trace = refl

abbrev closed_window : World
closed_window = record { replies = reply 429 (some (90 ∷ [])) ∷ reply 200 none ∷ []; clock = 7 }

-- a wait longer than what is left of the deadline ends the call
closed_window_outcome :
    (post_embedding_with_retry scripted limits closed_window).outcome
    ≡ err (
        exhausted (record {
          attempts = 1;
          cause = retry_after_exceeds 90 59;
          status_code = some 429;
          body_snippet = some 0;
        }))
unfolding post_embedding_with_retry retry_from try_post plan_wait wait_events is_retryable_status
    parse_retry_after
closed_window_outcome = refl

retry-Bounded_example :
    let r = post_embedding_with_retry scripted limits flaky in
    (1 ≤ count_posted r.trace)
    × (count_posted r.trace ≤ max 1 4)
    × (count_double_bill r.trace ≤ 1)
    × IsHonest r.trace
    × Ends scripted (count_posted r.trace) r.outcome
retry-Bounded_example = retry-Bounded scripted limits flaky

scripted-IsClock : IsClock scripted (λ w. w.clock)
scripted-IsClock = record {
  reads = λ w. refl;
  now_later = λ w. omega arith;
  post_later = λ w. omega arith;
  wall_later = λ w. omega arith;
  pick_later = λ n w. omega arith;
  sleep_later = λ n w. omega arith;
}

total_slept-retry_example : total_slept (post_embedding_with_retry scripted limits flaky).trace ≤ 60
total_slept-retry_example = total_slept-retry scripted (λ w. w.clock) scripted-IsClock limits flaky
