-- ===== src/Embedding/Send.antt =====
-- `_send_embedding_batch` and `embed_in_order` of packages/svs_common/svs_common/providers.py.
--
-- The endpoint is a parameter: `send` takes one batch and the state `S` of the world (the endpoint,
-- the counters of usage) and gives its reply and the state after it. The recursion is on the proof
-- that a shorter batch is accessible, so it needs no fuel.
pub mod Order
pub mod Total
use mathlib.Core.WellFounded.{Acc}
use exais_vector_store.Prelude.{
  ℕ, ◌-◌, ◌/◌, ◌<◌, List, [], ◌∷◌, ◌++◌, Option, arith, dite, dec_lt, ◌==◌, if◌then◌else◌, length,
  take, drop, slice, length-take, length-drop,
}
use exais_vector_store.Prelude.Order.{IsShorter, IsShorter-acc}
use exais_vector_store.Prelude.Exec.{Exec, pure, raise, ◌>>=◌}
use exais_vector_store.Embedding.Plan.{Text, Span, plan_embedding_batches}
use exais_vector_store.Embedding.Slots.{BatchError, single_rejected, batch_count, total_count}

-- What one call of `send` does: it returns, it raises `_EmbeddingRequestTooLarge`, or it raises
-- something else.
pub data Reply (V E : Type 0) : Type 0 where
  vectors : List V → Reply V E
  too_large : Reply V E
  raised : E → Reply V E

-- What `embed_in_order` may raise: its own error, or what `send` raised.
pub data Failure (E : Type 0) : Type 0 where
  batch : BatchError → Failure E
  other : E → Failure E

pub half_take : {A : Type 0} (xs : List A) → 1 < length xs → IsShorter (take (length xs / 2) xs) xs
half_take xs h = omega (arith, length-take (length xs / 2) xs)

pub half_drop : {A : Type 0} (xs : List A) → 1 < length xs → IsShorter (drop (length xs / 2) xs) xs
half_drop xs h = omega (arith, length-drop (length xs / 2) xs)

module _ {S V E : Type 0} where
  -- a rejected batch: nothing smaller is left to try
  unfoldable pub reject_single : List Text → Exec S (Failure E) (List V)
  reject_single [] = raise (batch (single_rejected 0))
  reject_single (text ∷ texts) = raise (batch (single_rejected (length text)))

  -- `send_half` is the recursive call, on either half
  unfoldable pub bisect :
      (texts : List Text)
      → ((half : List Text) → IsShorter half texts → Exec S (Failure E) (List V))
      → Exec S (Failure E) (List V)
  unfolding reject_single
  bisect texts send_half =
      dite (dec_lt 1 (length texts))
        (λ h. do
          head ← send_half (take (length texts / 2) texts) (half_take texts h)
          tail ← send_half (drop (length texts / 2) texts) (half_drop texts h)
          pure (head ++ tail))
        (λ _. reject_single texts)

  -- `try: return await send(batch)`, with its handler
  unfoldable pub handle_reply :
      Reply V E → Exec S (Failure E) (List V) → Exec S (Failure E) (List V)
  handle_reply (vectors vs) bisected = pure vs
  handle_reply too_large bisected = bisected
  handle_reply (raised e) bisected = raise (other e)

module _ {S V E : Type 0} (send : List Text → S → Reply V E × S) where
  unfoldable pub send_from : (texts : List Text) → Acc IsShorter texts → Exec S (Failure E) (List V)
  unfolding bisect handle_reply
  send_from texts (Acc.intro _ smaller) s =
      handle_reply (send texts s).0 (bisect texts (λ half h. send_from half (smaller half h)))
        (send texts s).1

  unfoldable pub send_embedding_batch : List Text → Exec S (Failure E) (List V)
  unfolding send_from IsShorter-acc
  send_embedding_batch texts = send_from texts (IsShorter-acc texts)

  -- `batch_vectors`, with the check of its length
  unfoldable pub send_span : List Text → Span → Exec S (Failure E) (List V)
  send_span texts (start, end) = do
    vs ← send_embedding_batch (slice start end texts)
    if length vs == length (slice start end texts)
        then pure vs
        else raise (batch (batch_count (length vs) start (end - 1) (length texts)))

  unfoldable pub send_spans : List Text → List Span → Exec S (Failure E) (List V)
  unfolding send_span
  send_spans texts [] = pure []
  send_spans texts (span ∷ spans) = do
    vs ← send_span texts span
    rest ← send_spans texts spans
    pure (vs ++ rest)

  unfoldable pub embed_in_order : List Text → ℕ → Option ℕ → Exec S (Failure E) (List V)
  unfolding send_spans
  embed_in_order texts token_budget max_inputs = do
    vs ← send_spans texts (plan_embedding_batches texts token_budget max_inputs)
    if length vs == length texts
        then pure vs
        else raise (batch (total_count (length vs) (length texts)))
