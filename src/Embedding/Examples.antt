-- ===== src/Embedding/Examples.antt =====
-- The theorems of the embedding component at concrete inputs, and tests of its definitions.
use exais_vector_store.Prelude.{
  ℕ, ◌+◌, ◌≤◌, ◌≡◌, refl, List, [], ◌∷◌, map, none, some, ltb, if◌then◌else◌, length, max, All,
  concat, arith, dec_lt,
}
use exais_vector_store.Prelude.Int.{pos}
use exais_vector_store.Prelude.Result.{ok, err}
use exais_vector_store.Embedding.Plan.{
  Text, estimate_embedding_tokens, input_limit, plan_embedding_batches, plan_from,
}
use exais_vector_store.Embedding.Plan.Partition.{cut, Covers, plan-Covers, concat-plan}
use exais_vector_store.Embedding.Plan.Budget.{Fits, plan-Fits}
use exais_vector_store.Embedding.Slots.{
  duplicate_index, incomplete, Item, entry, bare, ordered_batch_vectors, place, place_item,
  item_index, item_vector, filled,
}
use exais_vector_store.Embedding.Slots.Ordered.{ordered_AtIndices, ordered-ne-incomplete}
use exais_vector_store.Embedding.Slots.Placed.{AtIndices}
use exais_vector_store.Embedding.Send.{
  Reply, vectors, too_large, embed_in_order, send_embedding_batch,
}
use exais_vector_store.Embedding.Send.Order.{Answers, Meets, embed_in_order_outcome}
use exais_vector_store.Embedding.Send.Total.{Accepts, embed_in_order_total, requests-embed_in_order}

abbrev four : List Text
four = (1 ∷ 2 ∷ []) ∷ (3 ∷ []) ∷ (4 ∷ 5 ∷ 6 ∷ 7 ∷ []) ∷ [] ∷ []

plan_runs : plan_embedding_batches four 2 none ≡ (0, 2) ∷ (2, 3) ∷ (3, 4) ∷ []
unfolding plan_embedding_batches plan_from estimate_embedding_tokens input_limit
plan_runs = refl

plan_limited : plan_embedding_batches four 100 (some 3) ≡ (0, 3) ∷ (3, 4) ∷ []
unfolding plan_embedding_batches plan_from estimate_embedding_tokens input_limit
plan_limited = refl

plan-Covers_example : Covers 0 4 (plan_embedding_batches four 2 (some 3))
plan-Covers_example = plan-Covers four 2 (some 3)

concat-plan_run : concat (map (cut four) (plan_embedding_batches four 2 (some 3))) ≡ four
concat-plan_run = concat-plan four 2 (some 3)

plan-Fits_example :
    All
      (Fits (max 1 2) (input_limit (some 3)))
      (map (cut four) (plan_embedding_batches four 2 (some 3)))
plan-Fits_example = plan-Fits four 2 (some 3)

abbrev items : List (Item ℕ)
items = entry (some (pos 1)) (some 70) ∷ entry (some (pos 0)) (some 60) ∷ bare (some 80) ∷ []

ordered_runs : ordered_batch_vectors (some items) 3 ≡ ok (60 ∷ 70 ∷ 80 ∷ [])
unfolding ordered_batch_vectors place place_item item_index item_vector filled
ordered_runs = refl

ordered_duplicate :
    ordered_batch_vectors {V = ℕ} (some (bare (some 1) ∷ entry (some (pos 0)) (some 2) ∷ [])) 2
    ≡ err (duplicate_index 0)
unfolding ordered_batch_vectors place place_item item_index item_vector filled
ordered_duplicate = refl

abbrev ordered : List ℕ
ordered = 60 ∷ 70 ∷ 80 ∷ []

ordered_AtIndices_example : (length ordered ≡ 3) × (length items ≡ 3) × AtIndices 0 items ordered
ordered_AtIndices_example = ordered_AtIndices items 3 ordered ordered_runs

ordered-ne-incomplete_run : ¬ (ordered_batch_vectors (some items) 3 ≡ err (incomplete 3))
ordered-ne-incomplete_run = ordered-ne-incomplete (some items) 3 3

-- An endpoint that takes at most two texts, gives the length of each, and counts its requests.
abbrev pair_endpoint : List Text → ℕ → Reply ℕ (Unit {0}) × ℕ
pair_endpoint texts n =
    (if ltb 2 (length texts) then too_large else vectors (map length texts), n + 1)

embed_runs : embed_in_order pair_endpoint four 100 none 0 ≡ (ok (2 ∷ 1 ∷ 4 ∷ 0 ∷ []), 3)
unfolding embed_in_order send_embedding_batch plan_embedding_batches plan_from
    estimate_embedding_tokens input_limit dec_lt
embed_runs = refl

pair_endpoint-Answers : Answers pair_endpoint length
pair_endpoint-Answers = record { at = λ texts s vs h. ground arith }

pair_endpoint-Accepts : Accepts pair_endpoint
pair_endpoint-Accepts = record { alone = λ text s h. cc; sound = λ texts s e h. ground arith }

embed_in_order_outcome_example :
    Meets pair_endpoint length four (embed_in_order pair_endpoint four 100 none 0).0
embed_in_order_outcome_example =
    embed_in_order_outcome pair_endpoint length four 100 none 0 pair_endpoint-Answers

embed_in_order_total_example :
    (embed_in_order pair_endpoint four 100 none 0).0 ≡ ok (2 ∷ 1 ∷ 4 ∷ 0 ∷ [])
embed_in_order_total_example =
    embed_in_order_total pair_endpoint length four 100 none 0 pair_endpoint-Answers
      pair_endpoint-Accepts

requests-embed_in_order_example : (embed_in_order pair_endpoint four 100 none 0).1 ≤ 8
requests-embed_in_order_example =
    requests-embed_in_order pair_endpoint (λ n. n) (λ texts s. omega arith) four 100 none 0
