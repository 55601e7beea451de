-- ===== src/Embedding/Plan.antt =====
-- The batch planner of packages/svs_common/svs_common/providers.py. A text is the list of its code
-- points, as `len` counts them.
pub mod Partition
pub mod Budget
use exais_vector_store.Prelude.{
  ℕ, suc, ◌+◌, ◌-◌, ◌/◌, max, List, [], ◌∷◌, Option, none, some, Bool, true, false, ◌&&◌, ◌||◌, ltb,
  leb, length,
}

abbrev pub Text : Type 0
Text = List ℕ

-- `math.ceil(len(text) / 2.0)`, at least one
unfoldable pub estimate_embedding_tokens : Text → ℕ
estimate_embedding_tokens text = max 1 ((length text + 1) / 2)

abbrev pub Span : Type 0
Span = ℕ × ℕ

-- `max(1, int(max_inputs)) if max_inputs else None`
unfoldable pub input_limit : Option ℕ → Option ℕ
input_limit none = none
input_limit (some n) = elim n [ ℕ.zero ↦ none | suc m ↦ some (max 1 (suc m)) ]

unfoldable pub at_limit : Option ℕ → ℕ → Bool
at_limit none batched = false
at_limit (some limit) batched = leb limit batched

-- the test that closes a span before the next input
unfoldable pub closes : ℕ → Option ℕ → ℕ → ℕ → ℕ → Bool
unfolding at_limit
closes budget limit batched used cost =
    ltb 0 batched && (ltb budget (used + cost) || at_limit limit batched)

-- The loop over `enumerate(texts)` from `index` on, and the append after it: the spans still to
-- come. `index` is `len(texts)` at the end.
unfoldable pub plan_from : ℕ → Option ℕ → ℕ → ℕ → ℕ → List Text → List Span
unfolding closes
plan_from budget limit index start used [] = (start, index) ∷ []
plan_from budget limit index start used (text ∷ texts) =
    let cost = estimate_embedding_tokens text in
    elim (closes budget limit (index - start) used cost) [
      | true ↦ (start, index) ∷ plan_from budget limit (index + 1) index (0 + cost) texts
      | false ↦ plan_from budget limit (index + 1) start (used + cost) texts
    ]

unfoldable pub plan_embedding_batches : List Text → ℕ → Option ℕ → List Span
plan_embedding_batches [] token_budget max_inputs = []
plan_embedding_batches (text ∷ texts) token_budget max_inputs =
    plan_from (max 1 token_budget) (input_limit max_inputs) 0 0 0 (text ∷ texts)
