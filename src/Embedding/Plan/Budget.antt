-- ===== src/Embedding/Plan/Budget.antt =====
-- What a planned batch may cost, and that the planner is greedy.
use exais_vector_store.Prelude.{
  ℕ, ◌+◌, ◌≤◌, ◌<◌, ◌≡◌, ◌⊎◌, inl, inr, refl, sym, max, List, [], ◌∷◌, ◌++◌, map, Option, none,
  some, false, arith, subst, length, length-append, All, Bool-cases,
}
use exais_vector_store.Embedding.Plan.{
  Text, estimate_embedding_tokens, input_limit, closes, plan_embedding_batches,
}
use exais_vector_store.Embedding.Plan.Partition.{cut, group, plan-eq-group}

-- the estimate of a batch
abbrev pub batch_cost : List Text → ℕ
batch_cost [] = 0
batch_cost (text ∷ texts) = estimate_embedding_tokens text + batch_cost texts

abbrev pub IsWithin : Option ℕ → ℕ → Type 0
IsWithin none n = Unit
IsWithin (some limit) n = n ≤ limit

-- A batch holds an input, is within the limit on inputs, and is within the budget unless it is
-- one input alone.
pub record Fits (budget : ℕ) (limit : Option ℕ) (batch : List Text) : Type 0 where
  pub filled : 0 < length batch
  pub inputs : IsWithin limit (length batch)
  pub tokens : (length batch ≡ 1) ⊎ (batch_cost batch ≤ budget)

batch_cost-append : (xs ys : List Text) → batch_cost (xs ++ ys) ≡ batch_cost xs + batch_cost ys
batch_cost-append [] ys = omega arith
batch_cost-append (x ∷ xs) ys = omega (arith, batch_cost-append xs ys)

abbrev pub IsPositive : Option ℕ → Type 0
IsPositive none = Unit
IsPositive (some limit) = 1 ≤ limit

Fits-single :
    (budget : ℕ) (limit : Option ℕ) (text : Text) → IsPositive limit → Fits budget limit (text ∷ [])
Fits-single budget none text h = record { filled = omega arith; inputs = tt; tokens = inl refl }
Fits-single budget (some n) text h = record { filled = omega arith; inputs = h; tokens = inl refl }

-- an input that does not close a batch of at least one input fits in it
Fits-extend :
    (budget : ℕ) (limit : Option ℕ) (batch : List Text) (text : Text)
    → 0 < length batch
    → closes budget limit (length batch) (batch_cost batch) (estimate_embedding_tokens text) ≡ false
    → Fits budget limit (batch ++ text ∷ [])
unfolding closes
Fits-extend budget none batch text h c = record {
  filled = omega (arith, length-append batch (text ∷ []));
  inputs = tt;
  tokens = inr (ground (arith, batch_cost-append batch (text ∷ [])));
}
Fits-extend budget (some n) batch text h c = record {
  filled = omega (arith, length-append batch (text ∷ []));
  inputs = ground (arith, length-append batch (text ∷ []));
  tokens = inr (ground (arith, batch_cost-append batch (text ∷ [])));
}

group-Fits :
    (budget : ℕ) (limit : Option ℕ) (batch : List Text) (used : ℕ) (texts : List Text)
    → IsPositive limit
    → used ≡ batch_cost batch
    → Fits budget limit batch
    → All (Fits budget limit) (group budget limit batch used texts)
unfolding group
group-Fits budget limit batch used [] p u f = (f, tt)
group-Fits budget limit batch used (text ∷ texts) p u f =
    let cost = estimate_embedding_tokens text in
    elim (Bool-cases (closes budget limit (length batch) used cost)) [
      | inl c ↦
          rw (c, group, All)
            (
              f,
              group-Fits budget limit (text ∷ []) (0 + cost) texts p (omega arith)
                  (Fits-single budget limit text p),
            )
      | inr c ↦
          rw (c, group)
            (group-Fits budget limit (batch ++ text ∷ []) (used + cost) texts p
              (omega (arith, batch_cost-append batch (text ∷ [])))
              (Fits-extend budget limit batch text f.filled (rw u at c)))
    ]

input_limit-IsPositive : (max_inputs : Option ℕ) → IsPositive (input_limit max_inputs)
unfolding input_limit
input_limit-IsPositive max_inputs = ground arith

-- Every batch that the planner cuts fits, at the clamped budget and limit.
pub plan-Fits :
    (texts : List Text) (token_budget : ℕ) (max_inputs : Option ℕ)
    → All
        (Fits (max 1 token_budget) (input_limit max_inputs))
        (map (cut texts) (plan_embedding_batches texts token_budget max_inputs))
unfolding plan_embedding_batches group closes
plan-Fits [] token_budget max_inputs = tt
plan-Fits (text ∷ texts) token_budget max_inputs =
    subst (All (Fits (max 1 token_budget) (input_limit max_inputs)))
      (sym (plan-eq-group text texts token_budget max_inputs))
      (group-Fits (max 1 token_budget) (input_limit max_inputs) (text ∷ []) _ texts
        (input_limit-IsPositive max_inputs) (omega arith)
        (Fits-single (max 1 token_budget) (input_limit max_inputs) text
          (input_limit-IsPositive max_inputs)))

All-filled :
    (budget : ℕ) (limit : Option ℕ) (batches : List (List Text))
    → All (Fits budget limit) batches
    → All (λ batch. 0 < length batch) batches
All-filled budget limit [] f = tt
All-filled budget limit (batch ∷ batches) (h, f) = (h.filled, All-filled budget limit batches f)

pub plan_filled :
    (texts : List Text) (token_budget : ℕ) (max_inputs : Option ℕ)
    → All
        (λ batch. 0 < length batch)
        (map (cut texts) (plan_embedding_batches texts token_budget max_inputs))
plan_filled texts token_budget max_inputs =
    All-filled (max 1 token_budget) (input_limit max_inputs) _
      (plan-Fits texts token_budget max_inputs)
