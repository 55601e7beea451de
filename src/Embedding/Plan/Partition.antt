-- ===== src/Embedding/Plan/Partition.antt =====
-- The spans of `plan_embedding_batches` cut the inputs into contiguous batches.
use mathlib.Core.Path.{ap₂}
use mathlib.Core.List.{append_assoc}
use exais_vector_store.Prelude.{
  ℕ, ◌+◌, ◌-◌, ◌<◌, ◌≡◌, refl, ap, ◌∙◌, max, List, [], ◌∷◌, ◌++◌, map, Option, true, false, arith,
  inl, inr, length, length-append, slice, concat, drop-append, take-append, Bool-cases,
}
use exais_vector_store.Embedding.Plan.{
  Text, Span, estimate_embedding_tokens, input_limit, closes, plan_from, plan_embedding_batches,
}

-- The spans run from `a` to `b`: each begins where the last one ended, and holds an input.
abbrev pub Covers : ℕ → ℕ → List Span → Type 0
Covers a b [] = a ≡ b
Covers a b ((start, end) ∷ spans) = (start ≡ a) × (start < end) × Covers end b spans

Covers-plan_from :
    (budget : ℕ) (limit : Option ℕ) (index start used : ℕ) (texts : List Text) (n : ℕ)
    → start < index
    → n ≡ index + length texts
    → Covers start n (plan_from budget limit index start used texts)
unfolding plan_from
Covers-plan_from budget limit index start used [] n h e = (refl, h, omega arith)
Covers-plan_from budget limit index start used (text ∷ texts) n h e =
    let cost = estimate_embedding_tokens text in
    elim (Bool-cases (closes budget limit (index - start) used cost)) [
      | inl c ↦
          rw (c, plan_from, Covers)
            (
              refl,
              h,
              Covers-plan_from budget limit (index + 1) index (0 + cost) texts n (omega arith)
                  (omega arith),
            )
      | inr c ↦
          rw (c, plan_from, Covers)
            (Covers-plan_from budget limit (index + 1) start (used + cost) texts n (omega arith)
              (omega arith))
    ]

pub plan-Covers :
    (texts : List Text) (token_budget : ℕ) (max_inputs : Option ℕ)
    → Covers 0 (length texts) (plan_embedding_batches texts token_budget max_inputs)
unfolding plan_embedding_batches plan_from closes
plan-Covers [] token_budget max_inputs = refl
plan-Covers (text ∷ texts) token_budget max_inputs =
    Covers-plan_from (max 1 token_budget) (input_limit max_inputs) 1 0 _ texts
      (length (text ∷ texts)) (omega arith) (omega arith)

abbrev pub cut : List Text → Span → List Text
cut texts (start, end) = slice start end texts

-- The planner on the batches themselves: `batch` is the one that is open.
unfoldable pub group : ℕ → Option ℕ → List Text → ℕ → List Text → List (List Text)
group budget limit batch used [] = batch ∷ []
group budget limit batch used (text ∷ texts) =
    let cost = estimate_embedding_tokens text in
    elim (closes budget limit (length batch) used cost) [
      | true ↦ batch ∷ group budget limit (text ∷ []) (0 + cost) texts
      | false ↦ group budget limit (batch ++ text ∷ []) (used + cost) texts
    ]

pub slice-middle {ℓ} :
    {A : Type ℓ} (before batch after : List A) (start end : ℕ) (all : List A)
    → all ≡ before ++ (batch ++ after)
    → start ≡ length before
    → end ≡ length before + length batch
    → slice start end all ≡ batch
slice-middle before batch after start end all a s e =
    let gap : end - start ≡ length batch = omega arith in rw (a, gap, s, drop-append, take-append)

-- Cutting the inputs at the planned spans gives the batches of `group`.
map-cut-plan_from :
    (budget : ℕ) (limit : Option ℕ) (before batch : List Text) (index start used : ℕ)
    (texts all : List Text)
    → all ≡ before ++ (batch ++ texts)
    → start ≡ length before
    → index ≡ length before + length batch
    → map (cut all) (plan_from budget limit index start used texts)
      ≡ group budget limit batch used texts
unfolding plan_from group
map-cut-plan_from budget limit before batch index start used [] all a s e =
    ap (λ b. b ∷ []) (slice-middle before batch [] start index all a s e)
map-cut-plan_from budget limit before batch index start used (text ∷ texts) all a s e =
    let gap : index - start ≡ length batch = omega arith in
    let cost = estimate_embedding_tokens text in
    elim (Bool-cases (closes budget limit (length batch) used cost)) [
      | inl c ↦
          rw (gap, c, plan_from, group, map)
            (ap₂ ◌∷◌ (slice-middle before batch (text ∷ texts) start index all a s e) (
              map-cut-plan_from budget limit (before ++ batch) (text ∷ []) (index + 1) index
                (0 + cost) texts all (rw append_assoc a) (omega (arith, length-append before batch))
                (omega (arith, length-append before batch))))
      | inr c ↦
          rw (gap, c, plan_from, group, map)
            (map-cut-plan_from budget limit before (batch ++ text ∷ []) (index + 1) start
              (used + cost) texts all (rw append_assoc a) s
              (omega (arith, length-append batch (text ∷ []))))
    ]

pub plan-eq-group :
    (text : Text) (texts : List Text) (token_budget : ℕ) (max_inputs : Option ℕ)
    → map (cut (text ∷ texts)) (plan_embedding_batches (text ∷ texts) token_budget max_inputs)
      ≡ group (max 1 token_budget) (input_limit max_inputs) [] 0 (text ∷ texts)
unfolding plan_embedding_batches
plan-eq-group text texts token_budget max_inputs =
    map-cut-plan_from (max 1 token_budget) (input_limit max_inputs) [] [] 0 0 0 (text ∷ texts)
      (text ∷ texts) refl refl refl

concat-group :
    (budget : ℕ) (limit : Option ℕ) (batch : List Text) (used : ℕ) (texts : List Text)
    → concat (group budget limit batch used texts) ≡ batch ++ texts
unfolding group
concat-group budget limit batch used [] = refl
concat-group budget limit batch used (text ∷ texts) = ground (
  arith,
  concat-group budget limit (text ∷ []) (0 + estimate_embedding_tokens text) texts,
  concat-group budget limit (batch ++ text ∷ []) (used + estimate_embedding_tokens text) texts,
  append_assoc batch (text ∷ []) texts,
)

-- Cut at its spans and joined again, the input list comes back: no input is lost, doubled or moved.
pub concat-plan :
    (texts : List Text) (token_budget : ℕ) (max_inputs : Option ℕ)
    → concat (map (cut texts) (plan_embedding_batches texts token_budget max_inputs)) ≡ texts
unfolding plan_embedding_batches
concat-plan [] token_budget max_inputs = refl
concat-plan (text ∷ texts) token_budget max_inputs =
    ap concat (plan-eq-group text texts token_budget max_inputs)
    ∙ concat-group (max 1 token_budget) (input_limit max_inputs) [] 0 (text ∷ texts)
