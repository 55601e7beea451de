-- ===== src/Embedding/Slots/Ordered.antt =====
-- What `ordered_batch_vectors` returns: each vector at the index that its item reported.
use exais_vector_store.Prelude.{
  ℕ, zero, suc, ◌+◌, ◌≡◌, ◌≢◌, refl, sym, ap, List, [], ◌∷◌, Option, none, some, arith, ◌==◌,
  if◌then◌else◌, length, get_elem?, replicate, length-replicate, inl, inr, Bool-cases, subst, ◌∙◌,
}
use exais_vector_store.Prelude.Result.{ok, err, ◌>>=◌, both_ok, Result-cases}
use exais_vector_store.Prelude.Int.{ℤ}
use exais_vector_store.Embedding.Slots.{
  incomplete, Item, item_index, item_vector, place_item, place, filled, order_slots,
  ordered_batch_vectors, BatchError, Result,
}
use exais_vector_store.Embedding.Slots.Placed.{
  AtIndices, FilledAt, place-PlacedAll, count_filled, count_filled-replicate, count_filled-le,
  length-filled,
}

module _ {V : Type 0} where
  -- with every slot filled, a vector keeps its place
  get_elem?-filled :
      (slots : List (Option V)) (n : ℕ) (v : V)
      → count_filled slots ≡ length slots
      → get_elem? slots n ≡ some (some v)
      → get_elem? (filled slots) n ≡ some v
  unfolding filled
  get_elem?-filled [] n v c h = cc
  get_elem?-filled (none ∷ slots) n v c h = absurd (omega (arith, count_filled-le slots))
  get_elem?-filled (some w ∷ slots) zero v c h = cc
  get_elem?-filled (some w ∷ slots) (suc n) v c h = get_elem?-filled slots n v (omega arith) h

  AtIndices-filled :
      (position : ℕ) (items : List (Item V)) (slots : List (Option V))
      → count_filled slots ≡ length slots
      → FilledAt position items slots
      → AtIndices position items (filled slots)
  AtIndices-filled position [] slots c f = tt
  AtIndices-filled position (item ∷ items) slots c ((at, value, i, v, h), f) = (
    (at, value, i, v, get_elem?-filled slots at value c h),
    AtIndices-filled (position + 1) items slots c f,
  )

  -- a batch that places all its items leaves no slot empty
  place_full :
      (items : List (Item V)) (slots : List (Option V))
      → place (length items) 0 items (replicate (length items) none) ≡ ok slots
      → (count_filled slots ≡ length slots) × (length slots ≡ length items) × FilledAt 0 items slots
  place_full items slots e =
      let n = length items in
      let all = place-PlacedAll n 0 items (replicate n none) slots (length-replicate n none) e in
      (
        omega (arith, all.count, all.size, count_filled-replicate n none refl),
        all.size,
        all.filled_at,
      )

  order_slots-full :
      (expected : ℕ) (slots : List (Option V))
      → count_filled slots ≡ length slots
      → length slots ≡ expected
      → order_slots expected slots ≡ ok (filled slots)
  unfolding order_slots
  order_slots-full expected slots c l = ground (arith, length-filled slots)

  ordered_by_place :
      (items : List (Item V)) (slots : List (Option V))
      → place (length items) 0 items (replicate (length items) none) ≡ ok slots
      → order_slots (length items) slots ≡ ok (filled slots)
  ordered_by_place items slots e =
      let (c, l, f) = place_full items slots e in order_slots-full (length items) slots c l

  ordered_self :
      (items : List (Item V)) (vectors : List V)
      → (place (length items) 0 items (replicate (length items) none)
          >>= order_slots (length items))
        ≡ ok vectors
      → (length vectors ≡ length items) × AtIndices 0 items vectors
  ordered_self items vectors e =
      let (slots, placed, ordered) =
        both_ok (order_slots (length items))
          (place (length items) 0 items (replicate (length items) none)) e in
      let (c, l, f) = place_full items slots placed in
      let same : filled slots ≡ vectors = cc (ordered_by_place items slots placed) in
      subst (λ (vs : List V). (length vs ≡ length items) × AtIndices 0 items vs) same
        (omega (arith, length-filled slots), AtIndices-filled 0 items slots c f)

  -- When the vectors of a batch are returned, there is one for each item, and each stands at the
  -- index that its item reported (its position, if it reported none).
  pub ordered_AtIndices :
      (items : List (Item V)) (expected : ℕ) (vectors : List V)
      → ordered_batch_vectors (some items) expected ≡ ok vectors
      → (length vectors ≡ expected) × (length items ≡ expected) × AtIndices 0 items vectors
  unfolding ordered_batch_vectors
  ordered_AtIndices items expected vectors e = elim (Bool-cases (length items == expected)) [
    | inl c ↦
        let same : length items ≡ expected = ground arith in
        let (size, placed) = ordered_self items vectors (
          subst (λ n. (place n 0 items (replicate n none) >>= order_slots n) ≡ ok vectors)
            (sym same) (rw (c, if◌then◌else◌) at e)) in
        (omega arith, same, placed)
    | inr c ↦ absurd (ground arith)
  ]

  place_item-ne-incomplete :
      (expected : ℕ) (slots : List (Option V)) (index : ℤ) (vector : Option V) (n : ℕ)
      → place_item expected slots index vector ≢ err (incomplete n)
  unfolding place_item
  place_item-ne-incomplete expected slots index vector n = ground arith

  place-ne-incomplete :
      (expected position : ℕ) (items : List (Item V)) (slots : List (Option V)) (n : ℕ)
      → place expected position items slots ≢ err (incomplete n)
  unfolding place
  place-ne-incomplete expected position [] slots n e = cc
  place-ne-incomplete expected position (item ∷ items) slots n e =
      elim (Result-cases
        (place_item expected slots (item_index position item) (item_vector item))) [
          | inl (middle, h) ↦
              place-ne-incomplete expected (position + 1) items middle n (rw (h, place, ◌>>=◌) at e)
          | inr (problem, h) ↦
              place_item-ne-incomplete expected slots (item_index position item) (item_vector item)
                n (h ∙ (rw (h, place, ◌>>=◌) at e))
        ]

  ordered_self-ne-incomplete :
      (items : List (Item V)) (n : ℕ)
      → (place (length items) 0 items (replicate (length items) none)
          >>= order_slots (length items))
        ≢ err (incomplete n)
  ordered_self-ne-incomplete items n e =
      elim (Result-cases (place (length items) 0 items (replicate (length items) none))) [
        | inl (slots, h) ↦
            let f : order_slots (length items) slots ≡ err (incomplete n) = rw (h, ◌>>=◌) at e in
            cc (f, ordered_by_place items slots h)
        | inr (problem, h) ↦
            place-ne-incomplete (length items) 0 items (replicate (length items) none) n
              (h ∙ ap err (failed problem (rw (h, ◌>>=◌) at e)))
      ]
    where
      failed :
          (problem : BatchError)
          → ◌≡◌ {A = Result BatchError (List V)} (err problem) (err (incomplete n))
          → problem ≡ incomplete n
      failed problem f = cc

  -- The last check of `ordered_batch_vectors` never fails: a response that passes the checks of the
  -- loop has filled every slot.
  pub ordered-ne-incomplete :
      (items : Option (List (Item V))) (expected n : ℕ)
      → ordered_batch_vectors items expected ≢ err (incomplete n)
  unfolding ordered_batch_vectors
  ordered-ne-incomplete none expected n e = cc
  ordered-ne-incomplete (some items) expected n e = elim (Bool-cases (length items == expected)) [
    | inl c ↦
        let same : length items ≡ expected = ground arith in
        ordered_self-ne-incomplete items n (
          subst
            (λ n'. (place n' 0 items (replicate n' none) >>= order_slots n') ≡ err (incomplete n))
            (sym same) (rw (c, if◌then◌else◌) at e))
    | inr c ↦ absurd (ground arith)
  ]
