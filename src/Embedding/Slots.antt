-- ===== src/Embedding/Slots.antt =====
-- `ordered_batch_vectors` of packages/svs_common/svs_common/providers.py: one batch's vectors, put
-- in the order of the indices that the endpoint reported.
pub mod Placed
pub mod Ordered
use exais_vector_store.Prelude.{
  ℕ, ◌+◌, List, [], ◌∷◌, Option, none, some, true, false, ltb, ◌==◌, if◌then◌else◌, length,
  get_elem?, set, replicate,
}
use exais_vector_store.Prelude.Int.{ℤ, pos, negsuc}
use exais_vector_store.Prelude.Result.{Result, ok, err, ◌>>=◌}

-- The messages of `EmbeddingBatchError`, with the values that they report.
pub data BatchError : Type 0 where
  item_count : Option ℕ → ℕ → BatchError
  without_embedding : BatchError
  index_outside : ℤ → ℕ → BatchError
  duplicate_index : ℕ → BatchError
  incomplete : ℕ → BatchError
  single_rejected : ℕ → BatchError
  batch_count : ℕ → ℕ → ℕ → ℕ → BatchError
  total_count : ℕ → ℕ → BatchError

-- An item of the response: an object with `index` and `embedding`, or the vector itself. A vector
-- that is absent or null is `none`.
pub data Item (V : Type 0) : Type 0 where
  entry : Option ℤ → Option V → Item V
  bare : Option V → Item V

module _ {V : Type 0} where
  -- `int(item.get("index", position))`
  unfoldable pub item_index : ℕ → Item V → ℤ
  item_index position (entry none vector) = pos position
  item_index position (entry (some index) vector) = index
  item_index position (bare vector) = pos position

  unfoldable pub item_vector : Item V → Option V
  item_vector (entry index vector) = vector
  item_vector (bare vector) = vector

  -- `slots[index] = list(vector)`, unless the slot is taken
  unfoldable pub fill : List (Option V) → ℕ → V → Result BatchError (List (Option V))
  fill slots index vector = elim (get_elem? slots index) [
    | none ↦ ok slots
    | some slot ↦ elim slot [
      | none ↦ ok (set slots index (some vector))
      | some taken ↦ err (duplicate_index index)
    ]
  ]

  -- the checks of one round of the loop
  unfoldable pub place_item :
      ℕ → List (Option V) → ℤ → Option V → Result BatchError (List (Option V))
  unfolding fill
  place_item expected slots index none = err without_embedding
  place_item expected slots (negsuc n) (some vector) = err (index_outside (negsuc n) expected)
  place_item expected slots (pos n) (some vector) =
      if ltb n expected then fill slots n vector else err (index_outside (pos n) expected)

  -- the loop over `enumerate(items)`, from `position` on
  unfoldable pub place :
      ℕ → ℕ → List (Item V) → List (Option V) → Result BatchError (List (Option V))
  place expected position [] slots = ok slots
  place expected position (item ∷ items) slots = do
    slots' ← place_item expected slots (item_index position item) (item_vector item)
    place expected (position + 1) items slots'

  -- `[slot for slot in slots if slot is not None]`
  unfoldable pub filled : List (Option V) → List V
  filled [] = []
  filled (none ∷ slots) = filled slots
  filled (some vector ∷ slots) = vector ∷ filled slots

  unfoldable pub order_slots : ℕ → List (Option V) → Result BatchError (List V)
  order_slots expected slots =
      if length (filled slots) == expected then ok (filled slots) else err (incomplete expected)

  -- `none` is a response that holds no list
  unfoldable pub ordered_batch_vectors : Option (List (Item V)) → ℕ → Result BatchError (List V)
  unfolding order_slots
  ordered_batch_vectors none expected = err (item_count none expected)
  ordered_batch_vectors (some items) expected =
      if length items == expected
      then (do slots ← place expected 0 items (replicate expected none); order_slots expected slots)
      else err (item_count (some (length items)) expected)
