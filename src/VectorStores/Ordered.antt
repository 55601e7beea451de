-- ===== src/VectorStores/Ordered.antt =====
-- What the ORDER BY of a page of vector stores gives: the same rows, in order.
use exais_vector_store.Prelude.{
  List, Bool, ◌∷◌, length, ◌≡◌, Bool-cases, suc, ◌∙◌, true, [], inl, ap, false, if◌then◌else◌, refl,
  inr,
}
use mathlib.Core.List.Perm
use mathlib.Core.List.{Perm}
use exais_vector_store.VectorStores.Rows.{VectorStore}
use exais_vector_store.VectorStores.Listing.{insert_store, order_by}

module _ (precedes : VectorStore → VectorStore → Bool) where
  insert_store-Perm :
      (s : VectorStore) (rows : List VectorStore) → Perm (insert_store precedes s rows) (s ∷ rows)
  unfolding insert_store
  insert_store-Perm s [] = Perm.rfl
  insert_store-Perm s (r ∷ rows) = elim (Bool-cases (precedes s r)) [
    | inl hit ↦ rw (hit, if◌then◌else◌) Perm.rfl
    | inr miss ↦
        rw (miss, if◌then◌else◌)
          (Perm.trans (Perm.cons r (insert_store-Perm s rows)) (Perm.swap s r rows))
  ]

  pub order_by-Perm : (rows : List VectorStore) → Perm (order_by precedes rows) rows
  unfolding order_by
  order_by-Perm [] = Perm.rfl
  order_by-Perm (s ∷ rows) =
      Perm.trans (insert_store-Perm s (order_by precedes rows)) (Perm.cons s (order_by-Perm rows))

  length-insert_store :
      (s : VectorStore) (rows : List VectorStore)
      → length (insert_store precedes s rows) ≡ suc (length rows)
  unfolding insert_store
  length-insert_store s [] = refl
  length-insert_store s (r ∷ rows) = elim (Bool-cases (precedes s r)) [
    | inl hit ↦ rw (hit, if◌then◌else◌) refl
    | inr miss ↦ rw (miss, if◌then◌else◌) (ap suc (length-insert_store s rows))
  ]

  pub length-order_by : (rows : List VectorStore) → length (order_by precedes rows) ≡ length rows
  unfolding order_by
  length-order_by [] = refl
  length-order_by (s ∷ rows) =
      length-insert_store s (order_by precedes rows) ∙ ap suc (length-order_by rows)

module _ (InOrder : VectorStore → VectorStore → Type 0) where
  -- each row is in order with the next
  abbrev pub IsOrderedAfter : VectorStore → List VectorStore → Type 0
  IsOrderedAfter a [] = Unit
  IsOrderedAfter a (b ∷ rows) = InOrder a b × IsOrderedAfter b rows

  abbrev pub IsOrdered : List VectorStore → Type 0
  IsOrdered [] = Unit
  IsOrdered (a ∷ rows) = IsOrderedAfter a rows

  module _ (precedes : VectorStore → VectorStore → Bool)
      (hit : (a b : VectorStore) → precedes a b ≡ true → InOrder a b)
      (miss : (a b : VectorStore) → precedes a b ≡ false → InOrder b a) where
    insert_store-IsOrderedAfter :
        (a s : VectorStore) (rows : List VectorStore)
        → InOrder a s
        → IsOrderedAfter a rows
        → IsOrderedAfter a (insert_store precedes s rows)
    unfolding insert_store
    insert_store-IsOrderedAfter a s [] first ordered = (first, tt)
    insert_store-IsOrderedAfter a s (r ∷ rows) first (next, rest) =
        elim (Bool-cases (precedes s r)) [
          | inl before ↦ rw (before, if◌then◌else◌) (first, (hit s r before, rest))
          | inr after ↦
              rw (after, if◌then◌else◌)
                (next, insert_store-IsOrderedAfter r s rows (miss s r after) rest)
        ]

    insert_store-IsOrdered :
        (s : VectorStore) (rows : List VectorStore)
        → IsOrdered rows
        → IsOrdered (insert_store precedes s rows)
    unfolding insert_store
    insert_store-IsOrdered s [] ordered = tt
    insert_store-IsOrdered s (r ∷ rows) ordered = elim (Bool-cases (precedes s r)) [
      | inl before ↦ rw (before, if◌then◌else◌) (hit s r before, ordered)
      | inr after ↦
          rw (after, if◌then◌else◌) (insert_store-IsOrderedAfter r s rows (miss s r after) ordered)
    ]

    pub order_by-IsOrdered : (rows : List VectorStore) → IsOrdered (order_by precedes rows)
    unfolding order_by
    order_by-IsOrdered [] = tt
    order_by-IsOrdered (s ∷ rows) =
        insert_store-IsOrdered s (order_by precedes rows) (order_by-IsOrdered rows)
