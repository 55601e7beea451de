-- ===== src/Embedding/Slots/Placed.antt =====
-- What the loop of `ordered_batch_vectors` leaves in the slots.
use exais_vector_store.Prelude.{
  ℕ, zero, suc, ◌+◌, ◌<◌, ◌≤◌, ◌≡◌, ◌≢◌, refl, ap, List, [], ◌∷◌, Option, none, some, arith, ltb,
  length, get_elem?, set, replicate, length-set, inl, inr, Bool-cases, ℕ_discrete, get_elem?-set_ne,
  subst, get_elem?-set_self, lt-length_of_some,
}
use exais_vector_store.Prelude.Result.{ok, both_ok}
use exais_vector_store.Prelude.Int.{ℤ, pos, negsuc}
use exais_vector_store.Embedding.Slots.{
  Item, item_index, item_vector, fill, place_item, place, filled,
}

module _ {V : Type 0} where
  -- A round of the loop that does not raise fills one empty slot.
  pub record Placed (slots slots' : List (Option V)) (index : ℤ) (vector : Option V) : Type 0 where
    pub at : ℕ
    pub value : V
    pub reported : index ≡ pos at
    pub given : vector ≡ some value
    pub empty : get_elem? slots at ≡ some none
    pub written : slots' ≡ set slots at (some value)

  in_range : (slots : List (Option V)) (n : ℕ) → n < length slots → get_elem? slots n ≢ none
  in_range [] n h = elim h [ ]
  in_range (x ∷ slots) zero h = ground arith
  in_range (x ∷ slots) (suc n) h = in_range slots n (omega arith)

  fill-ok :
      (slots slots' : List (Option V)) (n : ℕ) (v : V)
      → n < length slots
      → fill slots n v ≡ ok slots'
      → (get_elem? slots n ≡ some none) × (slots' ≡ set slots n (some v))
  unfolding fill
  fill-ok slots slots' n v h e = ground (arith, in_range slots n h)

  place_item-ok :
      (expected : ℕ) (slots slots' : List (Option V)) (index : ℤ) (vector : Option V)
      → length slots ≡ expected
      → place_item expected slots index vector ≡ ok slots'
      → Placed slots slots' index vector
  unfolding place_item
  place_item-ok expected slots slots' index none l e = cc
  place_item-ok expected slots slots' (negsuc n) (some v) l e = cc
  place_item-ok expected slots slots' (pos n) (some v) l e = elim (Bool-cases (ltb n expected)) [
    | inl c ↦
        let (free, wrote) = fill-ok slots slots' n v (ground arith) (rw (c, place_item) at e) in
        record { at = n; value = v; reported = refl; given = refl; empty = free; written = wrote }
    | inr c ↦ absurd (ground arith)
  ]

  -- The vector of each item, from `position` on, stands in `vectors` at the index that the item
  -- reported.
  abbrev pub AtIndices : ℕ → List (Item V) → List V → Type 0
  AtIndices position [] vectors = Unit
  AtIndices position (item ∷ items) vectors =
      ((at : ℕ) × (value : V) × (item_index position item ≡ pos at)
        × (item_vector item ≡ some value)
        × (get_elem? vectors at ≡ some value))
      × AtIndices (position + 1) items vectors

  -- What a slot holds, it keeps.
  abbrev pub Keeps : List (Option V) → List (Option V) → Type 0
  Keeps slots slots' =
      (i : ℕ) (v : V) → get_elem? slots i ≡ some (some v) → get_elem? slots' i ≡ some (some v)

  abbrev pub count_filled : List (Option V) → ℕ
  count_filled [] = 0
  count_filled (none ∷ slots) = count_filled slots
  count_filled (some v ∷ slots) = suc (count_filled slots)

  count_filled-set :
      (slots : List (Option V)) (n : ℕ) (v : V)
      → get_elem? slots n ≡ some none
      → count_filled (set slots n (some v)) ≡ suc (count_filled slots)
  count_filled-set [] n v h = cc
  count_filled-set (none ∷ slots) zero v h = refl
  count_filled-set (some w ∷ slots) zero v h = absurd (ground arith)
  count_filled-set (none ∷ slots) (suc n) v h = count_filled-set slots n v h
  count_filled-set (some w ∷ slots) (suc n) v h = ap suc (count_filled-set slots n v h)

  Keeps-set :
      (slots : List (Option V)) (n : ℕ) (v : V)
      → get_elem? slots n ≡ some none
      → Keeps slots (set slots n (some v))
  Keeps-set slots n v h i w e = elim (ℕ_discrete n i) [
    | yes p ↦ absurd (cc (p, h, e))
    | no p ↦ rw (get_elem?-set_ne slots n i (some v) p) e
  ]

  abbrev pub FilledAt : ℕ → List (Item V) → List (Option V) → Type 0
  FilledAt position [] slots = Unit
  FilledAt position (item ∷ items) slots =
      ((at : ℕ) × (value : V) × (item_index position item ≡ pos at)
        × (item_vector item ≡ some value)
        × (get_elem? slots at ≡ some (some value)))
      × FilledAt (position + 1) items slots

  pub record PlacedAll (expected position : ℕ) (items : List (Item V))
      (slots slots' : List (Option V)) : Type 0 where
    pub filled_at : FilledAt position items slots'
    pub keeps : Keeps slots slots'
    pub size : length slots' ≡ expected
    pub count : count_filled slots' ≡ count_filled slots + length items

  pub place-PlacedAll :
      (expected position : ℕ) (items : List (Item V)) (slots slots' : List (Option V))
      → length slots ≡ expected
      → place expected position items slots ≡ ok slots'
      → PlacedAll expected position items slots slots'
  unfolding place
  place-PlacedAll expected position [] slots slots' l e =
      let same : slots ≡ slots' = cc in
      subst (PlacedAll expected position [] slots) same
        (record { filled_at = tt; keeps = λ i v h. h; size = l; count = omega arith })
  place-PlacedAll expected position (item ∷ items) slots slots' l e =
      let (middle, stepped, rest) =
        both_ok (place expected (position + 1) items)
          (place_item expected slots (item_index position item) (item_vector item)) e in
      let p = place_item-ok expected slots middle _ _ l stepped in
      let sized : length middle ≡ expected =
        rw p.written (omega (arith, length-set slots p.at (some p.value))) in
      let all = place-PlacedAll expected (position + 1) items middle slots' sized rest in
      let here : get_elem? middle p.at ≡ some (some p.value) = rw p.written (
        get_elem?-set_self slots p.at (some p.value) (lt-length_of_some slots p.at none p.empty)) in
      record {
        filled_at =
            ((p.at, p.value, p.reported, p.given, all.keeps p.at p.value here), all.filled_at);
        keeps = λ i v h. all.keeps i v (rw p.written (Keeps-set slots p.at p.value p.empty i v h));
        size = all.size;
        count = omega (
          arith,
          all.count,
          ap count_filled p.written,
          count_filled-set slots p.at p.value p.empty,
        );
      }

  pub count_filled-replicate :
      (n : ℕ) (slot : Option V) → slot ≡ none → count_filled (replicate n slot) ≡ 0
  count_filled-replicate zero slot h = refl
  count_filled-replicate (suc n) none h = count_filled-replicate n none h
  count_filled-replicate (suc n) (some v) h = cc

  pub count_filled-le : (slots : List (Option V)) → count_filled slots ≤ length slots
  count_filled-le [] = omega arith
  count_filled-le (none ∷ slots) = omega (arith, count_filled-le slots)
  count_filled-le (some v ∷ slots) = omega (arith, count_filled-le slots)

  pub length-filled : (slots : List (Option V)) → length (filled slots) ≡ count_filled slots
  unfolding filled
  length-filled [] = refl
  length-filled (none ∷ slots) = length-filled slots
  length-filled (some v ∷ slots) = ap suc (length-filled slots)
