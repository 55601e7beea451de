-- ===== src/VectorStores/Pages.antt =====
-- What a page of vector stores holds, described without the query.
use exais_vector_store.VectorStores.Rendered.{vector_store_response_from_row}
use exais_vector_store.Prelude.Text.{text_eq, filter_by, lower_ascii, codes}
use exais_vector_store.Prelude.{
  ℕ, Bool, Option, List, ltb, true, ◌≡◌, some, take, ap, false, ◌&&◌, ◌||◌, none, ◌==◌, not, arith,
  ◌∷◌, map, if◌then◌else◌, ◌++◌, ◌+◌, suc, refl, length, [], zero, min, take-append-drop,
  length-take, drop, subst, sym, length-map, length-drop, ◌≤◌,
}
use exais_vector_store.Auth.Keys.Rows.{Principal, opt_eq, first_row}
use exais_vector_store.Prelude.Int.{ℤ, negsuc, pos}
use mathlib.Core.List.{Perm}
use exais_vector_store.VectorStores.{is_deleted, Text, Response}
use exais_vector_store.VectorStores.Rows.{VectorStore, StoreTables}
use exais_vector_store.VectorStores.Listing.{
  list, page, is_ascending, page_limit, stands_before, is_listed, cursor_row, order_by,
}
use exais_vector_store.VectorStores.Ordered.{
  IsOrdered, order_by-Perm, length-order_by, order_by-IsOrdered,
}

-- at most what is asked for, but one at least and a hundred at most
abbrev pub shown_at_most : ℤ → ℕ
shown_at_most (negsuc n) = 1
shown_at_most (pos n) = if n == 0 then 1 else if ltb 100 n then 100 else n

abbrev is_mine : Principal → VectorStore → Bool
is_mine p s =
    text_eq s.tenant_id p.tenant_id && opt_eq (some s.business_instance_id) p.business_instance_id

-- the row of the caller that a cursor names
abbrev pub boundary : Principal → Option Text → List VectorStore → Option VectorStore
boundary p none stores = none
boundary p (some []) stores = none
boundary p (some (x ∷ id)) stores = first_row (λ s. text_eq s.id (x ∷ id) && is_mine p s) stores

module _ (id_lt : Text → Text → Bool) where
  -- whether the row `a` may be shown before the row `b`: by its age, then by its id
  abbrev pub may_stand_before : Bool → VectorStore → VectorStore → Bool
  may_stand_before true a b =
      ltb a.created_at b.created_at || ((a.created_at == b.created_at) && not (id_lt b.id a.id))
  may_stand_before false a b =
      ltb b.created_at a.created_at || ((b.created_at == a.created_at) && not (id_lt a.id b.id))

  -- strictly beyond a row, in the direction of the page; no row, no bound
  abbrev pub is_past : Bool → Option VectorStore → VectorStore → Bool
  is_past oldest_first none s = true
  is_past true (some c) s =
      ltb c.created_at s.created_at || ((c.created_at == s.created_at) && id_lt c.id s.id)
  is_past false (some c) s =
      ltb s.created_at c.created_at || ((s.created_at == c.created_at) && id_lt s.id c.id)

  abbrev pub is_short_of : Bool → Option VectorStore → VectorStore → Bool
  is_short_of oldest_first none s = true
  is_short_of true (some c) s =
      ltb s.created_at c.created_at || ((s.created_at == c.created_at) && id_lt s.id c.id)
  is_short_of false (some c) s =
      ltb c.created_at s.created_at || ((c.created_at == s.created_at) && id_lt c.id s.id)

  -- the rows that a caller may page through: his own that are not deleted, between the cursors
  abbrev pub wanted :
      Bool → Principal → Option Text → Option Text → List VectorStore → List VectorStore
  wanted oldest_first p after before stores =
      filter_by
        (λ s.
          is_mine p s
          && not (is_deleted s.status)
          && is_past oldest_first (boundary p after stores) s
          && is_short_of oldest_first (boundary p before stores) s)
        stores

  -- a page and whether more follow: the wanted rows in order are those shown, which are as many as may
  -- be, and those left, of which there are some exactly when more are told of
  pub record IsPage (oldest_first : Bool) (p : Principal) (limit : ℤ) (after before : Option Text)
      (t : StoreTables) (answer : List Response × Bool) : Type 0 where
    pub shown : List VectorStore
    pub left : List VectorStore
    pub same_rows : Perm (shown ++ left) (wanted oldest_first p after before t.stores)
    pub ordered : IsOrdered (λ a b. may_stand_before oldest_first a b ≡ true) (shown ++ left)
    pub rendered : answer.0 ≡ map (vector_store_response_from_row t.files) shown
    pub counted :
        length answer.0
        ≡ min (shown_at_most limit) (length (wanted oldest_first p after before t.stores))
    pub more : answer.1 ≡ ltb 0 (length left)

  take-take : {A : Type 0} (n m : ℕ) (xs : List A) → n ≤ m → take n (take m xs) ≡ take n xs
  take-take zero m xs h = refl
  take-take (suc n) zero xs h = absurd (omega (arith, h))
  take-take (suc n) (suc m) [] h = refl
  take-take (suc n) (suc m) (x ∷ xs) h = ap (◌∷◌ x) (take-take n m xs (omega (arith, h)))

  page_limit-shown_at_most : (limit : ℤ) → page_limit limit ≡ shown_at_most limit
  page_limit-shown_at_most (pos n) = ground arith
  page_limit-shown_at_most (negsuc n) = omega arith

  is_listed-wanted :
      (oldest_first : Bool) (p : Principal) (after before : Option VectorStore) (s : VectorStore)
      → is_listed id_lt oldest_first p after before s
        ≡ is_mine p s
          && not (is_deleted s.status)
          && is_past oldest_first after s
          && is_short_of oldest_first before s
  is_listed-wanted true p none none s = refl
  is_listed-wanted true p none (some b) s = refl
  is_listed-wanted true p (some a) none s = refl
  is_listed-wanted true p (some a) (some b) s = refl
  is_listed-wanted false p none none s = refl
  is_listed-wanted false p none (some b) s = refl
  is_listed-wanted false p (some a) none s = refl
  is_listed-wanted false p (some a) (some b) s = refl

  cursor_row-boundary :
      (p : Principal) (id : Option Text) (t : StoreTables)
      → cursor_row p id t ≡ boundary p id t.stores
  cursor_row-boundary p none t = refl
  cursor_row-boundary p (some []) t = refl
  cursor_row-boundary p (some (x ∷ id)) t = refl

  wanted-list :
      (oldest_first : Bool) (p : Principal) (after before : Option Text) (t : StoreTables)
      → filter_by
          (is_listed id_lt oldest_first p (cursor_row p after t) (cursor_row p before t))
          t.stores
        ≡ wanted oldest_first p after before t.stores
  wanted-list oldest_first p after before t =
      rw (cursor_row-boundary p after t, cursor_row-boundary p before t)
        (λ i.
          filter_by
            (λ s.
              is_listed-wanted oldest_first p (boundary p after t.stores)
                (boundary p before t.stores) s i)
            t.stores)

  before_in_order :
      ((x y : Text) → id_lt x y ≡ true → id_lt y x ≡ false)
      → (oldest_first : Bool) (a b : VectorStore) → stands_before id_lt oldest_first a b ≡ true
      → may_stand_before oldest_first a b ≡ true
  before_in_order asym true a b first = ground (arith, first, asym a.id b.id)
  before_in_order asym false a b first = ground (arith, first, asym b.id a.id)

  after_in_order :
      (oldest_first : Bool) (a b : VectorStore)
      → stands_before id_lt oldest_first a b ≡ false
      → may_stand_before oldest_first b a ≡ true
  after_in_order true a b last = ground (arith, last)
  after_in_order false a b last = ground (arith, last)

  -- A page of vector stores is the first part of the rows that the caller may page through: his own
  -- that are not deleted, strictly beyond the row that `after` names and short of the one that `before`
  -- names, put in the order of their age and then of their id, the oldest first only for `asc`. As many
  -- are shown as there are and the limit allows, which counts as one where it is less and as a hundred
  -- where it is more, and more are told of exactly when some are left. The order of ids that the
  -- database has is asymmetric.
  pub list-IsPage :
      ((x y : Text) → id_lt x y ≡ true → id_lt y x ≡ false)
      → (p : Principal) (limit : ℤ) (after before : Option Text) (order : Text) (t : StoreTables)
      → IsPage
          (text_eq (map lower_ascii order) (codes "asc"))
          p
          limit
          after
          before
          t
          (list id_lt p limit after before order t)
  unfolding list page
  list-IsPage asym p limit after before order t =
      let oldest_first : Bool = is_ascending order in
      let rows : List VectorStore =
        filter_by (is_listed id_lt oldest_first p (cursor_row p after t) (cursor_row p before t))
          t.stores in
      let precedes : VectorStore → VectorStore → Bool = stands_before id_lt oldest_first in
      let sorted : List VectorStore = order_by precedes rows in
      let n : ℕ = page_limit limit in
      let whole = take-append-drop n sorted in
      let same = wanted-list oldest_first p after before t in
      let counted = length-order_by precedes rows in
      let one_more = length-take (n + 1) sorted in
      record {
        shown = take n sorted;
        left = drop n sorted;
        same_rows =
            subst (λ xs. Perm xs (wanted oldest_first p after before t.stores)) (sym whole)
              (subst (Perm sorted) same (order_by-Perm precedes rows));
        ordered = subst (IsOrdered (λ a b. may_stand_before oldest_first a b ≡ true)) (sym whole) (
            order_by-IsOrdered (λ a b. may_stand_before oldest_first a b ≡ true) precedes
              (before_in_order asym oldest_first) (after_in_order oldest_first) rows);
        rendered =
            ap (map (vector_store_response_from_row t.files))
              (take-take n (n + 1) sorted (omega arith));
        counted = omega (
          arith,
          counted,
          one_more,
          ap length same,
          page_limit-shown_at_most limit,
          length-take n (take (n + 1) sorted),
          length-map (vector_store_response_from_row t.files) (take n (take (n + 1) sorted)),
        );
        more = ground (arith, one_more, length-drop n sorted);
      }
