-- ===== src/VectorStores/Listing.antt =====
-- `list` of VectorStoreRepository, vector_store_repo.py: a page of the stores of the caller, between
-- two cursors. The order of ids is that of the database's collation, an argument.
use exais_vector_store.Prelude.{
  ℕ, Bool, true, false, not, ◌&&◌, ◌||◌, List, [], ◌∷◌, Option, none, some, map, ◌+◌, ◌==◌, ltb,
  min, max, if◌then◌else◌, take, length,
}
use exais_vector_store.Prelude.Int.{ℤ, pos_part}
use exais_vector_store.Prelude.Text.{Text, codes, text_eq, filter_by, lower_ascii}
use exais_vector_store.Auth.Keys.Rows.{Principal, first_row}
use exais_vector_store.VectorStores.Rows.{StoreTables, VectorStore, owns, is_store}
use exais_vector_store.VectorStores.Rendered.{Response, vector_store_response_from_row}
use exais_vector_store.VectorStores.{is_deleted}

-- whether `a` stands before `b` when the oldest is first
abbrev pub is_older : (Text → Text → Bool) → VectorStore → VectorStore → Bool
is_older id_lt a b =
    ltb a.created_at b.created_at || ((a.created_at == b.created_at) && id_lt a.id b.id)

-- `order` as the query reads it: the oldest first only for `asc`
abbrev pub is_ascending : Text → Bool
is_ascending order = text_eq (map lower_ascii order) (codes "asc")

-- whether `a` stands before `b` in the order of the page
abbrev pub stands_before : (Text → Text → Bool) → Bool → VectorStore → VectorStore → Bool
stands_before id_lt true a b = is_older id_lt a b
stands_before id_lt false a b = is_older id_lt b a

abbrev pub cursor_row : Principal → Option Text → StoreTables → Option VectorStore
cursor_row p none t = none
cursor_row p (some []) t = none
cursor_row p (some (x ∷ id)) t = first_row (is_store p (x ∷ id)) t.stores

-- a cursor that is missing, or that names no row, leaves its clause out
abbrev pub is_after : (Text → Text → Bool) → Bool → Option VectorStore → VectorStore → Bool
is_after id_lt ascending none s = true
is_after id_lt ascending (some cursor) s = stands_before id_lt ascending cursor s

abbrev pub is_before : (Text → Text → Bool) → Bool → Option VectorStore → VectorStore → Bool
is_before id_lt ascending none s = true
is_before id_lt ascending (some cursor) s = stands_before id_lt ascending s cursor

unfoldable pub insert_store :
    (VectorStore → VectorStore → Bool) → VectorStore → List VectorStore → List VectorStore
insert_store precedes s [] = s ∷ []
insert_store precedes s (r ∷ rows) =
    let rest = insert_store precedes s rows in if precedes s r then s ∷ (r ∷ rows) else r ∷ rest

-- `ORDER BY`
unfoldable pub order_by : (VectorStore → VectorStore → Bool) → List VectorStore → List VectorStore
unfolding insert_store
order_by precedes [] = []
order_by precedes (s ∷ rows) = insert_store precedes s (order_by precedes rows)

-- the WHERE of the query
abbrev pub is_listed :
    (Text → Text → Bool)
    → Bool
    → Principal
    → Option VectorStore
    → Option VectorStore
    → VectorStore
    → Bool
is_listed id_lt ascending p after before s =
    owns p s.tenant_id s.business_instance_id
    && not (is_deleted s.status)
    && is_after id_lt ascending after s
    && is_before id_lt ascending before s

abbrev pub page_limit : ℤ → ℕ
page_limit limit = min (max (pos_part limit) 1) 100

unfoldable pub page : ℕ → StoreTables → List VectorStore → List Response × Bool
unfolding vector_store_response_from_row
page limit t rows =
    (map (vector_store_response_from_row t.files) (take limit rows), ltb limit (length rows))

-- `list`: the page, and whether there is more
unfoldable pub list :
    (Text → Text → Bool)
    → Principal
    → ℤ
    → Option Text
    → Option Text
    → Text
    → StoreTables
    → List Response × Bool
unfolding order_by page
list id_lt p limit after before order t =
    let ascending = is_ascending order in
    page (page_limit limit) t (
      take (page_limit limit + 1) (
        order_by (stands_before id_lt ascending) (
          filter_by (is_listed id_lt ascending p (cursor_row p after t) (cursor_row p before t))
            t.stores)))
