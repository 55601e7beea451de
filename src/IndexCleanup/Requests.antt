-- ===== src/IndexCleanup/Requests.antt =====
-- The requests of a cleanup are for what it selects.
use exais_vector_store.Prelude.Result.{ok, ok-inj, branch_ok, both_ok}
use exais_vector_store.IndexCleanup.Deletes.{
  delete_selected, delete_rows, delete_groups, delete_documents, scopes_of, delete_dense,
  delete_sparse,
}
use exais_vector_store.Prelude.{
  ◌≡◌, sym, subst, inl, inr, Bool, true, ◌||◌, List, [], ◌∷◌, Option, none, some, All, All-append,
  if◌then◌else◌, Bool-cases, refl, ◌+◌, ◌++◌,
}
use exais_vector_store.Prelude.Text.{Text, text_eq, text_eq_sound, is_empty}
use exais_vector_store.Auth.Keys.Rows.{Principal}
use exais_vector_store.VectorStores.Rows.{ChunkRow, EmbeddingRow, StoreTables}
use exais_vector_store.IndexCleanup.{
  Deletion, points, documents, IndexRow, add_point, add_row, StoreTables, is_empty, by_collection,
  Indexes, Scope, select_rows, Deleted, ok, is_selected, nothing_deleted,
}
use exais_vector_store.IndexCleanup.Points.{holds_point, IsWithin, HasPoint, join-HasPoint}

module _ (Held : Text → Text → Type 0) where
  -- the points of each group
  abbrev pub AreHeld : List (Text × List Text) → Type 0
  AreHeld groups = All (λ (collection, ids). All (Held collection) ids) groups

  add_point-AreHeld :
      (collection point : Text) (groups : List (Text × List Text))
      → Held collection point
      → AreHeld groups
      → AreHeld (add_point collection point groups)
  unfolding add_point
  add_point-AreHeld collection point [] held all = ((held, tt), tt)
  add_point-AreHeld collection point ((c, ids) ∷ groups) held (first, rest) =
      elim (Bool-cases (text_eq c collection)) [
        | inl same ↦
            rw (same, if◌then◌else◌)
              (
                All-append (Held c) ids (point ∷ []) first
                    (subst (λ k. Held k point) (sym (text_eq_sound c collection same)) held, tt),
                rest,
              )
        | inr other ↦
            rw (other, if◌then◌else◌) (first, add_point-AreHeld collection point groups held rest)
      ]

add_row-AreHeld :
    (Held : Text → Text → Type 0) (e : Option EmbeddingRow) (groups : List (Text × List Text))
    → ((row : EmbeddingRow) → e ≡ some row → Held row.vector_collection row.vector_point_id)
    → AreHeld Held groups
    → AreHeld Held (add_row e groups)
unfolding add_row
add_row-AreHeld Held none groups held all = all
add_row-AreHeld Held (some e) groups held all =
    elim (Bool-cases (is_empty e.vector_collection || is_empty e.vector_point_id)) [
      | inl blank ↦ rw (blank, if◌then◌else◌) all
      | inr given ↦
          rw (given, if◌then◌else◌)
            (add_point-AreHeld Held e.vector_collection e.vector_point_id groups (held e refl) all)
    ]

module _ (MayAsk : Scope → Type 0) (test : ChunkRow → Bool) (t : StoreTables) where
  abbrev Held : Text → Text → Type 0
  Held collection point = holds_point test t.chunks t.embeddings collection point ≡ true

  abbrev AreWithin : List Deletion → Type 0
  AreWithin requests = All (IsWithin MayAsk test t.chunks t.embeddings) requests

  row-Held :
      (e : Option EmbeddingRow) (row : EmbeddingRow)
      → HasPoint test t.chunks t.embeddings e
      → e ≡ some row
      → Held row.vector_collection row.vector_point_id
  row-Held e row has same = subst (HasPoint test t.chunks t.embeddings) same has

  by_collection-AreHeld :
      (rows : List IndexRow) (groups : List (Text × List Text))
      → All (λ r. HasPoint test t.chunks t.embeddings r.embedding) rows
      → AreHeld Held groups
      → AreHeld Held (by_collection rows groups)
  unfolding by_collection
  by_collection-AreHeld [] groups held all = all
  by_collection-AreHeld (r ∷ rows) groups (first, rest) all =
      by_collection-AreHeld rows (add_row r.embedding groups) rest
        (add_row-AreHeld Held r.embedding groups (λ row. row-Held r.embedding row first) all)

  module _ {E : Type 0} (indexes : Indexes E) where
    delete_groups-AreWithin :
        (groups : List (Text × List Text)) (d result : Deleted)
        → AreHeld Held groups
        → AreWithin d.requests
        → delete_groups indexes groups d ≡ ok result
        → AreWithin result.requests
    unfolding delete_groups
    delete_groups-AreWithin [] d result held within is =
        subst (λ (r : Deleted). AreWithin r.requests) (ok-inj is) within
    delete_groups-AreWithin ((collection, ids) ∷ groups) d result (first, rest) within is =
        let (n, _, later) =
          both_ok
            (λ n. delete_groups indexes groups record d {
              dense_points_deleted = d.dense_points_deleted + n;
              requests = d.requests ++ points collection ids ∷ [];
            })
            (indexes.delete_points collection ids) is in
        delete_groups-AreWithin groups
          record d {
            dense_points_deleted = d.dense_points_deleted + n;
            requests = d.requests ++ points collection ids ∷ [];
          }
          result rest
          (All-append (IsWithin MayAsk test t.chunks t.embeddings) d.requests
            (points collection ids ∷ []) within (first, tt))
          later

    delete_documents-AreWithin :
        (scopes : List Scope) (d result : Deleted)
        → All MayAsk scopes
        → AreWithin d.requests
        → delete_documents indexes scopes d ≡ ok result
        → AreWithin result.requests
    unfolding delete_documents
    delete_documents-AreWithin [] d result own within is =
        subst (λ (r : Deleted). AreWithin r.requests) (ok-inj is) within
    delete_documents-AreWithin (scope ∷ scopes) d result (first, rest) within is =
        let (n, _, later) =
          both_ok
            (λ n. delete_documents indexes scopes record d {
              sparse_docs_deleted = d.sparse_docs_deleted + n;
              requests = d.requests ++ documents scope ∷ [];
            })
            (indexes.delete_by_query scope) is in
        delete_documents-AreWithin scopes
          record d {
            sparse_docs_deleted = d.sparse_docs_deleted + n;
            requests = d.requests ++ documents scope ∷ [];
          }
          result rest
          (All-append (IsWithin MayAsk test t.chunks t.embeddings) d.requests (documents scope ∷ [])
            within (first, tt))
          later

    delete_dense-AreWithin :
        (rows : List IndexRow) (result : Deleted)
        → All (λ r. HasPoint test t.chunks t.embeddings r.embedding) rows
        → delete_dense indexes rows ≡ ok result
        → AreWithin result.requests
    unfolding delete_dense
    delete_dense-AreWithin rows result held is = elim (branch_ok indexes.uses_qdrant _ _ is) [
      | inl (_, done) ↦
          delete_groups-AreWithin (by_collection rows []) nothing_deleted result
            (by_collection-AreHeld rows [] held tt) tt done
      | inr (_, done) ↦ subst (λ (r : Deleted). AreWithin r.requests) (ok-inj done) tt
    ]

    delete_sparse-AreWithin :
        (scopes : List Scope) (d result : Deleted)
        → All MayAsk scopes
        → AreWithin d.requests
        → delete_sparse indexes scopes d ≡ ok result
        → AreWithin result.requests
    unfolding delete_sparse
    delete_sparse-AreWithin scopes d result own within is =
        elim (branch_ok indexes.uses_opensearch _ _ is) [
          | inl (_, done) ↦ delete_documents-AreWithin scopes d result own within done
          | inr (_, done) ↦ subst (λ (r : Deleted). AreWithin r.requests) (ok-inj done) within
        ]

pub delete_selected-IsChosen :
    {E : Type 0} (indexes : Indexes E) (MayAsk : Scope → Type 0) (p : Principal)
    (document_id vector_store_id : Option Text) (versions : List Text) (t : StoreTables)
    (result : Deleted)
    → All MayAsk (scopes_of p document_id vector_store_id versions)
    → delete_selected indexes p document_id vector_store_id versions t ≡ ok result
    → All
        (IsWithin MayAsk (is_selected p document_id vector_store_id versions) t.chunks t.embeddings)
        result.requests
unfolding delete_selected delete_rows select_rows
delete_selected-IsChosen indexes MayAsk p document_id vector_store_id versions t result may is =
    let test : ChunkRow → Bool = is_selected p document_id vector_store_id versions in
    let rows : List IndexRow = select_rows p document_id vector_store_id versions t in
    let (dense, first, second) =
      both_ok
        (λ dense. delete_sparse indexes (scopes_of p document_id vector_store_id versions) dense)
        (delete_dense indexes rows) is in
    delete_sparse-AreWithin MayAsk test t indexes (scopes_of p document_id vector_store_id versions)
      dense result may
      (delete_dense-AreWithin MayAsk test t indexes rows dense
        (join-HasPoint test t.chunks t.embeddings) first)
      second
