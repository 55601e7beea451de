-- ===== src/IndexCleanup/Examples.antt =====
-- A cleanup of the chunks of one vector store.
use exais_vector_store.Prelude.{◌≡◌, refl, [], ◌∷◌, none, some, All}
use exais_vector_store.Prelude.Result.{ok}
use exais_vector_store.Prelude.Text.{codes}
use exais_vector_store.IndexCleanup.{
  Deleted, points, documents, is_selected, select_rows, by_collection, add_row, add_point, join,
}
use exais_vector_store.IndexCleanup.Deletes.{
  delete_selected, base_scope, delete_rows, delete_dense, delete_sparse, delete_groups,
  delete_documents,
}
use exais_vector_store.IndexCleanup.Points.{IsWithin}
use exais_vector_store.IndexCleanup.Scoped.{MayAsk, is_in_scope, delete_selected-IsWithin}
use exais_vector_store.Lifecycle.Examples.{caller, tables, indexes}

abbrev result : Deleted
result = record {
  dense_points_deleted = 1;
  sparse_docs_deleted = 1;
  requests =
      points (codes "col") (codes "pt" ∷ [])
      ∷ documents record (base_scope caller) { vector_store_id = some (codes "vs") }
      ∷ [];
}

deleted : delete_selected indexes caller none (some (codes "vs")) [] tables ≡ ok result
unfolding delete_selected delete_rows delete_dense delete_sparse delete_groups delete_documents
    by_collection add_row add_point select_rows is_selected join
deleted = refl

delete_selected-IsWithin_example :
    All
      (IsWithin
        (MayAsk caller none (some (codes "vs")) [])
        (is_in_scope caller none (some (codes "vs")) [])
        tables.chunks
        tables.embeddings)
      result.requests
delete_selected-IsWithin_example =
    delete_selected-IsWithin indexes caller none (some (codes "vs")) [] tables result deleted
