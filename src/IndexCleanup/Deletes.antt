-- ===== src/IndexCleanup/Deletes.antt =====
-- The deletions of a cleanup, `_delete_rows` of index_cleanup.py and the three calls that select by a
-- document, a vector store or versions.
use exais_vector_store.Prelude.{List, [], ◌∷◌, ◌++◌, Option, none, some, map, ◌+◌, if◌then◌else◌}
use exais_vector_store.Prelude.Result.{Result, ok, ◌>>=◌}
use exais_vector_store.Prelude.Text.{Text}
use exais_vector_store.Auth.Keys.Rows.{Principal}
use exais_vector_store.VectorStores.Rows.{StoreTables}
use exais_vector_store.IndexCleanup.{
  Scope, points, documents, Indexes, Deleted, nothing_deleted, IndexRow, is_given, no_ids,
  given_ids, select_rows, by_collection,
}

abbrev pub base_scope : Principal → Scope
base_scope p = record {
  tenant_id = p.tenant_id;
  business_instance_id = p.business_instance_id;
  document_id = none;
  vector_store_id = none;
  document_version_id = none;
}

abbrev pub if_given : Option Text → Option Text
if_given o = if is_given o then o else none

-- one query for each version, or one for the document and the vector store that are given
abbrev pub scopes_of : Principal → Option Text → Option Text → List Text → List Scope
scopes_of p document_id vector_store_id document_version_ids =
    if no_ids document_version_ids
    then record (base_scope p) {
      document_id = if_given document_id;
      vector_store_id = if_given vector_store_id;
    }
      ∷ []
    else map (λ v. record (base_scope p) { document_version_id = some v }) document_version_ids

module _ {E : Type 0} (indexes : Indexes E) where
  unfoldable pub delete_groups : List (Text × List Text) → Deleted → Result E Deleted
  delete_groups [] d = ok d
  delete_groups ((collection, point_ids) ∷ groups) d = do
    n ← indexes.delete_points collection point_ids
    delete_groups groups record d {
      dense_points_deleted = d.dense_points_deleted + n;
      requests = d.requests ++ points collection point_ids ∷ [];
    }

  unfoldable pub delete_documents : List Scope → Deleted → Result E Deleted
  delete_documents [] d = ok d
  delete_documents (scope ∷ scopes) d = do
    n ← indexes.delete_by_query scope
    delete_documents scopes record d {
      sparse_docs_deleted = d.sparse_docs_deleted + n;
      requests = d.requests ++ documents scope ∷ [];
    }

  unfoldable pub delete_dense : List IndexRow → Result E Deleted
  unfolding delete_groups by_collection
  delete_dense rows =
      if indexes.uses_qdrant
      then delete_groups (by_collection rows []) nothing_deleted
      else ok nothing_deleted

  unfoldable pub delete_sparse : List Scope → Deleted → Result E Deleted
  unfolding delete_documents
  delete_sparse scopes dense =
      if indexes.uses_opensearch then delete_documents scopes dense else ok dense

  -- `_delete_rows`
  unfoldable pub delete_rows :
      List IndexRow → Principal → Option Text → Option Text → List Text → Result E Deleted
  unfolding delete_dense delete_sparse
  delete_rows rows p document_id vector_store_id document_version_ids = do
    dense ← delete_dense rows
    delete_sparse (scopes_of p document_id vector_store_id document_version_ids) dense

  -- the rows that are selected, deleted within the same bounds
  unfoldable pub delete_selected :
      Principal → Option Text → Option Text → List Text → StoreTables → Result E Deleted
  unfolding select_rows delete_rows
  delete_selected p document_id vector_store_id document_version_ids t =
      delete_rows (select_rows p document_id vector_store_id document_version_ids t) p document_id
        vector_store_id document_version_ids

  unfoldable pub delete_by_document : Principal → Text → StoreTables → Result E Deleted
  unfolding delete_selected
  delete_by_document p document_id t = delete_selected p (some document_id) none [] t

  unfoldable pub delete_by_vector_store : Principal → Text → StoreTables → Result E Deleted
  unfolding delete_selected
  delete_by_vector_store p vector_store_id t = delete_selected p none (some vector_store_id) [] t

  unfoldable pub delete_by_document_versions :
      Principal → List Text → StoreTables → Result E Deleted
  unfolding delete_selected
  delete_by_document_versions p document_version_ids t =
      let versions = given_ids document_version_ids in
      if no_ids versions then ok nothing_deleted else delete_selected p none none versions t
