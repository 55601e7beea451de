-- ===== src/IndexCleanup.antt =====
-- The removal of stale entries from the search indexes, index_cleanup.py in
-- packages/svs_common/svs_common: the job that is queued for it, and the deletions that the job asks
-- Qdrant and OpenSearch for. The two services are arguments, which answer with a count or fail; the
-- deletions that were asked for are collected.
pub mod Deletes
pub mod Points
pub mod Requests
pub mod Scoped
pub mod Examples
use exais_vector_store.Prelude.{
  ℕ, Bool, true, false, not, ◌&&◌, ◌||◌, List, [], ◌∷◌, ◌++◌, Option, none, some, map, ◌+◌,
  if◌then◌else◌,
}
use exais_vector_store.Prelude.Result.{Result, ok, err, ◌>>=◌}
use exais_vector_store.Prelude.Text.{Text, codes, text_eq, contains, is_empty, filter_by}
use exais_vector_store.Auth.Keys.Rows.{Principal}
use exais_vector_store.Worker.{Job, queued}
use exais_vector_store.VectorStores.Rows.{StoreTables, ChunkRow, EmbeddingRow, owns}

-- `if t`, of an optional text
abbrev pub is_given : Option Text → Bool
is_given none = false
is_given (some []) = false
is_given (some (x ∷ t)) = true

-- the instance of a caller, which every caller has (schemas.py); the field is optional here since the
-- keys' column is
abbrev pub instance_of : Principal → Text
instance_of p = elim p.business_instance_id [ some t ↦ t | none ↦ [] ]

unfoldable pub purge_job : Text → ℕ → Principal → List Text → Option Text → Option Text → Text → Job
purge_job job_id now p document_version_ids document_id vector_store_id reason = record {
  id = job_id;
  tenant_id = p.tenant_id;
  business_instance_id = instance_of p;
  job_type = codes "purge_stale_vectors";
  status = queued;
  priority = 75;
  created_at = now;
  attempts = 0;
  max_attempts = 5;
  payload = record {
    file_batch_id = none;
    document_version_ids = document_version_ids;
    document_id = document_id;
    vector_store_id = vector_store_id;
    reason = reason;
  };
  locked_by = none;
}

abbrev pub given_ids : List Text → List Text
given_ids ids = filter_by (λ v. not (is_empty v)) ids

abbrev pub no_ids : List Text → Bool
no_ids [] = true
no_ids (x ∷ ids) = false

-- `enqueue_purge_stale_vectors`, with the id that is drawn for the job
unfoldable pub enqueue_purge_stale_vectors :
    Text
    → ℕ
    → Principal
    → List Text
    → Option Text
    → Option Text
    → Text
    → StoreTables
    → Option Text × StoreTables
unfolding purge_job
enqueue_purge_stale_vectors job_id now p document_version_ids document_id vector_store_id reason t =
    let versions = given_ids document_version_ids in
    if no_ids versions && not (is_given document_id) && not (is_given vector_store_id)
    then (none, t)
    else (
      some job_id,
      record t {
        jobs = t.jobs ++ purge_job job_id now p versions document_id vector_store_id reason ∷ [];
      },
    )

-- what a deletion by query in OpenSearch matches
pub record Scope : Type 0 where
  pub tenant_id : Text
  pub business_instance_id : Option Text
  pub document_id : Option Text
  pub vector_store_id : Option Text
  pub document_version_id : Option Text

pub data Deletion : Type 0 where
  -- points of a collection of Qdrant
  points : Text → List Text → Deletion
  -- documents of an index of OpenSearch
  documents : Scope → Deletion

pub record Indexes (E : Type 0) : Type 0 where
  pub uses_qdrant : Bool
  pub uses_opensearch : Bool
  pub delete_points : Text → List Text → Result E ℕ
  pub delete_by_query : Scope → Result E ℕ

-- what was deleted, and the deletions that were asked for, in order
pub record Deleted : Type 0 where
  pub dense_points_deleted : ℕ
  pub sparse_docs_deleted : ℕ
  pub requests : List Deletion

abbrev pub nothing_deleted : Deleted
nothing_deleted = record { dense_points_deleted = 0; sparse_docs_deleted = 0; requests = [] }

-- a row of the join of chunks and embeddings
pub record IndexRow : Type 0 where
  pub chunk : ChunkRow
  pub embedding : Option EmbeddingRow

abbrev pub embeddings_of : ChunkRow → List EmbeddingRow → List EmbeddingRow
embeddings_of c embeddings = filter_by (λ e. text_eq e.chunk_id c.id) embeddings

-- `chunks c LEFT JOIN embeddings e ON e.chunk_id=c.id`, of one chunk
abbrev pub joined : ChunkRow → List EmbeddingRow → List IndexRow
joined c [] = record { chunk = c; embedding = none } ∷ []
joined c (e ∷ embeddings) = map (λ e. record { chunk = c; embedding = some e }) (e ∷ embeddings)

unfoldable pub join : List ChunkRow → List EmbeddingRow → List IndexRow
join [] embeddings = []
join (c ∷ chunks) embeddings = joined c (embeddings_of c embeddings) ++ join chunks embeddings

-- a clause that is there only when its value is given
abbrev pub matches : Option Text → Text → Bool
matches none t = true
matches (some []) t = true
matches (some (x ∷ s)) t = text_eq t (x ∷ s)

abbrev pub matches_opt : Option Text → Option Text → Bool
matches_opt given (some t) = matches given t
matches_opt given none = not (is_given given)

-- the WHERE of `_select_rows`
unfoldable pub is_selected : Principal → Option Text → Option Text → List Text → ChunkRow → Bool
is_selected p document_id vector_store_id document_version_ids c =
    owns p c.tenant_id c.business_instance_id
    && matches document_id c.document_id
    && matches_opt vector_store_id c.vector_store_id
    && (no_ids document_version_ids || contains document_version_ids c.document_version_id)

-- `_select_rows`
unfoldable pub select_rows :
    Principal → Option Text → Option Text → List Text → StoreTables → List IndexRow
unfolding is_selected join
select_rows p document_id vector_store_id document_version_ids t =
    join (filter_by (is_selected p document_id vector_store_id document_version_ids) t.chunks)
      t.embeddings

-- `by_collection[collection].append(point_id)`
unfoldable pub add_point : Text → Text → List (Text × List Text) → List (Text × List Text)
add_point collection point [] = (collection, point ∷ []) ∷ []
add_point collection point ((c, ids) ∷ groups) =
    let rest = add_point collection point groups in
    if text_eq c collection then (c, ids ++ point ∷ []) ∷ groups else (c, ids) ∷ rest

-- the rows that have a point, grouped by their collection
unfoldable pub add_row : Option EmbeddingRow → List (Text × List Text) → List (Text × List Text)
unfolding add_point
add_row none groups = groups
add_row (some e) groups =
    if is_empty e.vector_collection || is_empty e.vector_point_id
    then groups
    else add_point e.vector_collection e.vector_point_id groups

unfoldable pub by_collection : List IndexRow → List (Text × List Text) → List (Text × List Text)
unfolding add_row
by_collection [] groups = groups
by_collection (r ∷ rows) groups = by_collection rows (add_row r.embedding groups)
