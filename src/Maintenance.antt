-- ===== src/Maintenance.antt =====
-- The jobs that clean up, maintenance.py in packages/svs_common/svs_common: the purge of stale index
-- entries and the sweep of expired vector stores. The ids that are drawn for new jobs are an argument.
use exais_vector_store.Prelude.{
  ℕ, Bool, true, false, not, ◌&&◌, ◌||◌, List, [], ◌∷◌, ◌++◌, Option, none, some, map, leb,
  if◌then◌else◌,
}
use exais_vector_store.Prelude.Result.{Result, ok, err, ◌>>=◌}
use exais_vector_store.Prelude.Text.{Text, codes, text_eq, contains, is_empty, filter_by}
use exais_vector_store.Auth.Keys.Rows.{Principal, opt_eq}
use exais_vector_store.Worker.{Payload}
use exais_vector_store.VectorStores.Rows.{
  StoreTables, VectorStore, StoreStatus, ChunkRow, IndexStatus, AuditEvent, Action, owns,
  purge_stale_vectors, expire_vector_stores, delete_queued, expired,
}
use exais_vector_store.IndexCleanup.{
  Indexes, Deleted, nothing_deleted, given_ids, enqueue_purge_stale_vectors,
}
use exais_vector_store.IndexCleanup.Deletes.{
  delete_by_document, delete_by_vector_store, delete_by_document_versions,
}

abbrev pub is_delete_queued : IndexStatus → Bool
is_delete_queued IndexStatus.pending = false
is_delete_queued IndexStatus.indexed = false
is_delete_queued IndexStatus.delete_queued = true
is_delete_queued IndexStatus.deleted = false

abbrev pub or_now : Option ℕ → ℕ → Option ℕ
or_now (some t) now = some t
or_now none now = some now

-- the UPDATE of `purge_stale_vectors`, of a row that its scope matches
unfoldable pub mark_deleted : ℕ → Principal → (ChunkRow → Bool) → ChunkRow → ChunkRow
mark_deleted now p in_scope c =
    if owns p c.tenant_id c.business_instance_id
      && in_scope c
      && not c.active
      && (is_delete_queued c.dense_index_status || is_delete_queued c.sparse_index_status)
    then record c {
      dense_index_status = IndexStatus.deleted;
      sparse_index_status = IndexStatus.deleted;
      deleted_at = or_now c.deleted_at now;
    }
    else c

abbrev pub event : Principal → Action → AuditEvent
event p action = record {
  tenant_id = p.tenant_id;
  business_instance_id = p.business_instance_id;
  user_id = p.user_id;
  api_key_id = p.api_key_id;
  action = action;
}

abbrev pub reason_or : Text → Text
reason_or reason = if is_empty reason then codes "stale_index_cleanup" else reason

module _ {E : Type 0} (indexes : Indexes E) where
  unfoldable pub purge_chunks :
      ℕ
      → Principal
      → (ChunkRow → Bool)
      → StoreTables
      → Result E Deleted
      → Result E (Deleted × StoreTables)
  unfolding mark_deleted
  purge_chunks now p in_scope t deletion = do
    result ← deletion
    ok (result, record t { chunks = map (mark_deleted now p in_scope) t.chunks })

  unfoldable pub purge_document :
      ℕ → Principal → Option Text → StoreTables → Result E (Deleted × StoreTables)
  unfolding delete_by_document purge_chunks
  purge_document now p none t = ok (nothing_deleted, t)
  purge_document now p (some []) t = ok (nothing_deleted, t)
  purge_document now p (some (x ∷ id)) t =
      purge_chunks now p (λ c. text_eq c.document_id (x ∷ id)) t
        (delete_by_document indexes p (x ∷ id) t)

  unfoldable pub purge_vector_store :
      ℕ → Principal → Option Text → Option Text → StoreTables → Result E (Deleted × StoreTables)
  unfolding delete_by_vector_store purge_chunks purge_document
  purge_vector_store now p none document_id t = purge_document now p document_id t
  purge_vector_store now p (some []) document_id t = purge_document now p document_id t
  purge_vector_store now p (some (x ∷ id)) document_id t =
      purge_chunks now p (λ c. opt_eq c.vector_store_id (some (x ∷ id))) t
        (delete_by_vector_store indexes p (x ∷ id) t)

  -- versions before a vector store before a document
  unfoldable pub purge_scope :
      ℕ
      → Principal
      → List Text
      → Option Text
      → Option Text
      → StoreTables
      → Result E (Deleted × StoreTables)
  unfolding delete_by_document_versions purge_chunks purge_vector_store
  purge_scope now p [] vector_store_id document_id t =
      purge_vector_store now p vector_store_id document_id t
  purge_scope now p (v ∷ versions) vector_store_id document_id t =
      purge_chunks now p (λ c. contains (v ∷ versions) c.document_version_id) t
        (delete_by_document_versions indexes p (v ∷ versions) t)

  -- the event of a purge that is done
  unfoldable pub record_purge :
      Principal → Payload → Result E (Deleted × StoreTables) → Result E (Deleted × StoreTables)
  record_purge p payload (err problem) = err problem
  record_purge p payload (ok (result, t)) = ok (
    result,
    record t {
      audit =
          t.audit
          ++ event p (
              purge_stale_vectors (reason_or payload.reason)
                (given_ids payload.document_version_ids) payload.document_id payload.vector_store_id
                result.dense_points_deleted result.sparse_docs_deleted)
            ∷ [];
    },
  )

  -- `purge_stale_vectors`: how much was deleted, and the tables with the event
  unfoldable pub purge : ℕ → Principal → Payload → StoreTables → Result E (Deleted × StoreTables)
  unfolding purge_scope record_purge
  purge now p payload t = record_purge p payload (
      purge_scope now p (given_ids payload.document_version_ids) payload.vector_store_id
        payload.document_id t)

abbrev pub is_sweepable : StoreStatus → Bool
is_sweepable StoreStatus.active = true
is_sweepable StoreStatus.completed = true
is_sweepable StoreStatus.expired = false
is_sweepable StoreStatus.deleted = false

-- `expires_at IS NOT NULL AND expires_at <= now()`
abbrev pub is_due : ℕ → Option ℕ → Bool
is_due now none = false
is_due now (some t) = leb t now

-- the WHERE of the sweep
abbrev pub is_expiring : ℕ → Principal → VectorStore → Bool
is_expiring now p s =
    owns p s.tenant_id s.business_instance_id && is_sweepable s.status && is_due now s.expires_at

unfoldable pub expire_store : ℕ → Principal → VectorStore → VectorStore
expire_store now p s = if is_expiring now p s then record s { status = expired } else s

abbrev pub in_ids : List Text → Option Text → Bool
in_ids ids none = false
in_ids ids (some id) = contains ids id

-- the chunks of the expired stores leave the search, and their index entries wait for deletion
unfoldable pub retire_chunk : ℕ → Principal → List Text → ChunkRow → ChunkRow
retire_chunk now p ids c =
    if owns p c.tenant_id c.business_instance_id && in_ids ids c.vector_store_id && c.active
    then record c {
      active = false;
      deleted_at = some now;
      dense_index_status = delete_queued;
      sparse_index_status = delete_queued;
    }
    else c

-- one job for each store; the jobs that were queued, with the tables
unfoldable pub enqueue_each :
    (Text → Text) → ℕ → Principal → List Text → StoreTables → List Text × StoreTables
unfolding enqueue_purge_stale_vectors
enqueue_each job_id now p [] t = ([], t)
enqueue_each job_id now p (vs_id ∷ ids) t =
    let (queued_job, t2) =
      enqueue_purge_stale_vectors (job_id vs_id) now p [] none (some vs_id)
        (codes "vector_store_expired") t in
    let (rest, t3) = enqueue_each job_id now p ids t2 in
    (elim queued_job [ some id ↦ id ∷ rest | none ↦ rest ], t3)

unfoldable pub retire_stores : (Text → Text) → ℕ → Principal → List Text → StoreTables → StoreTables
unfolding retire_chunk enqueue_each
retire_stores job_id now p [] t = t
retire_stores job_id now p (x ∷ ids) t =
    let retired : StoreTables = record t { chunks = map (retire_chunk now p (x ∷ ids)) t.chunks } in
    let (job_ids, t2) = enqueue_each job_id now p (x ∷ ids) retired in
    record t2 { audit = t2.audit ++ event p (expire_vector_stores (x ∷ ids) job_ids) ∷ [] }

abbrev pub expiring_ids : ℕ → Principal → List VectorStore → List Text
expiring_ids now p stores = map (λ s. s.id) (filter_by (is_expiring now p) stores)

-- `sweep_expired_vector_stores`: the ids of the stores that expired, and the tables
unfoldable pub sweep : (Text → Text) → ℕ → Principal → StoreTables → List Text × StoreTables
unfolding expire_store retire_stores
sweep job_id now p t =
    let ids = expiring_ids now p t.stores in
    (ids, retire_stores job_id now p ids record t { stores = map (expire_store now p) t.stores })
