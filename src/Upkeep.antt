-- ===== src/Upkeep.antt =====
-- The worker with the clean-up jobs that maintenance.py carries out: apps/worker/svs_worker/main.py
-- over packages/svs_common/svs_common, and with the purge that ingestion.py queues for the versions that a
-- document leaves behind. What ingestion does besides, and reindexing, are arguments; the clock and the
-- ids that are drawn may differ from one job to the next. The jobs that a handler queues join the queue of
-- the worker.
pub mod Paid
pub mod Ended
pub mod Examples
use exais_vector_store.Prelude.{ℕ, List, [], Option, ◌∷◌, none}
use exais_vector_store.Prelude.Result.{Result, ok, err}
use exais_vector_store.Prelude.Text.{Text, codes}
use exais_vector_store.Auth.Keys.Rows.{Principal}
use exais_vector_store.Worker.{Job, Handlers}
use exais_vector_store.IndexCleanup.{Indexes, Deleted, enqueue_purge_stale_vectors}
use exais_vector_store.Maintenance.{purge, sweep}
use exais_vector_store.VectorStores.Rows.{StoreTables}

-- the queue of the worker is elsewhere
abbrev pub without_jobs : StoreTables → StoreTables
without_jobs t = record t { jobs = [] }

abbrev pub take_jobs : StoreTables → StoreTables × List Job
take_jobs t = (without_jobs t, t.jobs)

abbrev pub after_purge :
    {E : Type 0} → Result E (Deleted × StoreTables) → Result E (StoreTables × List Job)
after_purge (ok (result, t)) = ok (take_jobs t)
after_purge (err problem) = err problem

-- the end of `ingest_now`: the purge for the versions that the new one supersedes
unfoldable pub enqueue_superseded : Text → ℕ → Principal → List Text → StoreTables → StoreTables
unfolding enqueue_purge_stale_vectors
enqueue_superseded job_id now p [] t = t
enqueue_superseded job_id now p (v ∷ versions) t =
    (enqueue_purge_stale_vectors job_id now p (v ∷ versions) none none
      (codes "document_version_superseded") t).1

unfoldable pub after_ingest :
    {E : Type 0}
    → Text
    → ℕ
    → Principal
    → Result E (List Text × StoreTables)
    → Result E (StoreTables × List Job)
unfolding enqueue_superseded
after_ingest job_id now p (ok (superseded, t)) =
    ok (take_jobs (enqueue_superseded job_id now p superseded t))
after_ingest job_id now p (err problem) = err problem

module _ {E : Type 0} (indexes : Indexes E) (clock : Job → ℕ) (job_id : Job → Text → Text) where
  abbrev pub sweep_handler : Principal → Job → StoreTables → Result E (StoreTables × List Job)
  sweep_handler p row t = ok (take_jobs (sweep (job_id row) (clock row) p (without_jobs t)).1)

  abbrev pub purge_handler : Principal → Job → StoreTables → Result E (StoreTables × List Job)
  purge_handler p row t = after_purge (purge indexes (clock row) p row.payload (without_jobs t))

  -- the argument is the rest of `ingest_now`, which tells the versions that are superseded
  abbrev pub ingest_handler :
      (Principal → Job → StoreTables → Result E (List Text × StoreTables))
      → Principal
      → Job
      → StoreTables
      → Result E (StoreTables × List Job)
  ingest_handler index_document p row t =
      after_ingest (job_id row []) (clock row) p (index_document p row (without_jobs t))

  abbrev pub upkeep_handlers :
      (Principal → Job → StoreTables → Result E (List Text × StoreTables))
      → (Principal → Job → StoreTables → Result E (StoreTables × List Job))
      → Handlers StoreTables E
  upkeep_handlers index_document reindex_chunks = record {
    ingest_now = ingest_handler index_document;
    reindex_chunks = reindex_chunks;
    sweep_expired_vector_stores = sweep_handler;
    purge_stale_vectors = purge_handler;
  }
