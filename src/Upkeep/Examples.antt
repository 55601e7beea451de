-- ===== src/Upkeep/Examples.antt =====
-- A sweep that is queued expires a vector store, and an ingestion supersedes a version; the purges that
-- they queue are done too.
use Prim.Native.String.{String}
use exais_vector_store.IndexCleanup.Deletes.{delete_by_vector_store}
use exais_vector_store.IndexCleanup.{enqueue_purge_stale_vectors, purge_job}
use exais_vector_store.Maintenance.{
  sweep, retire_stores, enqueue_each, purge, purge_scope, purge_vector_store, purge_chunks,
  record_purge,
}
use exais_vector_store.Prelude.{ℕ, ◌≡◌, refl, List, [], ◌∷◌, none, All, arith, map, subst}
use exais_vector_store.Prelude.Result.{Result, err, ok, ok-inj}
use exais_vector_store.Prelude.Text.{Text, codes}
use exais_vector_store.Auth.Keys.Rows.{Principal}
use exais_vector_store.Worker.{
  Job, Tables, run_worker, queued, process_once, attempt, claim, choose, settle, perform,
}
use exais_vector_store.Worker.Ended.{IsEnded}
use exais_vector_store.VectorStores.Rows.{StoreTables}
use exais_vector_store.Lifecycle.Examples.{tables, indexes}
use exais_vector_store.Upkeep.{
  upkeep_handlers, sweep, without_jobs, after_ingest, enqueue_superseded,
}
use exais_vector_store.Upkeep.Ended.{upkeep-IsEnded, IsTame}

abbrev job : String → String → Job
job id job_type = record {
  id = codes id;
  tenant_id = codes "t";
  business_instance_id = codes "b";
  job_type = codes job_type;
  status = queued;
  priority = 100;
  created_at = 55;
  attempts = 0;
  max_attempts = 3;
  payload = record {
    file_batch_id = none;
    document_version_ids = [];
    document_id = none;
    vector_store_id = none;
    reason = [];
  };
  locked_by = none;
}

abbrev refuse : Principal → Job → StoreTables → Result Text (StoreTables × List Job)
refuse p row t = err (codes "refused")

-- an ingestion that supersedes the version `v1`
abbrev index_document : Principal → Job → StoreTables → Result Text (List Text × StoreTables)
index_document p row t = ok (codes "v1" ∷ [], t)

index_document-IsTame :
    (p : Principal) (row : Job) (t : StoreTables) (superseded : List Text) (t2 : StoreTables)
    → index_document p row (without_jobs t) ≡ ok (superseded, t2)
    → IsTame t t2
index_document-IsTame p row t superseded t2 is =
    subst (λ r. IsTame t r.1) (ok-inj is) (refl, omega arith)

abbrev clock : Job → ℕ
clock row = 60

abbrev job_id : Job → Text → Text
job_id row vs_id = codes "j"

abbrev queue : Tables StoreTables
queue = record {
  jobs = job "s" "expire_vector_stores" ∷ job "i" "document_ingest" ∷ [];
  batches = [];
  rest = tables;
}

abbrev after_four : Tables StoreTables
after_four =
    run_worker (upkeep_handlers indexes clock job_id index_document refuse) 4 (codes "w") 60 queue

four_rounds : map (λ j. j.attempts) after_four.jobs ≡ 1 ∷ 1 ∷ 1 ∷ 1 ∷ []
unfolding after_ingest enqueue_superseded run_worker process_once attempt claim choose settle
    perform sweep retire_stores enqueue_each enqueue_purge_stale_vectors purge_job purge purge_scope
    purge_vector_store purge_chunks record_purge delete_by_vector_store
four_rounds = refl

upkeep-IsEnded_example :
    All IsEnded
      (run_worker
        (upkeep_handlers indexes clock job_id index_document refuse)
        16
        (codes "w")
        60
        queue).jobs
upkeep-IsEnded_example =
    upkeep-IsEnded indexes clock job_id index_document refuse index_document-IsTame
      (λ p row t result is. cc) 16 (codes "w") 60 queue (refl, (refl, tt)) (omega arith)
