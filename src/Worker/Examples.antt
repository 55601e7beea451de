-- ===== src/Worker/Examples.antt =====
-- The worker on a queue of three jobs, two of them of one file batch.
use Prim.Native.String.{String}
use exais_vector_store.Prelude.{
  ◌*◌, subst, ℕ, ◌≡◌, refl, List, [], ◌∷◌, Option, none, some, arith, All, ◌+◌, ◌≤◌, suc, ◌*◌, zero,
}
use exais_vector_store.Prelude.Result.{ok-inj, Result, ok, err}
use exais_vector_store.Prelude.Text.{Text, codes}
use exais_vector_store.Worker.{
  Job, Tables, Handlers, FileBatch, perform, process_once, queued, unfinished, run_worker, claim,
  choose, attempt, settle,
}
use exais_vector_store.Worker.Dispatch.{perform-each}
use exais_vector_store.Worker.Claimed.{IsNext, claim-IsNext}
use exais_vector_store.Worker.Drained.{IsDrained, budget, run_worker-IsDrained}
use exais_vector_store.Worker.Batches.{AreCounted, process_once-AreCounted}
use exais_vector_store.Worker.Ended.{IsSettled, IsEnded, run_worker-IsEnded}

abbrev job : String → String → ℕ → Option Text → Job
job id job_type priority file_batch_id = record {
  id = codes id;
  tenant_id = codes "t";
  business_instance_id = codes "b";
  job_type = codes job_type;
  status = queued;
  priority = priority;
  created_at = 7;
  attempts = 0;
  max_attempts = 3;
  payload = record {
    file_batch_id = file_batch_id;
    document_version_ids = [];
    document_id = none;
    vector_store_id = none;
    reason = [];
  };
  locked_by = none;
}

-- the data is the number of stores whose time is over
abbrev sweep_one : ℕ → Result Text (ℕ × List Job)
sweep_one zero = ok (0, [])
sweep_one (suc d) = ok (d, job "p" "purge_stale_vectors" 75 none ∷ [])

-- ingestion fails, the other handlers succeed
abbrev handlers : Handlers ℕ Text
handlers = record {
  ingest_now = λ p row d. err (codes "unreadable");
  reindex_chunks = λ p row d. ok (d, []);
  sweep_expired_vector_stores = λ p row d. sweep_one d;
  purge_stale_vectors = λ p row d. ok (d, []);
}

abbrev batch : FileBatch
batch = record {
  id = codes "f";
  tenant_id = codes "t";
  business_instance_id = codes "b";
  in_progress = 2;
  completed_count = 0;
  failed_count = 0;
  cancelled_count = 0;
  status = unfinished;
  completed_at = none;
}

abbrev tables : Tables ℕ
tables = record {
  jobs =
      job "a" "document_ingest" 50 (some (codes "f"))
      ∷ job "s" "expire_vector_stores" 10 none
      ∷ job "c" "document_ingest" 50 (some (codes "f"))
      ∷ [];
  batches = batch ∷ [];
  rest = 2;
}

first_round : (process_once handlers (codes "w") 9 tables).1.rest ≡ 1
unfolding process_once claim choose attempt settle perform
first_round = refl

claim-IsNext_example : IsNext tables.jobs (claim tables.jobs)
claim-IsNext_example = claim-IsNext tables.jobs

-- no job has an allowance of its own
abbrev no_allowance : Text → ℕ
no_allowance job_type = 0

-- what the worker needs of a handler: jobs that the weight pays for, with attempts left, of no batch
abbrev IsFair : ℕ → ℕ × List Job → Type 0
IsFair d (d2, new) =
    (budget no_allowance new + 3 * d2 ≤ 3 * d + 0)
    × All IsSettled new
    × All (λ k. k.payload.file_batch_id ≡ none) new

idle-IsFair :
    (d : ℕ) (result : ℕ × List Job)
    → Path (Result Text (ℕ × List Job)) (ok (d, [])) (ok result)
    → IsFair d result
idle-IsFair d result is = subst (IsFair d) (ok-inj is) (omega arith, tt, tt)

sweep_one-IsFair : (d : ℕ) (result : ℕ × List Job) → sweep_one d ≡ ok result → IsFair d result
sweep_one-IsFair zero result is = subst (IsFair 0) (ok-inj is) (omega arith, tt, tt)
sweep_one-IsFair (suc d) result is =
    subst (IsFair (suc d)) (ok-inj is) (omega arith, (refl, tt), (refl, tt))

perform-IsFair :
    (row : Job) (d d2 : ℕ) (new : List Job)
    → perform handlers row d ≡ ok (d2, new)
    → IsFair d (d2, new)
perform-IsFair row d d2 new =
    perform-each handlers (λ row. IsFair) (λ p row d result same is. cc)
      (λ p row d result same. idle-IsFair d result)
      (λ p row d result same. sweep_one-IsFair d result)
      (λ p row d result same. idle-IsFair d result) row d (d2, new)

run_worker-IsDrained_example : IsDrained (run_worker handlers 20 (codes "w") 9 tables)
run_worker-IsDrained_example =
    run_worker-IsDrained handlers no_allowance (λ d. 3 * d)
      (λ row d d2 new is. (perform-IsFair row d d2 new is).0) 20 (codes "w") 9 tables (omega arith)

process_once-AreCounted_example : AreCounted (process_once handlers (codes "w") 9 tables).1
process_once-AreCounted_example =
    process_once-AreCounted handlers (λ row d d2 new is. (perform-IsFair row d d2 new is).2)
      (codes "w") 9 tables (refl, tt)

run_worker-IsEnded_example : All IsEnded (run_worker handlers 20 (codes "w") 9 tables).jobs
run_worker-IsEnded_example =
    run_worker-IsEnded handlers no_allowance (λ d. 3 * d)
      (λ row d d2 new is. (perform-IsFair row d d2 new is).0)
      (λ row d d2 new is. (perform-IsFair row d d2 new is).1) 20 (codes "w") 9 tables
      (refl, (refl, (refl, tt))) (omega arith)
