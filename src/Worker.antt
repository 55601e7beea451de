-- ===== src/Worker.antt =====
-- The worker that takes jobs from the queue, apps/worker/svs_worker/main.py. An id is a primary key:
-- an update by the id of a claimed row changes the row where it was found. The handlers of the jobs
-- are an argument: each returns the rest of the data and the jobs that it queued.
pub mod Claimed
pub mod Dispatch
pub mod Drained
pub mod Counts
pub mod Batches
pub mod Ended
pub mod Examples
use exais_vector_store.Prelude.{
  ℕ, Bool, true, false, not, ◌&&◌, ◌||◌, List, [], ◌∷◌, ◌++◌, map, Option, none, some, ◌+◌, ◌-◌,
  ltb, leb, ◌==◌, if◌then◌else◌, suc, zero,
}
use exais_vector_store.Prelude.Result.{Result, ok, err}
use exais_vector_store.Prelude.Text.{Text, codes, text_eq}
use exais_vector_store.Auth.Keys.Rows.{Principal}

pub data JobStatus : Type 0 where
  queued running completed failed cancelled : JobStatus

-- what the jobs here carry: the batch of an ingestion, and what a purge is to remove
pub record Payload : Type 0 where
  pub file_batch_id : Option Text
  pub document_version_ids : List Text
  pub document_id : Option Text
  pub vector_store_id : Option Text
  pub reason : Text

pub record Job : Type 0 where
  pub id : Text
  pub tenant_id : Text
  pub business_instance_id : Text
  pub job_type : Text
  pub status : JobStatus
  pub priority : ℕ
  pub created_at : ℕ
  pub attempts : ℕ
  pub max_attempts : ℕ
  pub payload : Payload
  pub locked_by : Option Text

-- the status of a file batch: unfinished, that of the job that ended last, or cancelled
pub data BatchStatus : Type 0 where
  unfinished : BatchStatus
  final : JobStatus → BatchStatus

-- a row of file_batches; a count that is missing is 0
pub record FileBatch : Type 0 where
  pub id : Text
  pub tenant_id : Text
  pub business_instance_id : Text
  pub in_progress : ℕ
  pub completed_count : ℕ
  pub failed_count : ℕ
  pub cancelled_count : ℕ
  pub status : BatchStatus
  pub completed_at : Option ℕ

-- the tables of the queue, and all that the handlers change
pub record Tables (D : Type 0) : Type 0 where
  pub jobs : List Job
  pub batches : List FileBatch
  pub rest : D

-- `_system_principal`
unfoldable pub system_principal : Job → Principal
system_principal row = record {
  tenant_id = row.tenant_id;
  business_instance_id = some row.business_instance_id;
  user_id = none;
  api_key_id = none;
  roles = codes "system" ∷ [];
  groups = [];
  max_security_level = 5;
  scopes = codes "system" ∷ codes "*" ∷ [];
  external_id = none;
}

pub data JobError (E : Type 0) : Type 0 where
  unsupported : Text → JobError E
  raised : E → JobError E

abbrev pub as_job_error : {E D : Type 0} → Result E D → Result (JobError E) D
as_job_error (ok d) = ok d
as_job_error (err e) = err (raised e)

pub record Handlers (D E : Type 0) : Type 0 where
  pub ingest_now : Principal → Job → D → Result E (D × List Job)
  pub reindex_chunks : Principal → Job → D → Result E (D × List Job)
  pub sweep_expired_vector_stores : Principal → Job → D → Result E (D × List Job)
  pub purge_stale_vectors : Principal → Job → D → Result E (D × List Job)

abbrev pub is_queued : JobStatus → Bool
is_queued queued = true
is_queued running = false
is_queued completed = false
is_queued failed = false
is_queued cancelled = false

-- `status='queued' AND attempts < max_attempts`
abbrev pub eligible : Job → Bool
eligible j = is_queued j.status && ltb j.attempts j.max_attempts

-- `ORDER BY priority ASC, created_at ASC`
abbrev pub sooner : Job → Job → Bool
sooner j k =
    ltb j.priority k.priority || ((j.priority == k.priority) && ltb j.created_at k.created_at)

-- between `j` and the first row of those behind it
unfoldable pub choose :
    Job → List Job → Option (List Job × Job × List Job) → Option (List Job × Job × List Job)
choose j jobs none = if eligible j then some ([], j, jobs) else none
choose j jobs (some (before, k, after)) =
    if eligible j && not (sooner k j) then some ([], j, jobs) else some (j ∷ before, k, after)

-- the first row in that order, between the rows around it; of equal ones the first that is listed
unfoldable pub claim : List Job → Option (List Job × Job × List Job)
unfolding choose
claim [] = none
claim (j ∷ jobs) = choose j jobs (claim jobs)

abbrev pub lock_row : Text → Job → Job
lock_row worker j = record j {
  status = running;
  locked_by = some worker;
  attempts = j.attempts + 1;
}

-- `'completed' if status == 'completed' else 'failed'`
abbrev pub final_status : JobStatus → JobStatus
final_status completed = completed
final_status _ = failed

-- the count that `target` names, one higher
abbrev pub raise_count : JobStatus → FileBatch → FileBatch
raise_count completed b = record b { completed_count = b.completed_count + 1 }
raise_count failed b = record b { failed_count = b.failed_count + 1 }
raise_count _ b = record b { cancelled_count = b.cancelled_count + 1 }

-- the counts and the status of a batch after one of its jobs has ended
unfoldable pub count_job : JobStatus → ℕ → FileBatch → FileBatch
count_job status now b =
    let left = b.in_progress - 1 in
    let done = left == 0 in
    record (raise_count status b) {
      in_progress = left;
      status = if done then final (final_status status) else b.status;
      completed_at = if done then some now else b.completed_at;
    }

abbrev pub of_batch : Job → Text → FileBatch → Bool
of_batch row batch_id b =
    text_eq b.id batch_id
    && text_eq b.tenant_id row.tenant_id
    && text_eq b.business_instance_id row.business_instance_id

unfoldable pub update_batch : JobStatus → ℕ → Job → Option Text → List FileBatch → List FileBatch
unfolding count_job
update_batch status now row none batches = batches
update_batch status now row (some []) batches = batches
update_batch status now row (some (x ∷ t)) batches =
    map (λ b. if of_batch row (x ∷ t) b then count_job status now b else b) batches

-- `_update_batch_count`, called with a status that is `completed` or `failed`
unfoldable pub update_batch_count : JobStatus → ℕ → Job → List FileBatch → List FileBatch
unfolding update_batch
update_batch_count status now row batches =
    update_batch status now row row.payload.file_batch_id batches

module _ {D E : Type 0} (handlers : Handlers D E) where
  unfoldable pub perform : Job → D → Result (JobError E) (D × List Job)
  unfolding system_principal
  perform row d =
      if text_eq row.job_type (codes "document_ingest")
      then as_job_error (handlers.ingest_now (system_principal row) row d)
      else if text_eq row.job_type (codes "reindex_chunks")
      then as_job_error (handlers.reindex_chunks (system_principal row) row d)
      else if text_eq row.job_type (codes "expire_vector_stores")
      then as_job_error (handlers.sweep_expired_vector_stores (system_principal row) row d)
      else if text_eq row.job_type (codes "purge_stale_vectors")
      then as_job_error (handlers.purge_stale_vectors (system_principal row) row d)
      else err (unsupported row.job_type)

  -- the row and the tables after the attempt; a failed one is rolled back to the savepoint
  unfoldable pub settle :
      ℕ → List Job → Job → List Job → Tables D → Result (JobError E) (D × List Job) → Tables D
  unfolding update_batch_count
  settle now before row after t (ok (d, queued_jobs)) = record {
    jobs = (before ++ record row { status = completed } ∷ after) ++ queued_jobs;
    batches = update_batch_count completed now row t.batches;
    rest = d;
  }
  settle now before row after t (err e) =
      if leb row.max_attempts row.attempts
      then record t {
        jobs = before ++ record row { status = failed; locked_by = none } ∷ after;
        batches = update_batch_count failed now row t.batches;
      }
      else record t { jobs = before ++ record row { status = queued; locked_by = none } ∷ after }

  unfoldable pub attempt :
      Text → ℕ → Tables D → Option (List Job × Job × List Job) → Bool × Tables D
  unfolding settle perform
  attempt worker now t none = (false, t)
  attempt worker now t (some (before, j, after)) =
      let row = lock_row worker j in (true, settle now before row after t (perform row t.rest))

  -- whether there was a job, and the tables after it
  unfoldable pub process_once : Text → ℕ → Tables D → Bool × Tables D
  unfolding attempt claim
  process_once worker now t = attempt worker now t (claim t.jobs)

  -- the loop of `main` without its sleep, for a number of rounds
  unfoldable pub run_worker : ℕ → Text → ℕ → Tables D → Tables D
  unfolding process_once
  run_worker zero worker now t = t
  run_worker (suc rounds) worker now t =
      run_worker rounds worker (now + 1) (process_once worker now t).1
