-- ===== src/Worker/Counts.antt =====
-- The jobs of a file batch that have not ended, before and after one of them ends.
use exais_vector_store.Prelude.{
  ℕ, ◌≡◌, refl, sym, ap, inl, inr, Bool, true, false, ◌&&◌, List, [], ◌∷◌, ◌++◌, map, Option, none,
  some, arith, if◌then◌else◌, Bool-cases, All, ◌+◌, ◌-◌,
}
use exais_vector_store.Prelude.Text.{Text}
use exais_vector_store.Worker.{
  Job, JobStatus, FileBatch, is_queued, eligible, lock_row, queued, running, completed, failed,
  cancelled, of_batch, count_job, update_batch,
}

abbrev pub is_live : JobStatus → Bool
is_live queued = true
is_live running = true
is_live completed = false
is_live failed = false
is_live cancelled = false

abbrev belongs : FileBatch → Job → Option Text → Bool
belongs b j none = false
belongs b j (some []) = false
belongs b j (some (x ∷ t)) = of_batch j (x ∷ t) b

abbrev pub live_one : FileBatch → Job → ℕ
live_one b j = if belongs b j j.payload.file_batch_id && is_live j.status then 1 else 0

-- the jobs of the batch that have not ended
abbrev pub live : FileBatch → List Job → ℕ
live b [] = 0
live b (j ∷ jobs) = live_one b j + live b jobs

live-append : (b : FileBatch) (xs ys : List Job) → live b (xs ++ ys) ≡ live b xs + live b ys
live-append b [] ys = omega arith
live-append b (x ∷ xs) ys = omega (arith, live-append b xs ys)

live-unbound :
    (b : FileBatch) (new : List Job)
    → All (λ j. j.payload.file_batch_id ≡ none) new
    → live b new ≡ 0
live-unbound b [] loose = refl
live-unbound b (j ∷ new) (first, rest) = rw first omega (arith, live-unbound b new rest)

abbrev total : FileBatch → ℕ
total b = b.in_progress + (b.completed_count + (b.failed_count + b.cancelled_count))

-- a batch counts its live jobs
abbrev pub IsCounted : List Job → FileBatch → Type 0
IsCounted jobs b = b.in_progress ≡ live b jobs

-- the batch after the job at hand has ended
abbrev pub counted : JobStatus → ℕ → Job → FileBatch → FileBatch
counted status now row b =
    if belongs b row row.payload.file_batch_id then count_job status now b else b

map_same : {A : Type 0} (xs : List A) → map (λ x. x) xs ≡ xs
map_same [] = refl
map_same (x ∷ xs) = ap (◌∷◌ x) (map_same xs)

pub update_batch-counted :
    (status : JobStatus) (now : ℕ) (row : Job) (batch_id : Option Text) (batches : List FileBatch)
    → update_batch status now row batch_id batches
      ≡ map (λ b. if belongs b row batch_id then count_job status now b else b) batches
unfolding update_batch
update_batch-counted status now row none batches = sym (map_same batches)
update_batch-counted status now row (some []) batches = sym (map_same batches)
update_batch-counted status now row (some (x ∷ t)) batches = refl

live_one-count :
    (status : JobStatus) (now : ℕ) (b : FileBatch) (j : Job)
    → live_one (count_job status now b) j ≡ live_one b j
unfolding count_job
live_one-count queued now b j = refl
live_one-count running now b j = refl
live_one-count completed now b j = refl
live_one-count failed now b j = refl
live_one-count cancelled now b j = refl

live-count :
    (status : JobStatus) (now : ℕ) (b : FileBatch) (jobs : List Job)
    → live (count_job status now b) jobs ≡ live b jobs
live-count status now b [] = refl
live-count status now b (j ∷ jobs) =
    omega (arith, live_one-count status now b j, live-count status now b jobs)

left-count :
    (status : JobStatus) (now : ℕ) (b : FileBatch)
    → (count_job status now b).in_progress ≡ b.in_progress - 1
unfolding count_job
left-count queued now b = refl
left-count running now b = refl
left-count completed now b = refl
left-count failed now b = refl
left-count cancelled now b = refl

queued_live : (status : JobStatus) → is_queued status ≡ true → is_live status ≡ true
queued_live queued h = refl
queued_live running h = cc
queued_live completed h = cc
queued_live failed h = cc
queued_live cancelled h = cc

live_one-mine :
    (b : FileBatch) (j : Job)
    → belongs b j j.payload.file_batch_id ≡ true
    → eligible j ≡ true
    → live_one b j ≡ 1
live_one-mine b j mine fits = rw (mine, queued_live j.status (ground (arith, fits))) refl

-- a batch counts its live jobs again after one of them has ended
pub counted-IsCounted :
    (status : JobStatus) (now : ℕ) (worker : Text) (before : List Job) (j k : Job)
    (after : List Job) (b : FileBatch)
    → eligible j ≡ true
    → ((c : FileBatch) → live_one c k ≡ 0)
    → IsCounted (before ++ j ∷ after) b
    → IsCounted (before ++ k ∷ after) (counted status now (lock_row worker j) b)
counted-IsCounted status now worker before j k after b fits ended is =
    elim (Bool-cases (belongs b j j.payload.file_batch_id)) [
      | inl mine ↦
          rw (mine, if◌then◌else◌)
            (omega (
              arith,
              is,
              live_one-mine b j mine fits,
              live-append b before (j ∷ after),
              live-append (count_job status now b) before (k ∷ after),
              ended (count_job status now b),
              live-count status now b before,
              live-count status now b after,
              left-count status now b,
            ))
      | inr other ↦
          rw (other, if◌then◌else◌)
            (let before_one : live_one b j ≡ 0 = rw other refl in
              omega (
                arith,
                is,
                live-append b before (j ∷ after),
                live-append b before (k ∷ after),
                ended b,
                before_one,
              ))
    ]

-- jobs of no batch may follow
pub loose-IsCounted :
    (jobs new : List Job) (b : FileBatch)
    → All (λ j. j.payload.file_batch_id ≡ none) new
    → IsCounted jobs b
    → IsCounted (jobs ++ new) b
loose-IsCounted jobs new b loose is =
    omega (arith, is, live-append b jobs new, live-unbound b new loose)

-- a job that goes back to the queue counts as before
pub requeued-IsCounted :
    (worker : Text) (before : List Job) (j : Job) (after : List Job) (b : FileBatch)
    → eligible j ≡ true
    → IsCounted (before ++ j ∷ after) b
    → IsCounted
        (before ++ record (lock_row worker j) { status = queued; locked_by = none } ∷ after)
        b
requeued-IsCounted worker before j after b fits is =
    let k : Job = record (lock_row worker j) { status = queued; locked_by = none } in
    let live_k : is_live k.status ≡ is_live j.status =
      sym (queued_live j.status (ground (arith, fits))) in
    let same : live_one b k ≡ live_one b j =
      ap (λ alive. if belongs b j j.payload.file_batch_id && alive then 1 else 0) live_k in
    omega (arith, is, same, live-append b before (j ∷ after), live-append b before (k ∷ after))
