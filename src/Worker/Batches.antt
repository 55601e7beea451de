-- ===== src/Worker/Batches.antt =====
-- The counts of a file batch: what is in progress is the number of its jobs that have not ended.
use exais_vector_store.Prelude.{
  ℕ, ◌≡◌, refl, sym, inl, inr, true, false, List, ◌∷◌, ◌++◌, Option, none, some, arith,
  if◌then◌else◌, Bool-cases, All, ◌+◌, subst, leb, map-All, All-mono,
}
use exais_vector_store.Prelude.Text.{Text}
use exais_vector_store.Worker.Claimed.{IsClaim, claim-IsClaim}
use exais_vector_store.Worker.{
  Job, JobStatus, FileBatch, eligible, lock_row, queued, completed, failed, Tables,
  update_batch_count, Handlers, settle, attempt, process_once, Result, perform, JobError, ok, err,
  claim,
}
use exais_vector_store.Worker.Counts.{
  is_live, live_one, counted, update_batch-counted, counted-IsCounted, loose-IsCounted,
  requeued-IsCounted, IsCounted,
}

-- every batch counts its live jobs
abbrev pub AreCounted : {D : Type 0} → Tables D → Type 0
AreCounted t = All (IsCounted t.jobs) t.batches

update_batch_count-IsCounted :
    (status : JobStatus) (now : ℕ) (worker : Text) (before : List Job) (j k : Job)
    (after : List Job) (batches : List FileBatch)
    → eligible j ≡ true
    → ((c : FileBatch) → live_one c k ≡ 0)
    → All (IsCounted (before ++ j ∷ after)) batches
    → All
        (IsCounted (before ++ k ∷ after))
        (update_batch_count status now (lock_row worker j) batches)
unfolding update_batch_count
update_batch_count-IsCounted status now worker before j k after batches fits ended all =
    subst (All (IsCounted (before ++ k ∷ after)))
      (sym (update_batch-counted status now (lock_row worker j) j.payload.file_batch_id batches))
      (map-All (IsCounted (before ++ j ∷ after)) (IsCounted (before ++ k ∷ after))
        (counted status now (lock_row worker j))
        (λ b. counted-IsCounted status now worker before j k after b fits ended) batches all)

never_live : (b : FileBatch) (j : Job) → is_live j.status ≡ false → live_one b j ≡ 0
never_live b j ended = ground (arith, ended)

module _ {D E : Type 0} (handlers : Handlers D E) where
  settle-AreCounted :
      (now : ℕ) (worker : Text) (before : List Job) (j : Job) (after : List Job) (t : Tables D)
      (result : Result (JobError E) (D × List Job))
      → ((d2 : D) (new : List Job)
          → result ≡ ok (d2, new)
          → All (λ k. k.payload.file_batch_id ≡ none) new)
      → eligible j ≡ true
      → All (IsCounted (before ++ j ∷ after)) t.batches
      → AreCounted (settle handlers now before (lock_row worker j) after t result)
  unfolding settle
  settle-AreCounted now worker before j after t (ok (d, new)) loose fits all =
      let k : Job = record (lock_row worker j) { status = completed } in
      All-mono (IsCounted (before ++ k ∷ after)) (IsCounted ((before ++ k ∷ after) ++ new))
        (λ b. loose-IsCounted (before ++ k ∷ after) new b (loose d new refl))
        (update_batch_count completed now (lock_row worker j) t.batches)
        (update_batch_count-IsCounted completed now worker before j k after t.batches fits
          (λ c. never_live c k refl) all)
  settle-AreCounted now worker before j after t (err e) loose fits all =
      elim (Bool-cases (leb j.max_attempts (j.attempts + 1))) [
        | inl last ↦
            rw (last, if◌then◌else◌)
              (let k : Job = record (lock_row worker j) { status = failed; locked_by = none } in
                update_batch_count-IsCounted failed now worker before j k after t.batches fits
                  (λ c. never_live c k refl) all)
        | inr more ↦
            rw (more, if◌then◌else◌)
              (let k : Job = record (lock_row worker j) { status = queued; locked_by = none } in
                All-mono (IsCounted (before ++ j ∷ after)) (IsCounted (before ++ k ∷ after))
                  (λ b. requeued-IsCounted worker before j after b fits) t.batches all)
      ]

  attempt-AreCounted :
      (worker : Text) (now : ℕ) (t : Tables D) (found : Option (List Job × Job × List Job))
      → ((row : Job) (d d2 : D) (new : List Job)
          → perform handlers row d ≡ ok (d2, new)
          → All (λ k. k.payload.file_batch_id ≡ none) new)
      → IsClaim t.jobs found
      → AreCounted t
      → AreCounted (attempt handlers worker now t found).1
  unfolding attempt
  attempt-AreCounted worker now t none loose is all = all
  attempt-AreCounted worker now t (some (before, j, after)) loose (whole, fits, rest) all =
      settle-AreCounted now worker before j after t (perform handlers (lock_row worker j) t.rest)
        (loose (lock_row worker j) t.rest) fits
        (subst (λ jobs. All (IsCounted jobs) t.batches) (sym whole) all)

  -- The count `in_progress` of each file batch stays the number of its jobs that have not ended,
  -- where it is that before: a job of the batch that ends lowers it by one, a failed attempt that
  -- goes back to the queue leaves it. The handlers queue no job of a file batch.
  pub process_once-AreCounted :
      ((row : Job) (d d2 : D) (new : List Job)
        → perform handlers row d ≡ ok (d2, new)
        → All (λ k. k.payload.file_batch_id ≡ none) new)
      → (worker : Text) (now : ℕ) (t : Tables D) → AreCounted t
      → AreCounted (process_once handlers worker now t).1
  unfolding process_once
  process_once-AreCounted loose worker now t all =
      attempt-AreCounted worker now t (claim t.jobs) loose (claim-IsClaim t.jobs) all
