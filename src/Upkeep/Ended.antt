-- ===== src/Upkeep/Ended.antt =====
-- With its clean-up jobs, the worker ends every job.
use exais_vector_store.Prelude.{
  ℕ, ◌≡◌, refl, sym, ap, subst, List, [], ◌∷◌, map, All, arith, ◌+◌, ◌*◌, ◌≤◌, length, none, true,
  if◌then◌else◌,
}
use exais_vector_store.Prelude.Result.{Result, ok, err, ok-inj}
use exais_vector_store.Prelude.Text.{Text, text_eq, codes}
use exais_vector_store.Auth.Keys.Rows.{Principal}
use exais_vector_store.Worker.{Job, Handlers, Tables, perform, run_worker}
use exais_vector_store.Worker.Dispatch.{perform-each}
use exais_vector_store.Worker.Drained.{budget}
use exais_vector_store.Worker.Ended.{IsSettled, IsEnded, run_worker-IsEnded}
use exais_vector_store.IndexCleanup.{Indexes, Deleted}
use exais_vector_store.Maintenance.{
  expire_store, expiring_ids, retire_stores, retire_chunk, sweep, purge,
}
use exais_vector_store.VectorStores.Rows.{StoreTables}
use exais_vector_store.Lifecycle.Kept.{retire_stores-same, enqueue-IsQueuing}
use exais_vector_store.Lifecycle.Returned.{IsPurged, purge-IsPurged}
use exais_vector_store.Upkeep.{
  without_jobs, take_jobs, after_purge, upkeep_handlers, enqueue_superseded, after_ingest,
}
use exais_vector_store.Upkeep.Paid.{
  live_stores, IsPaid, enqueue_each-IsPaid, live_stores-expire_store, allowance, enqueue-IsPaid,
}

-- the jobs that a job queues are settled, and the stores that are live no more pay for them, or what
-- an ingestion is allowed
abbrev pub IsFair : Job → StoreTables → StoreTables × List Job → Type 0
IsFair row t (t2, new) =
    (budget allowance new + 5 * live_stores t2.stores
      ≤ 5 * live_stores t.stores + allowance row.job_type)
    × All IsSettled new

-- what the clean-up jobs keep, whatever their type allows
abbrev IsQuiet : StoreTables → StoreTables × List Job → Type 0
IsQuiet t (t2, new) =
    (budget allowance new + 5 * live_stores t2.stores ≤ 5 * live_stores t.stores)
    × All IsSettled new

fair :
    (row : Job) (t : StoreTables) (result : StoreTables × List Job)
    → IsQuiet t result
    → IsFair row t result
fair row t (t2, new) (within, settled) = (omega (arith, within), settled)

-- what is asked of the rest of an ingestion: it queues nothing and brings no store back
abbrev pub IsTame : StoreTables → StoreTables → Type 0
IsTame t t2 = (t2.jobs ≡ []) × (live_stores t2.stores ≤ live_stores t.stores)

enqueue_superseded-IsPaid :
    (job_id : Text) (now : ℕ) (p : Principal) (superseded : List Text) (t : StoreTables)
    → t.jobs ≡ []
    → IsPaid 5 (enqueue_superseded job_id now p superseded t).jobs
unfolding enqueue_superseded
enqueue_superseded-IsPaid job_id now p [] t empty = rw empty (omega arith, tt)
enqueue_superseded-IsPaid job_id now p (v ∷ versions) t empty =
    enqueue-IsPaid job_id now p (v ∷ versions) none none (codes "document_version_superseded") t 0
      (rw empty (omega arith, tt))

enqueue_superseded-stores :
    (job_id : Text) (now : ℕ) (p : Principal) (superseded : List Text) (t : StoreTables)
    → (enqueue_superseded job_id now p superseded t).stores ≡ t.stores
unfolding enqueue_superseded
enqueue_superseded-stores job_id now p [] t = refl
enqueue_superseded-stores job_id now p (v ∷ versions) t =
    (enqueue-IsQueuing job_id now p (v ∷ versions) none none (codes "document_version_superseded")
      t).1

after_ingest-IsFair :
    {E : Type 0} (job_id : Text) (now : ℕ) (p : Principal) (row : Job) (t : StoreTables)
    (indexed : Result E (List Text × StoreTables)) (result : StoreTables × List Job)
    → ((superseded : List Text) (t2 : StoreTables) → indexed ≡ ok (superseded, t2) → IsTame t t2)
    → text_eq row.job_type (codes "document_ingest") ≡ true
    → after_ingest job_id now p indexed ≡ ok result
    → IsFair row t result
unfolding after_ingest
after_ingest-IsFair job_id now p row t (ok (superseded, t2)) result tame ingests is =
    let (empty, fewer) = tame superseded t2 refl in
    let (within, settled) = enqueue_superseded-IsPaid job_id now p superseded t2 empty in
    let same = ap live_stores (enqueue_superseded-stores job_id now p superseded t2) in
    let allowed : allowance row.job_type ≡ 5 = rw (ingests, if◌then◌else◌) refl in
    subst (IsFair row t) (ok-inj is) (omega (arith, within, same, fewer, allowed), settled)
after_ingest-IsFair job_id now p row t (err problem) result tame ingests is = cc

retire_stores-IsPaid :
    (job_id : Text → Text) (now : ℕ) (p : Principal) (ids : List Text) (t : StoreTables)
    → t.jobs ≡ []
    → IsPaid (5 * length ids) (retire_stores job_id now p ids t).jobs
unfolding retire_stores
retire_stores-IsPaid job_id now p [] t empty = rw empty (omega arith, tt)
retire_stores-IsPaid job_id now p (x ∷ ids) t empty =
    let retired : StoreTables = record t { chunks = map (retire_chunk now p (x ∷ ids)) t.chunks } in
    let start : IsPaid 0 retired.jobs = subst (IsPaid 0) (sym empty) (omega arith, tt) in
    let (within, settled) = enqueue_each-IsPaid job_id now p (x ∷ ids) retired 0 start in
    (omega (arith, within), settled)

sweep-IsQuiet :
    (job_id : Text → Text) (now : ℕ) (p : Principal) (t : StoreTables)
    → IsQuiet t (take_jobs (sweep job_id now p (without_jobs t)).1)
unfolding sweep
sweep-IsQuiet job_id now p t =
    let ids : List Text = expiring_ids now p t.stores in
    let after : StoreTables = record (without_jobs t) {
      stores = map (expire_store now p) t.stores;
    } in
    let (within, settled) = retire_stores-IsPaid job_id now p ids after refl in
    let same = ap live_stores (retire_stores-same job_id now p ids after) in
    (omega (arith, within, same, live_stores-expire_store now p t.stores), settled)

module _ {E : Type 0} (indexes : Indexes E) where
  after_purge-IsQuiet :
      (now : ℕ) (p : Principal) (t : StoreTables) (purged : Result E (Deleted × StoreTables))
      (result : StoreTables × List Job)
      → ((done : Deleted) (t2 : StoreTables)
          → purged ≡ ok (done, t2)
          → IsPurged now p (without_jobs t) t2)
      → after_purge purged ≡ ok result
      → IsQuiet t result
  after_purge-IsQuiet now p t (ok (done, t2)) result keeps is =
      let (stores, jobs, _) = keeps done t2 refl in
      subst (IsQuiet t) (ok-inj is) (rw (stores, jobs) (omega arith, tt))
  after_purge-IsQuiet now p t (err problem) result keeps is = cc

  module _ (clock : Job → ℕ) (job_id : Job → Text → Text) where
    -- Every job ends, the clean-up jobs and those that they and the ingestions queue with them. Where no
    -- job runs, a queued job has an attempt left, a failed one has none and a cancelled one no more than
    -- it may, where what ingestion does before it queues the purge of superseded versions queues no job
    -- and brings no vector store back, and where reindexing queues only such jobs and those are paid
    -- for, five attempts for each vector store that is live no more: after as many rounds as attempts
    -- are left, five for each queued ingestion and five for each live vector store, each job is
    -- completed within its attempts, failed after exactly all of them, or cancelled.
    pub upkeep-IsEnded :
        (index_document : Principal → Job → StoreTables → Result E (List Text × StoreTables))
        (reindex_chunks : Principal → Job → StoreTables → Result E (StoreTables × List Job))
        → ((p : Principal) (row : Job) (t : StoreTables) (superseded : List Text) (t2 : StoreTables)
            → index_document p row (without_jobs t) ≡ ok (superseded, t2)
            → IsTame t t2)
        → ((p : Principal) (row : Job) (t : StoreTables) (result : StoreTables × List Job)
            → reindex_chunks p row t ≡ ok result
            → IsFair row t result)
        → (rounds : ℕ) (worker : Text) (now : ℕ) (t : Tables StoreTables) → All IsSettled t.jobs
        → budget allowance t.jobs + 5 * live_stores t.rest.stores ≤ rounds
        → All IsEnded
            (run_worker
              (upkeep_handlers indexes clock job_id index_document reindex_chunks)
              rounds
              worker
              now
              t).jobs
    upkeep-IsEnded index_document reindex_chunks tame reindex rounds worker now t settled enough =
        let handlers : Handlers StoreTables E =
          upkeep_handlers indexes clock job_id index_document reindex_chunks in
        let each : (row : Job) (d : StoreTables) (result : StoreTables × List Job)
            → perform handlers row d ≡ ok result
            → IsFair row d result =
          perform-each handlers IsFair
            (λ p row d result same is.
              after_ingest-IsFair (job_id row []) (clock row) p row d
                (index_document p row (without_jobs d)) result (tame p row d) same is)
            (λ p row d result same is. reindex p row d result is)
            (λ p row d result same is.
              fair row d result
                (subst (IsQuiet d) (ok-inj is) (sweep-IsQuiet (job_id row) (clock row) p d)))
            (λ p row d result same is. fair row d result (
              after_purge-IsQuiet (clock row) p d
                (purge indexes (clock row) p row.payload (without_jobs d)) result
                (λ done t2.
                  purge-IsPurged indexes (clock row) p row.payload done (without_jobs d) t2)
                is)) in
        run_worker-IsEnded handlers allowance (λ d. 5 * live_stores d.stores)
          (λ row d d2 new is. (each row d (d2, new) is).0)
          (λ row d d2 new is. (each row d (d2, new) is).1) rounds worker now t settled enough
