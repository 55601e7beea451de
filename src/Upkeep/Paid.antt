-- ===== src/Upkeep/Paid.antt =====
-- Each job that a sweep queues is paid for by a vector store that expires.
use exais_vector_store.Prelude.{
  ℕ, ◌≡◌, refl, inl, inr, true, not, ◌&&◌, List, [], ◌∷◌, Option, none, some, map, All, All-append,
  arith, if◌then◌else◌, Bool-cases, ◌+◌, ◌*◌, ◌≤◌, length,
}
use exais_vector_store.Prelude.Text.{Text, codes, text_eq}
use exais_vector_store.Auth.Keys.Rows.{Principal}
use exais_vector_store.Worker.{Job}
use exais_vector_store.Worker.Drained.{budget, budget-append}
use exais_vector_store.Worker.Ended.{IsSettled}
use exais_vector_store.IndexCleanup.{
  enqueue_purge_stale_vectors, purge_job, given_ids, no_ids, is_given,
}
use exais_vector_store.Maintenance.{
  is_sweepable, is_expiring, expire_store, expiring_ids, enqueue_each,
}
use exais_vector_store.VectorStores.Rows.{StoreTables, VectorStore}

-- an ingestion may queue one purge, of five attempts
abbrev pub allowance : Text → ℕ
allowance job_type = if text_eq job_type (codes "document_ingest") then 5 else 0

-- the stores that a sweep may still expire
abbrev pub live_stores : List VectorStore → ℕ
live_stores [] = 0
live_stores (s ∷ stores) = (if is_sweepable s.status then 1 else 0) + live_stores stores

-- a queue whose jobs are settled, within a bound on their attempts
abbrev pub IsPaid : ℕ → List Job → Type 0
IsPaid bound jobs = (budget allowance jobs ≤ bound) × All IsSettled jobs

pub enqueue-IsPaid :
    (job_id : Text) (now : ℕ) (p : Principal) (versions : List Text)
    (document_id vector_store_id : Option Text) (reason : Text) (t : StoreTables) (bound : ℕ)
    → IsPaid bound t.jobs
    → IsPaid
        (bound + 5)
        (enqueue_purge_stale_vectors job_id now p versions document_id vector_store_id reason
          t).1.jobs
unfolding enqueue_purge_stale_vectors purge_job
enqueue-IsPaid job_id now p versions document_id vector_store_id reason t bound (within, settled) =
    let job : Job =
      purge_job job_id now p (given_ids versions) document_id vector_store_id reason in
    elim (Bool-cases (
      no_ids (given_ids versions)
      && not (is_given document_id)
      && not (is_given vector_store_id))) [
        | inl nothing ↦ rw (nothing, if◌then◌else◌) (omega (arith, within), settled)
        | inr something ↦
            rw (something, if◌then◌else◌)
              (
                omega (arith, within, budget-append allowance t.jobs (job ∷ [])),
                All-append IsSettled t.jobs (job ∷ []) settled (refl, tt),
              )
      ]

pub enqueue_each-IsPaid :
    (job_id : Text → Text) (now : ℕ) (p : Principal) (ids : List Text) (t : StoreTables) (bound : ℕ)
    → IsPaid bound t.jobs
    → IsPaid (bound + 5 * length ids) (enqueue_each job_id now p ids t).1.jobs
unfolding enqueue_each
enqueue_each-IsPaid job_id now p [] t bound (within, settled) = (omega (arith, within), settled)
enqueue_each-IsPaid job_id now p (vs_id ∷ ids) t bound paid =
    let first =
      enqueue-IsPaid (job_id vs_id) now p [] none (some vs_id) (codes "vector_store_expired") t
        bound paid in
    let t2 : StoreTables =
      (enqueue_purge_stale_vectors (job_id vs_id) now p [] none (some vs_id)
        (codes "vector_store_expired") t).1 in
    let (within, settled) = enqueue_each-IsPaid job_id now p ids t2 (bound + 5) first in
    (omega (arith, within), settled)

pub live_stores-expire_store :
    (now : ℕ) (p : Principal) (stores : List VectorStore)
    → length (expiring_ids now p stores) + live_stores (map (expire_store now p) stores)
      ≤ live_stores stores
unfolding expire_store
live_stores-expire_store now p [] = omega arith
live_stores-expire_store now p (s ∷ stores) =
    let rest = live_stores-expire_store now p stores in
    elim (Bool-cases (is_expiring now p s)) [
      | inl hit ↦
          let live : is_sweepable s.status ≡ true = ground (arith, hit) in
          rw (hit, if◌then◌else◌) (rw live (omega (arith, rest)))
      | inr miss ↦ rw (miss, if◌then◌else◌) (omega (arith, rest))
    ]
