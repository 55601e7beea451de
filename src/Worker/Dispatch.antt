-- ===== src/Worker/Dispatch.antt =====
-- What every handler keeps for the jobs of its type, a job of any type keeps.
use exais_vector_store.Prelude.{◌≡◌, inl, inr, List, if◌then◌else◌, Bool-cases, true}
use exais_vector_store.Prelude.Result.{Result, ok, err}
use exais_vector_store.Prelude.Text.{codes, text_eq, Text}
use exais_vector_store.Auth.Keys.Rows.{Principal}
use exais_vector_store.Worker.{Job, Handlers, as_job_error, system_principal, perform}

as_job_error-ok :
    {E A : Type 0} (result : Result E A) (a : A) → as_job_error result ≡ ok a → result ≡ ok a
as_job_error-ok (ok b) a is = cc
as_job_error-ok (err e) a is = cc

-- what holds of the outcome of a handler that succeeds, on a job of its type
abbrev pub Keeps :
    {D E : Type 0}
    → (Job → D → D × List Job → Type 0)
    → Text
    → (Principal → Job → D → Result E (D × List Job))
    → Type 0
Keeps {D} P job_type handler =
    (p : Principal) (row : Job) (d : D) (result : D × List Job)
    → text_eq row.job_type job_type ≡ true
    → handler p row d ≡ ok result
    → P row d result

kept :
    {D E : Type 0} (P : Job → D → D × List Job → Type 0) (job_type : Text)
    (handler : Principal → Job → D → Result E (D × List Job))
    → Keeps P job_type handler
    → (row : Job) (d : D) (result : D × List Job) → text_eq row.job_type job_type ≡ true
    → as_job_error (handler (system_principal row) row d) ≡ ok result
    → P row d result
kept P job_type handler keeps row d result same is =
    keeps (system_principal row) row d result same
      (as_job_error-ok (handler (system_principal row) row d) result is)

-- What holds of the outcome of each handler holds of a performed job.
pub perform-each :
    {D E : Type 0} (handlers : Handlers D E) (P : Job → D → D × List Job → Type 0)
    → Keeps P (codes "document_ingest") handlers.ingest_now
    → Keeps P (codes "reindex_chunks") handlers.reindex_chunks
    → Keeps P (codes "expire_vector_stores") handlers.sweep_expired_vector_stores
    → Keeps P (codes "purge_stale_vectors") handlers.purge_stale_vectors
    → (row : Job) (d : D) (result : D × List Job) → perform handlers row d ≡ ok result
    → P row d result
unfolding perform
perform-each handlers P ingest reindex sweep purge row d result =
    elim (Bool-cases (text_eq row.job_type (codes "document_ingest"))) [
      | inl a ↦
          rw (a, if◌then◌else◌)
            (kept P (codes "document_ingest") handlers.ingest_now ingest row d result a)
      | inr a ↦
          rw (a, if◌then◌else◌)
            (elim (Bool-cases (text_eq row.job_type (codes "reindex_chunks"))) [
              | inl b ↦
                  rw (b, if◌then◌else◌)
                    (kept P (codes "reindex_chunks") handlers.reindex_chunks reindex row d result b)
              | inr b ↦
                  rw (b, if◌then◌else◌)
                    (elim (Bool-cases (text_eq row.job_type (codes "expire_vector_stores"))) [
                      | inl c ↦
                          rw (c, if◌then◌else◌)
                            (kept P (codes "expire_vector_stores")
                              handlers.sweep_expired_vector_stores sweep row d result c)
                      | inr c ↦
                          rw (c, if◌then◌else◌)
                            (elim (Bool-cases
                              (text_eq row.job_type (codes "purge_stale_vectors"))) [
                                | inl e ↦
                                    rw (e, if◌then◌else◌)
                                      (kept P (codes "purge_stale_vectors")
                                        handlers.purge_stale_vectors purge row d result e)
                                | inr e ↦ rw (e, if◌then◌else◌) (λ is. cc)
                              ])
                    ])
            ])
    ]
