-- ===== src/Lifecycle.antt =====
-- The calls that change vector stores, their chunks and their index entries, as a step relation:
-- vector_store_repo.py and maintenance.py in packages/svs_common/svs_common. The id of a new store is
-- one that no store has.
pub mod Returned
pub mod Apart
pub mod Kept
pub mod Retired
pub mod Down
pub mod Gone
pub mod Moved
pub mod Refined
pub mod Expiring
pub mod Examples
use exais_vector_store.Prelude.{ℕ, ◌≡◌, Bool, false, List, Option, All}
use exais_vector_store.Prelude.Int.{ℤ}
use exais_vector_store.Prelude.Result.{ok}
use exais_vector_store.Prelude.Text.{Text, text_eq}
use exais_vector_store.Auth.Keys.Rows.{Principal}
use exais_vector_store.Metadata.{Patterns}
use exais_vector_store.Worker.{Payload}
use exais_vector_store.IndexCleanup.{Indexes, Deleted}
use exais_vector_store.Maintenance.{purge, sweep}
use exais_vector_store.VectorStores.Rows.{StoreTables}
use exais_vector_store.VectorStores.Policy.{Casts}
use exais_vector_store.VectorStores.Rendered.{Response, CreateRequest}
use exais_vector_store.VectorStores.{refresh_vector_store_activity, create}
use exais_vector_store.VectorStores.Changes.{Patch, update, delete}

module _ {E : Type 0} (patterns : Patterns) (casts : Casts) (indexes : Indexes E) where
  -- one call that returns
  pub data Step : StoreTables → StoreTables → Type 0 where
    created :
        (now : ℕ) (p : Principal) (vs_id : Text) (req : CreateRequest) (response : Response)
        (t t2 : StoreTables)
        → All (λ s. text_eq s.id vs_id ≡ false) t.stores
        → create patterns casts now p vs_id req t ≡ ok (response, t2)
        → Step t t2
    refreshed :
        (now : ℕ) (p : Principal) (id : Text) (delta : ℤ) (t : StoreTables)
        → Step t (refresh_vector_store_activity casts now p id delta t).1
    updated :
        (now : ℕ) (p : Principal) (id : Text) (patch : Patch) (response : Option Response)
        (t t2 : StoreTables)
        → update patterns casts now p id patch t ≡ ok (response, t2)
        → Step t t2
    removed :
        (job_id : Text) (now : ℕ) (p : Principal) (id : Text) (t : StoreTables)
        → Step t (delete job_id now p id t).1
    swept :
        (job_id : Text → Text) (now : ℕ) (p : Principal) (t : StoreTables)
        → Step t (sweep job_id now p t).1
    purged :
        (now : ℕ) (p : Principal) (payload : Payload) (result : Deleted) (t t2 : StoreTables)
        → purge indexes now p payload t ≡ ok (result, t2)
        → Step t t2

  -- any number of calls, in any order
  pub data Steps : StoreTables → StoreTables → Type 0 where
    stop : (t : StoreTables) → Steps t t
    next : (t t2 t3 : StoreTables) → Step t t2 → Steps t2 t3 → Steps t t3
