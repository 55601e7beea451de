-- ===== src/Lifecycle/Expiring.antt =====
-- The expiry that a vector store is created with, in Python, and the one that a use of it sets, in SQL.
use exais_vector_store.Prelude.Text.{Text}
use exais_vector_store.VectorStores.Rows.{VectorStore}
use exais_vector_store.Prelude.{ℕ, ◌≤◌, ◌≡◌, some, ◌+◌, ◌*◌, ◌<◌}
use exais_vector_store.VectorStores.Policy.{Casts, day, calendar_end, refreshed_expiry}

-- A store that expires a number of days after its last use, which started `now`.
pub record ExpiresAfterUse (casts : Casts) (now later : ℕ) (s : VectorStore) : Type 0 where
  pub days : ℕ
  pub positive : 1 ≤ days
  pub created : s.expires_at ≡ some (now + days * day)
  pub within : now + days * day < calendar_end
  pub refreshed :
      refreshed_expiry casts s.expires_after s.expires_at later ≡ some (later + days * day)
