-- ===== src/VectorStores.antt =====
-- The vector stores, vector_store_repo.py in packages/svs_common/svs_common: a store is created,
-- used, changed, found and deleted. A row is found by its id, which is a primary key, in the tenant
-- and the instance of the caller. A policy whose days leave the calendar of Python raises there.
pub mod Rows
pub mod Policy
pub mod Rendered
pub mod Changes
pub mod Listing
pub mod Described
pub mod Ordered
pub mod Pages
pub mod Examples
use mathlib.Core.Option
use exais_vector_store.Prelude.{
  ℕ, Bool, true, false, not, ◌&&◌, ◌||◌, List, [], ◌∷◌, ◌++◌, Option, none, some, map, ◌+◌, ltb,
  if◌then◌else◌, ◌/◌,
}
use exais_vector_store.Prelude.Int.{ℤ, pos_part}
use exais_vector_store.Prelude.Result.{Result, ok, err, ◌>>=◌}
use exais_vector_store.Prelude.Text.{Text, codes, text_eq, is_empty, filter_by}
use exais_vector_store.Auth.Keys.Rows.{Principal, opt_eq, first_row}
use exais_vector_store.Metadata.{
  Raw, Patterns, MetadataError, put, description_key, chunking_strategy_key,
  validate_openai_metadata,
}
use exais_vector_store.IndexCleanup.{enqueue_purge_stale_vectors, instance_of}
use exais_vector_store.Maintenance.{is_due}
use exais_vector_store.VectorStores.Rows.{
  StoreTables, VectorStore, StoreStatus, ChunkRow, IndexStatus, Attribute, fields, value, owns,
  is_store,
}
use exais_vector_store.VectorStores.Policy.{
  ExpiryPolicy, Casts, expires_at_from_policy, refreshed_expiry, overflows,
}
use exais_vector_store.VectorStores.Rendered.{
  Response, CreateRequest, attributes_from_create_request, openai_public_metadata,
  vector_store_response_from_row, pop, put_some, to_attributes, description_attribute,
  strategy_attribute, zero_file_counts,
}

pub data Reason : Type 0 where
  not_found expired : Reason

pub data StoreError : Type 0 where
  unavailable : Text → Reason → StoreError
  invalid_metadata : MetadataError → StoreError
  date_overflow : StoreError

abbrev pub is_deleted : StoreStatus → Bool
is_deleted StoreStatus.active = false
is_deleted StoreStatus.completed = false
is_deleted StoreStatus.expired = false
is_deleted StoreStatus.deleted = true

abbrev pub is_expired : StoreStatus → Bool
is_expired StoreStatus.active = false
is_expired StoreStatus.completed = false
is_expired StoreStatus.expired = true
is_expired StoreStatus.deleted = false

abbrev pub require_row : ℕ → Text → Option VectorStore → Result StoreError VectorStore
require_row now id none = err (unavailable id not_found)
require_row now id (some row) =
    if is_expired row.status || is_due now row.expires_at
    then err (unavailable id expired)
    else ok row

-- `require_active_vector_store`
unfoldable pub require_active_vector_store :
    ℕ → Principal → Text → StoreTables → Result StoreError VectorStore
require_active_vector_store now p id t =
    require_row now id (first_row (λ s. is_store p id s && not (is_deleted s.status)) t.stores)

-- the WHERE of `refresh_vector_store_activity`
abbrev pub is_refreshable : ℕ → Principal → Text → VectorStore → Bool
is_refreshable now p id s =
    is_store p id s
    && not (is_deleted s.status)
    && not (is_expired s.status)
    && not (is_due now s.expires_at)

unfoldable pub refresh_store : Casts → ℕ → Principal → Text → ℕ → VectorStore → VectorStore
unfolding refreshed_expiry
refresh_store casts now p id delta s =
    if is_refreshable now p id s
    then record s {
      last_active_at = now;
      usage_bytes = s.usage_bytes + delta;
      expires_at = refreshed_expiry casts s.expires_after s.expires_at now;
    }
    else s

abbrev pub is_found : {A : Type 0} → Option A → Bool
is_found none = false
is_found (some a) = true

-- `refresh_vector_store_activity`; a delta that is negative counts as none
unfoldable pub refresh_vector_store_activity :
    Casts → ℕ → Principal → Text → ℤ → StoreTables → Bool × StoreTables
unfolding refresh_store
refresh_vector_store_activity casts now p id usage_bytes_delta t = (
  is_found (first_row (is_refreshable now p id) t.stores),
  record t { stores = map (refresh_store casts now p id (pos_part usage_bytes_delta)) t.stores },
)

abbrev pub name_or : Option Text → Text → Text
name_or none id = id
name_or (some []) id = id
name_or (some (x ∷ t)) id = x ∷ t

unfoldable pub new_store :
    Casts → ℕ → Principal → Text → List (Text × Attribute) → CreateRequest → VectorStore
unfolding expires_at_from_policy
new_store casts now p vs_id attrs req = record {
  id = vs_id;
  tenant_id = p.tenant_id;
  business_instance_id = instance_of p;
  knowledge_base_id = req.knowledge_base_id;
  name = name_or req.name vs_id;
  status = StoreStatus.completed;
  attributes = attrs;
  expires_after = req.expires_after;
  expires_at = expires_at_from_policy casts req.expires_after now;
  last_active_at = now;
  usage_bytes = 0;
  created_at = now;
  deleted_at = none;
}

-- `int(expires_at.timestamp())`, which leaves the fraction out
abbrev pub whole_seconds : ℕ → ℕ
whole_seconds t = t / 1000000

unfoldable pub create_response : VectorStore → CreateRequest → Response
unfolding openai_public_metadata
create_response s req = record {
  id = s.id;
  name = s.name;
  description = req.description;
  status = StoreStatus.completed;
  usage_bytes = 0;
  file_counts = zero_file_counts;
  metadata = openai_public_metadata s.attributes;
  created_at = none;
  expires_after = req.expires_after;
  expires_at = Option.map whole_seconds s.expires_at;
  last_active_at = none;
}

abbrev pub as_store_error : {A : Type 0} → Result MetadataError A → Result StoreError A
as_store_error (ok a) = ok a
as_store_error (err e) = err (invalid_metadata e)

-- `create`, with the id that is drawn for the store
unfoldable pub create :
    Patterns
    → Casts
    → ℕ
    → Principal
    → Text
    → CreateRequest
    → StoreTables
    → Result StoreError (Response × StoreTables)
unfolding attributes_from_create_request new_store create_response overflows
create patterns casts now p vs_id req t = do
  attrs ← as_store_error (attributes_from_create_request patterns req)
  let s = new_store casts now p vs_id attrs req
  if overflows casts req.expires_after now
      then err date_overflow
      else ok (create_response s req, record t { stores = t.stores ++ s ∷ [] })

unfoldable pub get_response : StoreTables → Option VectorStore → Option Response
unfolding vector_store_response_from_row
get_response t none = none
get_response t (some row) = some (vector_store_response_from_row t.files row)

-- `get`, which also finds a deleted store
unfoldable pub get : Principal → Text → StoreTables → Option Response
unfolding get_response
get p id t = get_response t (first_row (is_store p id) t.stores)
