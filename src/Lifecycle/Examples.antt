-- ===== src/Lifecycle/Examples.antt =====
-- The life of a vector store with one chunk: it is used, swept when it is due, and deleted.
use exais_vector_store.Lifecycle.Refined.{Steps-HaveMoved}
use exais_vector_store.Lifecycle.Moved.{HaveMoved}
use exais_vector_store.VectorStores.Policy.{refreshed_expiry, overflows}
use exais_vector_store.Metadata.Requests.{policy_fields}
use exais_vector_store.Prelude.{◌≡◌, refl, true, [], ◌∷◌, none, some, List, Bool, map, arith}
use exais_vector_store.Prelude.Int.{pos}
use exais_vector_store.Prelude.Result.{ok, err}
use exais_vector_store.Prelude.Text.{Text, codes, text_eq, lower_ascii}
use exais_vector_store.Auth.Keys.Rows.{Principal}
use exais_vector_store.Metadata.Examples.{patterns}
use exais_vector_store.IndexCleanup.{Indexes}
use exais_vector_store.VectorStores.Rows.{
  StoreTables, VectorStore, StoreStatus, ChunkRow, IndexStatus, EmbeddingRow,
}
use exais_vector_store.VectorStores.Examples.{casts}
use exais_vector_store.VectorStores.{
  require_active_vector_store, refresh_vector_store_activity, unavailable, not_found, refresh_store,
}
use exais_vector_store.VectorStores.Changes.{delete, delete_found}
use exais_vector_store.Maintenance.{sweep}
use exais_vector_store.Lifecycle.{Steps, refreshed, swept, stop, next, List, Bool}
use exais_vector_store.Metadata.{string, description_key}
use exais_vector_store.VectorStores.Rows.{Attribute, value}
use exais_vector_store.VectorStores.Rendered.{
  Response, CreateRequest, attributes_from_create_request,
}
use exais_vector_store.VectorStores.{create, get, new_store, create_response}
use exais_vector_store.VectorStores.Described.{get-create, AreWithinSecond}
use exais_vector_store.VectorStores.Listing.{list}
use exais_vector_store.VectorStores.Pages.{IsPage, list-IsPage}
use exais_vector_store.Prelude.{length, ltb}
use exais_vector_store.Lifecycle.Kept.{IsRetired}
use exais_vector_store.Lifecycle.Retired.{Steps-IsRetired}
use exais_vector_store.Lifecycle.Gone.{delete-require_never}

abbrev pub caller : Principal
caller = record {
  tenant_id = codes "t";
  business_instance_id = some (codes "b");
  user_id = none;
  api_key_id = none;
  roles = [];
  groups = [];
  max_security_level = 5;
  scopes = codes "*" ∷ [];
  external_id = none;
}

abbrev pub store : VectorStore
store = record {
  id = codes "vs";
  tenant_id = codes "t";
  business_instance_id = codes "b";
  knowledge_base_id = none;
  name = codes "docs";
  status = StoreStatus.completed;
  attributes = [];
  expires_after = none;
  expires_at = some 50;
  last_active_at = 10;
  usage_bytes = 0;
  created_at = 10;
  deleted_at = none;
}

abbrev pub chunk : ChunkRow
chunk = record {
  id = codes "c";
  tenant_id = codes "t";
  business_instance_id = codes "b";
  vector_store_id = some (codes "vs");
  document_id = codes "d";
  document_version_id = codes "dv";
  text = codes "hello";
  active = true;
  dense_index_status = IndexStatus.indexed;
  sparse_index_status = IndexStatus.indexed;
  created_at = 11;
  deleted_at = none;
}

abbrev pub embedding : EmbeddingRow
embedding = record {
  chunk_id = codes "c";
  tenant_id = codes "t";
  business_instance_id = codes "b";
  embedding_profile_id = codes "bge";
  vector_collection = codes "col";
  vector_point_id = codes "pt";
}

abbrev pub tables : StoreTables
tables = record {
  stores = store ∷ [];
  files = [];
  chunks = chunk ∷ [];
  embeddings = embedding ∷ [];
  jobs = [];
  audit = [];
}

-- indexes that delete what they are asked for
abbrev pub indexes : Indexes Text
indexes = record {
  uses_qdrant = true;
  uses_opensearch = true;
  delete_points = λ collection ids. ok 1;
  delete_by_query = λ scope. ok 1;
}

abbrev job_id : Text → Text
job_id vs_id = codes "j"

abbrev used : StoreTables
used = (refresh_vector_store_activity casts 20 caller (codes "vs") (pos 5) tables).1

abbrev swept_tables : StoreTables
swept_tables = (sweep job_id 60 caller used).1

sweep_ids : (sweep job_id 60 caller used).0 ≡ codes "vs" ∷ []
unfolding sweep refresh_vector_store_activity refresh_store refreshed_expiry
sweep_ids = refl

history : Steps patterns casts indexes tables swept_tables
history =
    next tables used swept_tables (refreshed 20 caller (codes "vs") (pos 5) tables)
      (next used swept_tables swept_tables (swept job_id 60 caller used) (stop swept_tables))

Steps-IsRetired_run : IsRetired swept_tables
Steps-IsRetired_run =
    Steps-IsRetired patterns casts indexes tables swept_tables history ((refl, tt), tt)

deletes : (delete (codes "j") 30 caller (codes "vs") tables).0 ≡ true
unfolding delete delete_found
deletes = refl

delete-require_never_example :
    require_active_vector_store 90 caller
      (codes "vs")
      (sweep job_id 60 caller (delete (codes "j") 30 caller (codes "vs") tables).1).1
    ≡ err (unavailable (codes "vs") not_found)
delete-require_never_example =
    let gone : StoreTables = (delete (codes "j") 30 caller (codes "vs") tables).1 in
    delete-require_never patterns casts indexes caller (codes "vs") (codes "j") 30 90 tables
      (sweep job_id 60 caller gone).1 deletes
      (next gone (sweep job_id 60 caller gone).1 (sweep job_id 60 caller gone).1
        (swept job_id 60 caller gone) (stop (sweep job_id 60 caller gone).1))

Steps-HaveMoved_example : HaveMoved tables.stores swept_tables.stores
Steps-HaveMoved_example = Steps-HaveMoved patterns casts indexes tables swept_tables history

abbrev request : CreateRequest
request = record {
  name = some (codes "notes");
  description = some (codes "my notes");
  knowledge_base_id = none;
  attributes = (codes "team", string (codes "red")) ∷ [];
  metadata = none;
  expires_after = some (policy_fields 7);
  chunking_strategy = none;
}

abbrev created_attributes : List (Text × Attribute)
created_attributes =
    (codes "team", value (string (codes "red")))
    ∷ (description_key, value (string (codes "my notes")))
    ∷ []

abbrev created_store : VectorStore
created_store = new_store casts 12700000 caller (codes "n") created_attributes request

abbrev created_tables : StoreTables
created_tables = record tables { stores = store ∷ created_store ∷ [] }

creates :
    create patterns casts 12700000 caller (codes "n") request tables
    ≡ ok (create_response created_store request, created_tables)
unfolding create attributes_from_create_request overflows new_store
creates = refl

get-create_example :
    (r : Response) × (get caller (codes "n") created_tables ≡ some r)
    × (r.description ≡ some (codes "my notes"))
    × (r.name ≡ (create_response created_store request).name)
    × (r.metadata ≡ (create_response created_store request).metadata)
    × AreWithinSecond r.expires_at (create_response created_store request).expires_at
get-create_example =
    get-create patterns casts 12700000 caller (codes "n") (codes "b") (codes "my notes") request
      (create_response created_store request) tables created_tables (refl, tt) refl refl creates

-- the shorter id is first
abbrev shorter : Text → Text → Bool
shorter a b = ltb (length a) (length b)

list-IsPage_example :
    IsPage shorter
      (text_eq (map lower_ascii (codes "desc")) (codes "asc"))
      caller
      (pos 1)
      none
      none
      created_tables
      (list shorter caller (pos 1) none none (codes "desc") created_tables)
list-IsPage_example =
    list-IsPage shorter (λ x y first. ground (arith, first)) caller (pos 1) none none (codes "desc")
      created_tables
