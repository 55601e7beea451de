-- ===== src/VectorStores/Changes.antt =====
-- `update` and `delete` of VectorStoreRepository, vector_store_repo.py. A patch holds the fields that
-- were set; the inner `none` is an explicit null.
use exais_vector_store.Prelude.{
  ℕ, Bool, true, false, not, ◌&&◌, ◌||◌, List, [], ◌∷◌, Option, none, some, map, if◌then◌else◌,
}
use exais_vector_store.Prelude.Result.{Result, ok, ◌>>=◌, err}
use exais_vector_store.Prelude.Text.{Text, codes, text_eq, filter_by}
use exais_vector_store.Auth.Keys.Rows.{Principal, opt_eq, first_row}
use exais_vector_store.Metadata.{
  Value, Raw, Patterns, MetadataError, put, description_key, chunking_strategy_key,
  validate_openai_metadata,
}
use exais_vector_store.IndexCleanup.{enqueue_purge_stale_vectors}
use exais_vector_store.VectorStores.Rows.{
  StoreTables, VectorStore, StoreStatus, ChunkRow, IndexStatus, Attribute, owns, is_store,
}
use exais_vector_store.VectorStores.Policy.{ExpiryPolicy, Casts, expires_at_from_policy, overflows}
use exais_vector_store.VectorStores.Rendered.{
  Response, pop, to_attributes, description_attribute, strategy_attribute,
}
use exais_vector_store.VectorStores.{StoreError, as_store_error, is_deleted, get, date_overflow}

pub record Patch : Type 0 where
  pub name : Option Text
  pub attributes : Option Raw
  pub metadata : Option Raw
  pub description : Option (Option Text)
  pub chunking_strategy : Option (Option (List (Text × Value)))
  pub expires_after : Option (Option ExpiryPolicy)

abbrev pub either_set : Option Raw → Option Raw → Option Raw
either_set (some attributes) metadata = some attributes
either_set none metadata = metadata

abbrev pub is_internal : Text → Bool
is_internal key = text_eq key description_key || text_eq key chunking_strategy_key

-- `attrs.update(entries)`
unfoldable pub put_all : {A : Type 0} → List (Text × A) → List (Text × A) → List (Text × A)
unfolding put
put_all [] attrs = attrs
put_all ((k, v) ∷ entries) attrs = put_all entries (put k v attrs)

unfoldable pub replace_public :
    Patterns → Option Raw → List (Text × Attribute) → Result MetadataError (List (Text × Attribute))
unfolding put_all validate_openai_metadata
replace_public patterns none attrs = ok attrs
replace_public patterns (some raw) attrs = do
  public_attrs ← validate_openai_metadata patterns raw
  ok (put_all (to_attributes public_attrs) (filter_by (λ (k, v). is_internal k) attrs))

-- a field of the patch: absent, null or given
unfoldable pub change :
    Text → Option (Option Attribute) → List (Text × Attribute) → List (Text × Attribute)
unfolding put
change key none attrs = attrs
change key (some none) attrs = pop key attrs
change key (some (some a)) attrs = put key a attrs

abbrev pub map_some : {A B : Type 0} → (A → B) → Option A → Option B
map_some f none = none
map_some f (some a) = some (f a)

unfoldable pub patched_attributes :
    Patterns → Patch → List (Text × Attribute) → Result MetadataError (List (Text × Attribute))
unfolding replace_public change
patched_attributes patterns patch attrs = do
  replaced ← replace_public patterns (either_set patch.attributes patch.metadata) attrs
  ok (
      change chunking_strategy_key (map_some strategy_attribute patch.chunking_strategy)
        (change description_key (map_some description_attribute patch.description) replaced))

abbrev pub name_kept : Option Text → Text → Text
name_kept none name = name
name_kept (some new) name = new

-- the new expiry and its policy, where the patch has one
unfoldable pub set_expiry : Casts → ℕ → Option (Option ExpiryPolicy) → VectorStore → VectorStore
unfolding expires_at_from_policy
set_expiry casts now none s = s
set_expiry casts now (some policy) s = record s {
  expires_after = policy;
  expires_at = expires_at_from_policy casts policy now;
}

unfoldable pub patch_store :
    Casts → ℕ → Principal → Text → Patch → List (Text × Attribute) → VectorStore → VectorStore
unfolding set_expiry
patch_store casts now p id patch attrs s =
    if is_store p id s
    then set_expiry casts now patch.expires_after
        record s { name = name_kept patch.name s.name; attributes = attrs }
    else s

abbrev pub attributes_of : Option VectorStore → List (Text × Attribute)
attributes_of none = []
attributes_of (some s) = s.attributes

abbrev pub overflows_if_set : Casts → Option (Option ExpiryPolicy) → ℕ → Bool
overflows_if_set casts none now = false
overflows_if_set casts (some policy) now = overflows casts policy now

-- `update`; a patch that sets nothing leaves the attributes as they are
unfoldable pub update :
    Patterns
    → Casts
    → ℕ
    → Principal
    → Text
    → Patch
    → StoreTables
    → Result StoreError (Option Response × StoreTables)
unfolding patched_attributes patch_store get overflows
update patterns casts now p id patch t = do
  attrs ←
      as_store_error
        (patched_attributes patterns patch (attributes_of (first_row (is_store p id) t.stores)))
  let t2 : StoreTables = record t { stores = map (patch_store casts now p id patch attrs) t.stores }
  if overflows_if_set casts patch.expires_after now then err date_overflow else ok (get p id t2, t2)

unfoldable pub delete_store : ℕ → Principal → Text → VectorStore → VectorStore
delete_store now p id s =
    if is_store p id s then record s { status = StoreStatus.deleted; deleted_at = some now } else s

-- the chunks of a deleted store, the inactive ones too
unfoldable pub drop_chunk : ℕ → Principal → Text → ChunkRow → ChunkRow
drop_chunk now p id c =
    if owns p c.tenant_id c.business_instance_id && opt_eq c.vector_store_id (some id)
    then record c {
      active = false;
      deleted_at = some now;
      dense_index_status = IndexStatus.delete_queued;
      sparse_index_status = IndexStatus.delete_queued;
    }
    else c

unfoldable pub delete_found :
    Text → ℕ → Principal → Text → Option VectorStore → StoreTables → Bool × StoreTables
unfolding delete_store drop_chunk enqueue_purge_stale_vectors
delete_found job_id now p id none t = (false, t)
delete_found job_id now p id (some s) t =
    let gone : StoreTables = record t {
      stores = map (delete_store now p id) t.stores;
      chunks = map (drop_chunk now p id) t.chunks;
    } in
    (
      true,
      (enqueue_purge_stale_vectors job_id now p [] none (some id) (codes "vector_store_deleted")
          gone).1,
    )

-- `delete`, with the id that is drawn for the purge job
unfoldable pub delete : Text → ℕ → Principal → Text → StoreTables → Bool × StoreTables
unfolding delete_found
delete job_id now p id t =
    delete_found job_id now p id
      (first_row (λ s. is_store p id s && not (is_deleted s.status)) t.stores) t
