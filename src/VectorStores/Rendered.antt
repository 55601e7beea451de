-- ===== src/VectorStores/Rendered.antt =====
-- What the API says of a vector store, vector_store_repo.py in packages/svs_common/svs_common: the
-- public metadata, the description and the counts of its files. The response lists the metadata and
-- the bytes twice, under two names; here once.
use mathlib.Core.Option
use exais_vector_store.Prelude.{
  ℕ, Bool, true, false, not, ◌&&◌, List, [], ◌∷◌, Option, none, some, map, if◌then◌else◌, length,
  ◌+◌, ◌/◌,
}
use exais_vector_store.Prelude.Result.{Result, ok, ◌>>=◌}
use exais_vector_store.Prelude.Text.{Text, text_eq, filter_by}
use exais_vector_store.Metadata.{
  Value, Raw, Patterns, MetadataError, string, null, boolean, integer, real, nonfinite, nested,
  object, put, description_key, chunking_strategy_key, validate_openai_metadata,
}
use exais_vector_store.VectorStores.Rows.{
  VectorStore, StoreFile, StoreStatus, FileStatus, Attribute, value, fields, in_progress, completed,
  failed, cancelled,
}
use exais_vector_store.VectorStores.Policy.{ExpiryPolicy}

pub record FileCounts : Type 0 where
  pub in_progress : ℕ
  pub completed : ℕ
  pub failed : ℕ
  pub cancelled : ℕ
  pub total : ℕ

abbrev pub zero_file_counts : FileCounts
zero_file_counts = record { in_progress = 0; completed = 0; failed = 0; cancelled = 0; total = 0 }

pub record Response : Type 0 where
  pub id : Text
  pub name : Text
  pub description : Option Text
  pub status : StoreStatus
  pub usage_bytes : ℕ
  pub file_counts : FileCounts
  pub metadata : List (Text × Attribute)
  pub created_at : Option ℕ
  pub expires_after : Option ExpiryPolicy
  pub expires_at : Option ℕ
  pub last_active_at : Option ℕ

-- `attrs.pop(key, None)`
abbrev pub pop : {A : Type 0} → Text → List (Text × A) → List (Text × A)
pop key entries = filter_by (λ (k, v). not (text_eq k key)) entries

-- `attrs.get(key)`
abbrev pub get_attribute : Text → List (Text × Attribute) → Option Attribute
get_attribute key [] = none
get_attribute key ((k, a) ∷ entries) =
    let rest = get_attribute key entries in if text_eq k key then some a else rest

abbrev pub text_of : Option Attribute → Option Text
text_of (some (value (string t))) = some t
text_of (some (value null)) = none
text_of (some (value (boolean b))) = none
text_of (some (value (integer i))) = none
text_of (some (value (real r))) = none
text_of (some (value nonfinite)) = none
text_of (some (value nested)) = none
text_of (some (fields d)) = none
text_of none = none

-- `_openai_public_metadata`
unfoldable pub openai_public_metadata : List (Text × Attribute) → List (Text × Attribute)
openai_public_metadata attributes = pop chunking_strategy_key (pop description_key attributes)

unfoldable pub put_some :
    Text → Option Attribute → List (Text × Attribute) → List (Text × Attribute)
unfolding put
put_some key none attrs = attrs
put_some key (some a) attrs = put key a attrs

pub record CreateRequest : Type 0 where
  pub name : Option Text
  pub description : Option Text
  pub knowledge_base_id : Option Text
  pub attributes : List (Text × Value)
  pub metadata : Option (List (Text × Value))
  pub expires_after : Option ExpiryPolicy
  pub chunking_strategy : Option (List (Text × Value))

abbrev pub metadata_or : Option (List (Text × Value)) → List (Text × Value) → Raw
metadata_or (some metadata) attributes = object metadata
metadata_or none attributes = object attributes

abbrev pub to_attributes : List (Text × Value) → List (Text × Attribute)
to_attributes entries = map (λ (k, v). (k, value v)) entries

abbrev pub description_attribute : Option Text → Option Attribute
description_attribute none = none
description_attribute (some t) = some (value (string t))

abbrev pub strategy_attribute : Option (List (Text × Value)) → Option Attribute
strategy_attribute none = none
strategy_attribute (some d) = some (fields d)

-- `_attributes_from_create_request`
unfoldable pub attributes_from_create_request :
    Patterns → CreateRequest → Result MetadataError (List (Text × Attribute))
unfolding validate_openai_metadata put_some
attributes_from_create_request patterns req = do
  attrs ← validate_openai_metadata patterns (metadata_or req.metadata req.attributes)
  ok (
      put_some chunking_strategy_key (strategy_attribute req.chunking_strategy)
        (put_some description_key (description_attribute req.description) (to_attributes attrs)))

abbrev pub has_status : FileStatus → FileStatus → Bool
has_status in_progress in_progress = true
has_status completed completed = true
has_status failed failed = true
has_status cancelled cancelled = true
has_status _ _ = false

-- the rows of vector_store_files that are joined to a store
abbrev pub files_of : VectorStore → List StoreFile → List StoreFile
files_of s files =
    filter_by
      (λ f.
        text_eq f.vector_store_id s.id
        && text_eq f.tenant_id s.tenant_id
        && text_eq f.business_instance_id s.business_instance_id)
      files

unfoldable pub file_counts_of : VectorStore → List StoreFile → FileCounts
file_counts_of s files =
    let mine = files_of s files in
    let count : FileStatus → ℕ =
      λ status. length (filter_by (λ f. has_status f.status status) mine) in
    record {
      in_progress = count in_progress;
      completed = count completed;
      failed = count failed;
      cancelled = count cancelled;
      total = length mine;
    }

abbrev pub or_none : Option ExpiryPolicy → Option ExpiryPolicy
or_none (some []) = none
or_none (some (entry ∷ policy)) = some (entry ∷ policy)
or_none none = none

-- `extract(epoch from ...)::bigint`, which rounds
abbrev pub epoch : ℕ → ℕ
epoch t = (t + 500000) / 1000000

-- `_vector_store_response_from_row`, of a row joined with the counts of its files
unfoldable pub vector_store_response_from_row : List StoreFile → VectorStore → Response
unfolding openai_public_metadata file_counts_of
vector_store_response_from_row files row = record {
  id = row.id;
  name = row.name;
  description = text_of (get_attribute description_key row.attributes);
  status = row.status;
  usage_bytes = row.usage_bytes;
  file_counts = file_counts_of row files;
  metadata = openai_public_metadata row.attributes;
  created_at = some (epoch row.created_at);
  expires_after = or_none row.expires_after;
  expires_at = Option.map epoch row.expires_at;
  last_active_at = some (epoch row.last_active_at);
}
