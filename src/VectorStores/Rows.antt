-- ===== src/VectorStores/Rows.antt =====
-- The rows that the vector stores, the purge and the sweep work on, db/migrations/001_initial.sql, as
-- lists. Times are seconds. A foreign key is the text of an id.
use exais_vector_store.Prelude.{ℕ, Bool, ◌&&◌, List, Option}
use exais_vector_store.Prelude.Text.{Text, text_eq}
use exais_vector_store.Auth.Keys.Rows.{Principal, opt_eq}
use exais_vector_store.Metadata.{Value}
use exais_vector_store.Worker.{Job}

pub data StoreStatus : Type 0 where
  active completed expired deleted : StoreStatus

-- an attribute is metadata, or the dict of a chunking strategy
pub data Attribute : Type 0 where
  value : Value → Attribute
  fields : List (Text × Value) → Attribute

pub record VectorStore : Type 0 where
  pub id : Text
  pub tenant_id : Text
  pub business_instance_id : Text
  pub knowledge_base_id : Option Text
  pub name : Text
  pub status : StoreStatus
  pub attributes : List (Text × Attribute)
  pub expires_after : Option (List (Text × Value))
  pub expires_at : Option ℕ
  pub last_active_at : ℕ
  pub usage_bytes : ℕ
  pub created_at : ℕ
  pub deleted_at : Option ℕ

pub data FileStatus : Type 0 where
  in_progress completed failed cancelled : FileStatus

-- a row of vector_store_files
pub record StoreFile : Type 0 where
  pub vector_store_id : Text
  pub tenant_id : Text
  pub business_instance_id : Text
  pub status : FileStatus

pub data IndexStatus : Type 0 where
  pending indexed delete_queued deleted : IndexStatus

pub record ChunkRow : Type 0 where
  pub id : Text
  pub tenant_id : Text
  pub business_instance_id : Text
  pub vector_store_id : Option Text
  pub document_id : Text
  pub document_version_id : Text
  pub text : Text
  pub active : Bool
  pub dense_index_status : IndexStatus
  pub sparse_index_status : IndexStatus
  pub created_at : ℕ
  pub deleted_at : Option ℕ

pub record EmbeddingRow : Type 0 where
  pub chunk_id : Text
  pub tenant_id : Text
  pub business_instance_id : Text
  pub embedding_profile_id : Text
  pub vector_collection : Text
  pub vector_point_id : Text

pub data Action : Type 0 where
  -- reason, versions, document, vector store, dense points and sparse documents deleted
  purge_stale_vectors : Text → List Text → Option Text → Option Text → ℕ → ℕ → Action
  -- the expired stores and the jobs that purge them
  expire_vector_stores : List Text → List Text → Action

-- a row of audit_events
pub record AuditEvent : Type 0 where
  pub tenant_id : Text
  pub business_instance_id : Option Text
  pub user_id : Option Text
  pub api_key_id : Option Text
  pub action : Action

pub record StoreTables : Type 0 where
  pub stores : List VectorStore
  pub files : List StoreFile
  pub chunks : List ChunkRow
  pub embeddings : List EmbeddingRow
  pub jobs : List Job
  pub audit : List AuditEvent

-- `tenant_id=:tenant_id AND business_instance_id=:biz_id`
abbrev pub owns : Principal → Text → Text → Bool
owns p tenant_id business_instance_id =
    text_eq tenant_id p.tenant_id
    && opt_eq (Option.some business_instance_id) p.business_instance_id

abbrev pub is_store : Principal → Text → VectorStore → Bool
is_store p id s = text_eq s.id id && owns p s.tenant_id s.business_instance_id
