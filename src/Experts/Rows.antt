-- ===== src/Experts/Rows.antt =====
-- The tables of migrations/versions/003_expert_conversation_sessions.py, and what the queries of
-- packages/svs_common/svs_common/expert_sessions.py select from them. A time is a number; a confidence
-- is a whole number of millionths.
use exais_vector_store.Auth.Keys.Rows.{opt_eq}
use exais_vector_store.Interaction.{Json}
use exais_vector_store.Prelude.Int.{ℤ}
use exais_vector_store.Prelude.Text.{Text, text_eq, filter_by}
use exais_vector_store.Prelude.{ℕ, Bool, true, false, List, [], Option, ◌&&◌}

-- `_principal_scope`
pub record Scope : Type 0 where
  pub tenant_id : Text
  pub biz_id : Text
  pub api_key_id : Option Text
  pub user_id : Option Text

-- `_session_params`, the columns by which a row of a history belongs to a session
pub record SessionParams : Type 0 where
  pub scope : Scope
  pub session_id : Text
  pub session_key : Text
  pub expert_id : Text
  pub external_user_id : Option Text
  pub conversation_id : Option Text

pub data SessionStatus : Type 0 where
  active archived deleted : SessionStatus

pub record SessionRow : Type 0 where
  pub id : Text
  pub scope : Scope
  pub expert_id : Text
  pub external_user_id : Option Text
  pub conversation_id : Option Text
  pub session_key : Text
  pub label : Option Text
  pub parent_session_id : Option Text
  pub status : SessionStatus
  pub metadata : Json
  pub created_at : ℕ
  pub updated_at : ℕ
  pub last_active_at : ℕ

-- A numbered row of a history: `source` is the id of the row that it was copied from.
pub record Entry (A : Type 0) : Type 0 where
  pub id : Text
  pub owner : SessionParams
  pub source : Option Text
  pub sequence_no : ℕ
  pub created_at : ℕ
  pub body : A

pub record Message : Type 0 where
  pub role : Text
  pub content : Json
  pub metadata : Json

pub record ToolCall : Type 0 where
  pub message_id : Option Text
  pub tool_name : Text
  pub status : Text
  pub input : Json
  pub output : Json
  pub error : Option Text
  pub completed_at : Option ℕ

-- the payload of a retrieval run: the two fields that the code reads, and the others
pub record RunPayload : Type 0 where
  pub message_id : Option Text
  pub tool_call_id : Option Text
  pub others : Json

pub record RetrievalRun : Type 0 where
  pub message_id : Option Text
  pub tool_call_id : Option Text
  pub payload : RunPayload

pub record Feedback : Type 0 where
  pub id : Text
  pub owner : SessionParams
  pub message_id : Option Text
  pub feedback_type : Text
  pub rating : Option ℤ
  pub comment : Json
  pub payload : Json
  pub created_at : ℕ

pub data MemoryStatus : Type 0 where
  candidate promoted rejected deleted : MemoryStatus

pub record MemoryEvent : Type 0 where
  pub id : Text
  pub owner : SessionParams
  pub source_message_id : Option Text
  pub source_feedback_id : Option Text
  pub event_type : Text
  pub status : MemoryStatus
  pub payload : Json
  pub confidence : Option ℤ
  pub created_at : ℕ
  pub promoted_at : Option ℕ
  pub deleted_at : Option ℕ

pub record SessionFork : Type 0 where
  pub id : Text
  pub scope : Scope
  pub expert_id : Text
  pub external_user_id : Option Text
  pub conversation_id : Option Text
  pub parent_session_id : Text
  pub parent_session_key : Text
  pub child_session_id : Text
  pub child_session_key : Text
  pub label : Option Text

-- a row of audit_events of type `expert_governance`; the names of the session are in `session`
pub record GovernanceAudit : Type 0 where
  pub id : Text
  pub scope : Scope
  pub action : Text
  pub resource_type : Text
  pub resource_id : Text
  pub session : SessionParams
  pub metadata : Json

pub record Tables : Type 0 where
  pub sessions : List SessionRow
  pub messages : List (Entry Message)
  pub tool_calls : List (Entry ToolCall)
  pub retrieval_runs : List (Entry RetrievalRun)
  pub feedback : List Feedback
  pub memory_events : List MemoryEvent
  pub forks : List SessionFork
  pub audits : List GovernanceAudit

abbrev pub empty : Tables
empty = record {
  sessions = [];
  messages = [];
  tool_calls = [];
  retrieval_runs = [];
  feedback = [];
  memory_events = [];
  forks = [];
  audits = [];
}

abbrev pub same_scope : Scope → Scope → Bool
same_scope a b =
    text_eq a.tenant_id b.tenant_id
    && text_eq a.biz_id b.biz_id
    && opt_eq a.api_key_id b.api_key_id
    && opt_eq a.user_id b.user_id

-- the conditions on a row of a history
abbrev pub same_session : SessionParams → SessionParams → Bool
same_session a b =
    same_scope a.scope b.scope
    && text_eq a.expert_id b.expert_id
    && opt_eq a.external_user_id b.external_user_id
    && opt_eq a.conversation_id b.conversation_id
    && text_eq a.session_id b.session_id
    && text_eq a.session_key b.session_key

abbrev pub not_deleted : SessionStatus → Bool
not_deleted active = true
not_deleted archived = true
not_deleted deleted = false

abbrev pub session_params : Scope → SessionRow → SessionParams
session_params scope row = record {
  scope = scope;
  session_id = row.id;
  session_key = row.session_key;
  expert_id = row.expert_id;
  external_user_id = row.external_user_id;
  conversation_id = row.conversation_id;
}

-- the conditions of `_session_row`
abbrev pub is_visible : Scope → Text → SessionRow → Bool
is_visible scope session_id row =
    text_eq row.id session_id && same_scope row.scope scope && not_deleted row.status

module _ {A : Type 0} (params : SessionParams) where
  abbrev pub of_session : Entry A → Bool
  of_session row = same_session row.owner params

  unfoldable pub rows_of : List (Entry A) → List (Entry A)
  rows_of rows = filter_by of_session rows
