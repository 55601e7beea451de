-- ===== src/Experts.antt =====
-- Expert sessions and their histories, packages/svs_common/svs_common/expert_sessions.py. An operation
-- reads the tables and gives its value with the tables that it leaves, or raises; the caller does
-- not commit after a raise. Ids come from `new_id` and times from `now()`, both arguments; `digest` is
-- the SHA-256 of a key's JSON. Of the tables' constraints, the keys of expert_sessions are modelled,
-- and those of the rows that a fork adds; the others only refuse rows.
pub mod Rows
pub mod Sessions
pub mod Forks
pub mod Feedback
pub mod Memory
pub mod Candidates
pub mod Changes
pub mod Sequence
pub mod Numbered
pub mod Histories
pub mod Apart
pub mod Remembered
pub mod Promoted
pub mod Copied
pub mod Resumed
pub mod Examples
pub mod Witnesses
use exais_vector_store.Auth.Keys.Rows.{Principal, opt_eq, any_row, first_row}
use exais_vector_store.Experts.Rows.{
  Scope, SessionParams, SessionStatus, SessionRow, Entry, Message, ToolCall, RunPayload,
  RetrievalRun, MemoryEvent, Tables, same_scope, same_session, not_deleted, session_params,
  is_visible, rows_of,
}
use exais_vector_store.Interaction.{Json, Unsafe}
use exais_vector_store.Prelude.Result.{Result, ok, err, ◌>>=◌}
use exais_vector_store.Prelude.Text.{Text, codes, text_eq, contains, is_empty, strip, filter_by}
use exais_vector_store.Prelude.{
  ℕ, zero, suc, ◌+◌, max, Bool, true, false, List, [], ◌∷◌, ◌++◌, Option, none, some, ◌&&◌, ◌||◌,
  not, ltb, ◌==◌, if◌then◌else◌, map,
}

pub data ExpertError : Type 0 where
  -- ValueError: a field that is required, or another message
  missing invalid : Text → ExpertError
  -- ExpertInteractionSensitiveDataError
  unsafe : Unsafe → ExpertError
  -- ExpertSessionNotFound
  not_found : Text → ExpertError
  -- an IntegrityError of the database, and the RuntimeError of a fork
  constraint_violated not_visible : ExpertError

abbrev pub Expert : Type 0 → Type 0
Expert A = Result ExpertError A

-- `_required`
unfoldable pub required : Text → Text → Expert Text
unfolding strip
required value name =
    let normalized = strip value in
    if is_empty normalized then err (missing name) else ok normalized

abbrev pub none_if_empty : Text → Option Text
none_if_empty [] = none
none_if_empty (x ∷ t) = some (x ∷ t)

-- `_optional`
unfoldable pub optional : Option Text → Option Text
unfolding strip
optional none = none
optional (some value) = none_if_empty (strip value)

-- `value or ""`
abbrev pub or_empty : Option Text → Text
or_empty none = []
or_empty (some t) = t

unfoldable pub principal_scope : Principal → Expert Scope
unfolding required optional
principal_scope p = required p.tenant_id (codes "principal.tenant_id") >>= λ tenant_id.
    required (or_empty p.business_instance_id) (codes "principal.business_instance_id")
    >>= λ biz_id. ok (record {
      tenant_id = tenant_id;
      biz_id = biz_id;
      api_key_id = optional p.api_key_id;
      user_id = optional p.user_id;
    })

-- `_session_row`
unfoldable pub session_row : Principal → Text → Tables → Expert (Scope × Option SessionRow)
unfolding principal_scope required
session_row p session_id s = principal_scope p >>= λ scope.
    required session_id (codes "session_id") >>= λ id.
    ok (scope, first_row (is_visible scope id) s.sessions)

abbrev pub session_not_found : ExpertError
session_not_found = not_found (codes "expert session not found")

abbrev pub or_raise : {A : Type 0} → ExpertError → Option A → Expert A
or_raise problem none = err problem
or_raise problem (some a) = ok a

-- `_session_row` for an update, and the raise where there is none
unfoldable pub require_session : Principal → Text → Tables → Expert (Scope × SessionRow)
unfolding session_row
require_session p session_id s = session_row p session_id s >>= λ found.
    or_raise session_not_found found.1 >>= λ row. ok (found.0, row)

-- the conditions of `_touch_session`
abbrev pub is_session : SessionParams → SessionRow → Bool
is_session params row = same_session (session_params row.scope row) params

abbrev pub touched : ℕ → SessionRow → SessionRow
touched now row = record row { updated_at = now; last_active_at = now }

abbrev pub touch_if : (SessionRow → Bool) → ℕ → SessionRow → SessionRow
touch_if test now row = if test row then touched now row else row

unfoldable pub touch_session : SessionParams → ℕ → Tables → Tables
touch_session params now s = record s {
  sessions = map (touch_if (is_session params) now) s.sessions;
}

-- `max(sequence_no)`
unfoldable pub max_sequence : {A : Type 0} → List (Entry A) → Option ℕ
max_sequence [] = none
max_sequence (row ∷ rows) = elim (max_sequence rows) [
  | none ↦ some row.sequence_no
  | some n ↦ some (max row.sequence_no n)
]

-- `coalesce(n, -1) + 1`
abbrev pub one_more : Option ℕ → ℕ
one_more none = 0
one_more (some n) = n + 1

-- `_next_sequence`
unfoldable pub next_sequence : {A : Type 0} → SessionParams → List (Entry A) → ℕ
unfolding max_sequence rows_of
next_sequence params rows = one_more (max_sequence (rows_of params rows))

-- a row with the next number of its session
unfoldable pub next_entry : {A : Type 0} → Text → SessionParams → ℕ → A → List (Entry A) → Entry A
unfolding next_sequence
next_entry id params now body rows = record {
  id = id;
  owner = params;
  source = none;
  sequence_no = next_sequence params rows;
  created_at = now;
  body = body;
}

abbrev pub message_roles : List Text
message_roles = codes "system" ∷ codes "user" ∷ codes "assistant" ∷ codes "tool" ∷ []

-- `record_expert_message`
unfoldable pub record_message :
    Text → ℕ → Principal → Text → Text → Json → Json → Tables → Expert (Text × Tables)
unfolding required require_session next_entry touch_session
record_message id now p session_id role content metadata s =
    required role (codes "role") >>= λ role.
    if not (contains message_roles role)
    then err (invalid (codes "role must be system, user, assistant, or tool"))
    else (require_session p session_id s >>= λ found.
        let params = session_params found.0 found.1 in
        let body : Message = record { role = role; content = content; metadata = metadata } in
        ok (
          id,
          touch_session params now
              (record s { messages = s.messages ++ next_entry id params now body s.messages ∷ [] }),
        ))

abbrev pub tool_call_statuses : List Text
tool_call_statuses = codes "pending" ∷ codes "running" ∷ codes "completed" ∷ codes "failed" ∷ []

-- `CASE WHEN :status IN ('completed', 'failed') THEN now() END`
abbrev pub completed_at_for : Text → ℕ → Option ℕ
completed_at_for status now =
    if text_eq status (codes "completed") || text_eq status (codes "failed") then some now else none

-- `record_expert_tool_call`, of a call as the caller describes it
unfoldable pub record_tool_call :
    Text → ℕ → Principal → Text → ToolCall → Tables → Expert (Text × Tables)
unfolding required optional require_session next_entry touch_session
record_tool_call id now p session_id call s = required call.status (codes "status") >>= λ status.
    if not (contains tool_call_statuses status)
    then err (invalid (codes "invalid expert tool-call status"))
    else (require_session p session_id s >>= λ found.
        required call.tool_name (codes "tool_name") >>= λ tool_name.
        let params = session_params found.0 found.1 in
        let body : ToolCall = record call {
          message_id = optional call.message_id;
          tool_name = tool_name;
          status = status;
          completed_at = completed_at_for status now;
        } in
        ok (
          id,
          touch_session params now (record s {
            tool_calls = s.tool_calls ++ next_entry id params now body s.tool_calls ∷ [];
          }),
        ))

-- `record_expert_retrieval_run`
unfoldable pub record_retrieval_run :
    Text → ℕ → Principal → Text → RunPayload → Tables → Expert (Text × Tables)
unfolding optional require_session next_entry touch_session
record_retrieval_run id now p session_id payload s = require_session p session_id s >>= λ found.
    let params = session_params found.0 found.1 in
    let body : RetrievalRun = record {
      message_id = optional payload.message_id;
      tool_call_id = optional payload.tool_call_id;
      payload = payload;
    } in
    ok (
      id,
      touch_session params now (record s {
        retrieval_runs = s.retrieval_runs ++ next_entry id params now body s.retrieval_runs ∷ [];
      }),
    )
