-- ===== src/Experts/Sessions.antt =====
-- What creates, reads and forks a session, packages/svs_common/svs_common/expert_sessions.py.
-- `new_id` gives the id of a prefix and a count; a fork counts the rows that it copies.
use exais_vector_store.Retrieval.Sections.{text_lt}
use exais_vector_store.Auth.Keys.Rows.{Principal, opt_eq, any_row, first_row}
use exais_vector_store.Experts.{
  Expert, ExpertError, constraint_violated, not_found, required, optional, principal_scope,
  session_row, touch_if, touched,
}
use exais_vector_store.Experts.Rows.{
  Scope, SessionParams, SessionStatus, SessionRow, Entry, Message, ToolCall, RetrievalRun,
  MemoryEvent, Tables, same_session, not_deleted, session_params, rows_of,
}
use exais_vector_store.Interaction.{Json}
use exais_vector_store.Prelude.Result.{ok, err, ◌>>=◌}
use exais_vector_store.Prelude.Text.{Text, codes, text_eq, filter_by}
use exais_vector_store.Prelude.{
  ℕ, Bool, List, [], ◌∷◌, ◌++◌, Option, none, some, ◌&&◌, ◌||◌, ltb, ◌==◌, if◌then◌else◌, map,
}

-- what `expert_session_key` digests, at version 1
pub record Identity : Type 0 where
  pub scope : Scope
  pub expert_id : Text
  pub external_user_id : Option Text
  pub conversation_id : Option Text

-- `ORDER BY`
unfoldable pub insert_by : {A : Type 0} → (A → A → Bool) → A → List A → List A
insert_by before x [] = x ∷ []
insert_by before x (y ∷ ys) =
    let rest = insert_by before x ys in if before y x then y ∷ rest else x ∷ y ∷ ys

unfoldable pub sort_by : {A : Type 0} → (A → A → Bool) → List A → List A
unfolding insert_by
sort_by before [] = []
sort_by before (x ∷ xs) = insert_by before x (sort_by before xs)

-- `sequence_no ASC, id ASC`
unfoldable pub stands_first : {A : Type 0} → Entry A → Entry A → Bool
stands_first a b =
    ltb a.sequence_no b.sequence_no || ((a.sequence_no == b.sequence_no) && text_lt a.id b.id)

-- `_message_rows`, `_tool_call_rows` and `_retrieval_rows`
unfoldable pub history : {A : Type 0} → SessionParams → List (Entry A) → List (Entry A)
unfolding sort_by stands_first rows_of
history params rows = sort_by stands_first (rows_of params rows)

-- `created_at ASC, id ASC`
unfoldable pub happened_first : MemoryEvent → MemoryEvent → Bool
happened_first a b =
    ltb a.created_at b.created_at || ((a.created_at == b.created_at) && text_lt a.id b.id)

abbrev pub event_of : SessionParams → MemoryEvent → Bool
event_of params event = same_session event.owner params

-- `_memory_rows`
unfoldable pub memory_rows : SessionParams → List MemoryEvent → List MemoryEvent
unfolding sort_by happened_first
memory_rows params events = sort_by happened_first (filter_by (event_of params) events)

-- ExpertSession
pub record Session : Type 0 where
  pub row : SessionRow
  pub messages : List (Entry Message)
  pub tool_calls : List (Entry ToolCall)
  pub retrieval_runs : List (Entry RetrievalRun)
  pub memory_events : List MemoryEvent

-- `_hydrate_session`
unfoldable pub hydrate : Scope → SessionRow → Tables → Session
unfolding history memory_rows
hydrate scope row s =
    let params = session_params scope row in
    record {
      row = row;
      messages = history params s.messages;
      tool_calls = history params s.tool_calls;
      retrieval_runs = history params s.retrieval_runs;
      memory_events = memory_rows params s.memory_events;
    }

abbrev pub hydrate_if : Scope → Tables → Option SessionRow → Option Session
hydrate_if scope s none = none
hydrate_if scope s (some row) = some (hydrate scope row s)

-- `get_expert_session`
unfoldable pub get_session : Principal → Text → Tables → Expert (Option Session)
unfolding session_row
get_session p session_id s =
    session_row p session_id s >>= λ found. ok (hydrate_if found.0 s found.1)

-- the unique key (tenant_id, business_instance_id, session_key)
abbrev pub same_key : SessionRow → SessionRow → Bool
same_key new row =
    text_eq row.scope.tenant_id new.scope.tenant_id
    && text_eq row.scope.biz_id new.scope.biz_id
    && text_eq row.session_key new.session_key

abbrev pub has_session_id : SessionRow → SessionRow → Bool
has_session_id new row = text_eq row.id new.id

-- the conflict, with the conditions of `DO UPDATE`
abbrev pub is_resumed : SessionRow → SessionRow → Bool
is_resumed new row =
    same_key new row
    && opt_eq row.scope.api_key_id new.scope.api_key_id
    && opt_eq row.scope.user_id new.scope.user_id
    && text_eq row.expert_id new.expert_id
    && opt_eq row.external_user_id new.external_user_id
    && opt_eq row.conversation_id new.conversation_id
    && not_deleted row.status

-- the row that the insertion conflicts with, if any
unfoldable pub upsert_at :
    ℕ → SessionRow → Tables → Option SessionRow → Expert (Option SessionRow × Tables)
upsert_at now new s none =
    if any_row (has_session_id new) s.sessions
    then err constraint_violated
    else ok (some new, record s { sessions = s.sessions ++ new ∷ [] })
upsert_at now new s (some old) =
    if is_resumed new old
    then ok (
      some (touched now old),
      record s { sessions = map (touch_if (is_resumed new) now) s.sessions },
    )
    else ok (none, s)

-- `INSERT ... ON CONFLICT ... DO UPDATE ... RETURNING`
unfoldable pub upsert_session : ℕ → SessionRow → Tables → Expert (Option SessionRow × Tables)
unfolding upsert_at
upsert_session now new s = upsert_at now new s (first_row (same_key new) s.sessions)

unfoldable pub insert_session : SessionRow → Tables → Expert Tables
insert_session new s =
    if any_row (has_session_id new) s.sessions || any_row (same_key new) s.sessions
    then err constraint_violated
    else ok (record s { sessions = s.sessions ++ new ∷ [] })

abbrev pub scope_mismatch : ExpertError
scope_mismatch = not_found (codes "expert session scope does not match the caller")

unfoldable pub resumed : Scope → Option SessionRow × Tables → Expert (Session × Tables)
unfolding hydrate
resumed scope (none, s) = err scope_mismatch
resumed scope (some row, s) = ok (hydrate scope row s, s)

module _ (digest : Identity → Text) where
  unfoldable pub expert_session_key : Principal → Text → Option Text → Option Text → Expert Text
  unfolding principal_scope required optional
  expert_session_key p expert_id external_user_id conversation_id = principal_scope p >>= λ scope.
      required expert_id (codes "expert_id") >>= λ expert_id. ok (
        codes "expsk_"
        ++ digest (record {
          scope = scope;
          expert_id = expert_id;
          external_user_id = optional external_user_id;
          conversation_id = optional conversation_id;
        }))

  -- `create_or_resume_expert_session`
  unfoldable pub create_or_resume :
      Text
      → ℕ
      → Principal
      → Text
      → Option Text
      → Option Text
      → Option Text
      → Json
      → Tables
      → Expert (Session × Tables)
  unfolding principal_scope required optional expert_session_key upsert_session resumed
  create_or_resume id now p expert_id external_user_id conversation_id label metadata s =
      principal_scope p >>= λ scope. required expert_id (codes "expert_id") >>= λ expert_id.
      let external = optional external_user_id in
      let conversation = optional conversation_id in
      expert_session_key p expert_id external conversation >>= λ key.
      let new : SessionRow = record {
        id = id;
        scope = scope;
        expert_id = expert_id;
        external_user_id = external;
        conversation_id = conversation;
        session_key = key;
        label = optional label;
        parent_session_id = none;
        status = SessionStatus.active;
        metadata = metadata;
        created_at = now;
        updated_at = now;
        last_active_at = now;
      } in
      upsert_session now new s >>= resumed scope
