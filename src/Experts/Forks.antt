-- ===== src/Experts/Forks.antt =====
-- `fork_expert_session` of packages/svs_common/svs_common/expert_sessions.py. `new_id` gives the id of
-- a prefix and a count, the place of a row among those that are copied.
use exais_vector_store.Auth.Keys.Rows.{Principal, any_row}
use exais_vector_store.Experts.{
  Expert, not_visible, optional, session_row, require_session, or_raise, constraint_violated,
}
use exais_vector_store.Experts.Rows.{
  Scope, SessionParams, SessionStatus, SessionRow, Entry, Message, ToolCall, RetrievalRun,
  SessionFork, Tables, session_params,
}
use exais_vector_store.Experts.Sessions.{
  Identity, Session, hydrate, insert_session, expert_session_key,
}
use exais_vector_store.Prelude.Result.{ok, ◌>>=◌, err}
use exais_vector_store.Prelude.Text.{Text, codes, text_eq}
use exais_vector_store.Prelude.{
  ℕ, suc, List, [], ◌∷◌, ◌++◌, Option, none, some, if◌then◌else◌, Bool, ◌||◌, false, ◌&&◌, ◌==◌,
}

-- `message_ids` and `tool_call_ids`
abbrev pub Ids : Type 0
Ids = List (Text × Text)

unfoldable pub get_text : Text → Ids → Option Text
get_text id [] = none
get_text id ((old, new) ∷ ids) =
    let rest = get_text id ids in if text_eq old id then some new else rest

-- `ids.get(id)`, where `None` is no key
unfoldable pub get_id : Ids → Option Text → Option Text
unfolding get_text
get_id ids none = none
get_id ids (some id) = get_text id ids

module _ (fresh : ℕ → Text) {A : Type 0} where
  unfoldable pub new_ids : ℕ → List (Entry A) → Ids
  new_ids n [] = []
  new_ids n (row ∷ rows) = (row.id, fresh n) ∷ new_ids (suc n) rows

  -- the loops that copy the rows of a history to the child
  unfoldable pub copies : SessionParams → ℕ → (A → A) → ℕ → List (Entry A) → List (Entry A)
  copies child now f n [] = []
  copies child now f n (row ∷ rows) =
      record {
        id = fresh n;
        owner = child;
        source = some row.id;
        sequence_no = row.sequence_no;
        created_at = now;
        body = f row.body;
      }
      ∷ copies child now f (suc n) rows

-- whether two rows cannot both be in a table: the id is its primary key, and the number is unique in
-- the session
abbrev pub shares_key : {A : Type 0} → Entry A → Entry A → Bool
shares_key a b =
    text_eq a.id b.id
    || (text_eq a.owner.scope.tenant_id b.owner.scope.tenant_id
        && text_eq a.owner.scope.biz_id b.owner.scope.biz_id
        && text_eq a.owner.session_id b.owner.session_id
        && (a.sequence_no == b.sequence_no))

unfoldable pub breaks_key : {A : Type 0} → List (Entry A) → Bool
breaks_key [] = false
breaks_key (row ∷ rows) = any_row (shares_key row) rows || breaks_key rows

-- the primary key of a fork, and its unique child
abbrev pub takes_fork_key : SessionFork → SessionFork → Bool
takes_fork_key new row =
    text_eq row.id new.id
    || (text_eq row.scope.tenant_id new.scope.tenant_id
        && text_eq row.scope.biz_id new.scope.biz_id
        && text_eq row.child_session_id new.child_session_id)

abbrev pub copied_message : Message → Message
copied_message body = body

unfoldable pub copied_call : Ids → ToolCall → ToolCall
unfolding get_id
copied_call message_ids body = record body { message_id = get_id message_ids body.message_id }

-- a field of the payload is mapped where it is neither missing nor empty
unfoldable pub copied_field : Ids → Option Text → Option Text
unfolding get_text
copied_field ids none = none
copied_field ids (some []) = some []
copied_field ids (some (x ∷ id)) = get_text (x ∷ id) ids

unfoldable pub copied_run : Ids → Ids → RetrievalRun → RetrievalRun
unfolding get_id copied_field
copied_run message_ids tool_call_ids body = record {
  message_id = get_id message_ids body.message_id;
  tool_call_id = get_id tool_call_ids body.tool_call_id;
  payload = record body.payload {
    message_id = copied_field message_ids body.payload.message_id;
    tool_call_id = copied_field tool_call_ids body.payload.tool_call_id;
  };
}

-- `parent['conversation_id'] or 'session'`
abbrev pub or_session : Option Text → Text
or_session none = codes "session"
or_session (some []) = codes "session"
or_session (some (x ∷ t)) = x ∷ t

-- `_optional(label) if label is not None else parent["label"]`
unfoldable pub child_label : Option Text → Option Text → Option Text
unfolding optional
child_label none inherited = inherited
child_label (some label) inherited = optional (some label)

abbrev pub child_conversation : SessionRow → Text → Text
child_conversation parent child_id = or_session parent.conversation_id ++ codes ":fork:" ++ child_id

module _ (new_id : Text → ℕ → Text) (now : ℕ) where
  -- the row of the child
  unfoldable pub child_row : Scope → SessionRow → Text → Option Text → SessionRow
  unfolding child_label
  child_row scope parent key label =
      let id = new_id (codes "exps") 0 in
      record {
        id = id;
        scope = scope;
        expert_id = parent.expert_id;
        external_user_id = parent.external_user_id;
        conversation_id = some (child_conversation parent id);
        session_key = key;
        label = child_label label parent.label;
        parent_session_id = some parent.id;
        status = SessionStatus.active;
        metadata = parent.metadata;
        created_at = now;
        updated_at = now;
        last_active_at = now;
      }

  unfoldable pub fork_row : SessionRow → SessionRow → SessionFork
  fork_row parent child = record {
    id = new_id (codes "exfork") 0;
    scope = child.scope;
    expert_id = parent.expert_id;
    external_user_id = parent.external_user_id;
    conversation_id = child.conversation_id;
    parent_session_id = parent.id;
    parent_session_key = parent.session_key;
    child_session_id = child.id;
    child_session_key = child.session_key;
    label = child.label;
  }

  -- the rows that are copied from what was read of the parent, and the row of the fork
  unfoldable pub copy_history : Session → SessionParams → SessionRow → Tables → Tables
  unfolding new_ids copies copied_call copied_run fork_row
  copy_history parent params child s =
      let message_ids = new_ids (new_id (codes "exmsg")) 0 parent.messages in
      let tool_call_ids = new_ids (new_id (codes "extool")) 0 parent.tool_calls in
      record s {
        messages =
            s.messages
            ++ copies (new_id (codes "exmsg")) params now copied_message 0 parent.messages;
        tool_calls =
            s.tool_calls
            ++ copies (new_id (codes "extool")) params now (copied_call message_ids) 0
                parent.tool_calls;
        retrieval_runs =
            s.retrieval_runs
            ++ copies (new_id (codes "exret")) params now (copied_run message_ids tool_call_ids) 0
                parent.retrieval_runs;
        forks = s.forks ++ fork_row parent.row child ∷ [];
      }

  -- the tables that a fork leaves, if no key of the rows that it adds is taken
  unfoldable pub insert_history : Session → SessionParams → SessionRow → Tables → Expert Tables
  unfolding copy_history
  insert_history parent params child s =
      let copied = copy_history parent params child s in
      if breaks_key copied.messages
        || breaks_key copied.tool_calls
        || breaks_key copied.retrieval_runs
        || any_row (takes_fork_key (fork_row parent.row child)) s.forks
      then err constraint_violated
      else ok copied

  unfoldable pub fork :
      (Identity → Text) → Principal → Text → Option Text → Tables → Expert (Session × Tables)
  unfolding require_session expert_session_key child_row insert_session insert_history hydrate
      session_row
  fork digest p session_id label s = require_session p session_id s >>= λ found.
      let parent = found.1 in
      let id = new_id (codes "exps") 0 in
      expert_session_key digest p parent.expert_id parent.external_user_id
        (some (child_conversation parent id))
      >>= λ key.
          let child = child_row found.0 parent key label in
          insert_session child s >>= λ inserted.
          let read = hydrate found.0 parent s in
          insert_history read (session_params found.0 child) child inserted >>= λ copied.
          session_row p id copied >>= λ seen.
          or_raise not_visible seen.1 >>= λ row. ok (hydrate seen.0 row copied, copied)
