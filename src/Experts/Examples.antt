-- ===== src/Experts/Examples.antt =====
-- A session with two messages and a tool call.
use exais_vector_store.Experts.{Expert, record_message, record_tool_call, or_empty}
use exais_vector_store.Experts.Sessions.{Identity, Session, create_or_resume, expert_session_key}
use exais_vector_store.Auth.Keys.Rows.{Principal}
use exais_vector_store.Experts.Rows.{SessionRow, SessionStatus, Entry, Message, Tables, empty}
use exais_vector_store.Interaction.{str, null}
use exais_vector_store.Prelude.Result.{ok, err}
use exais_vector_store.Prelude.Text.{Text, codes}
use exais_vector_store.Prelude.{ℕ, ◌++◌, [], List, some, none, map, ◌+◌, ◌≡◌, ◌∷◌, refl}

abbrev pub user : Text → Principal
user id = record {
  tenant_id = codes "t";
  business_instance_id = some (codes "b");
  user_id = some id;
  api_key_id = none;
  roles = [];
  groups = [];
  max_security_level = 3;
  scopes = [];
  external_id = none;
}

-- stand-ins for the digest and the ids
abbrev pub key_of : Identity → Text
key_of identity = identity.expert_id ++ or_empty identity.conversation_id

abbrev pub ids : Text → ℕ → Text
ids prefix n = prefix ++ (b'0' + n) ∷ []

abbrev pub no_rows : SessionRow
no_rows = record {
  id = [];
  scope = record { tenant_id = []; biz_id = []; api_key_id = none; user_id = none };
  expert_id = [];
  external_user_id = none;
  conversation_id = none;
  session_key = [];
  label = none;
  parent_session_id = none;
  status = SessionStatus.active;
  metadata = null;
  created_at = 0;
  updated_at = 0;
  last_active_at = 0;
}

abbrev pub no_session : Session
no_session = record {
  row = no_rows;
  messages = [];
  tool_calls = [];
  retrieval_runs = [];
  memory_events = [];
}

abbrev pub tables_of : {A : Type 0} → Expert (A × Tables) → Tables
tables_of (ok (a, t)) = t
tables_of (err problem) = empty

abbrev pub session_of : Expert (Session × Tables) → Session
session_of (ok (session, t)) = session
session_of (err problem) = no_session

abbrev pub opening : Expert (Session × Tables)
opening =
    create_or_resume key_of (codes "s") 5 (user (codes "ann")) (codes "tax") none (some (codes "c"))
      none null empty

pub opened : opening ≡ ok (session_of opening, tables_of opening)
unfolding create_or_resume expert_session_key
opened = refl

abbrev pub asking : Expert (Text × Tables)
asking =
    record_message (codes "m") 6 (user (codes "ann")) (codes "s") (codes "user")
      (str (codes "hello")) null (tables_of opening)

pub asked : asking ≡ ok (codes "m", tables_of asking)
unfolding record_message create_or_resume expert_session_key
asked = refl

abbrev pub answering : Expert (Text × Tables)
answering =
    record_message (codes "n") 7 (user (codes "ann")) (codes "s") (codes "assistant")
      (str (codes "hi")) null (tables_of asking)

pub answered : answering ≡ ok (codes "n", tables_of answering)
unfolding record_message create_or_resume expert_session_key
answered = refl

abbrev pub numbers : List (Entry Message) → List ℕ
numbers rows = map (λ row. row.sequence_no) rows

two_numbers : numbers (tables_of answering).messages ≡ 0 ∷ 1 ∷ []
unfolding record_message create_or_resume expert_session_key
two_numbers = refl

abbrev pub lookup : Expert (Text × Tables)
lookup =
    record_tool_call (codes "k") 8 (user (codes "ann")) (codes "s")
      (record {
        message_id = some (codes "n");
        tool_name = codes "search";
        status = codes "completed";
        input = null;
        output = null;
        error = none;
        completed_at = none;
      })
      (tables_of answering)

pub looked_up : lookup ≡ ok (codes "k", tables_of lookup)
unfolding record_tool_call record_message create_or_resume expert_session_key
looked_up = refl
