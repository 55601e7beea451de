-- ===== src/Experts/Changes/Calls.antt =====
-- The calls of the module of sessions that change the tables, as steps between them.
use exais_vector_store.Auth.Keys.Rows.{Principal}
use exais_vector_store.Experts.{record_message, record_retrieval_run, record_tool_call}
use exais_vector_store.Experts.Candidates.{record_memory_event}
use exais_vector_store.Experts.Feedback.{record_feedback}
use exais_vector_store.Experts.Forks.{fork}
use exais_vector_store.Experts.Memory.{MemoryPolicy, delete_event, promote}
use exais_vector_store.Experts.Rows.{MemoryEvent, RunPayload, Tables, ToolCall}
use exais_vector_store.Experts.Sessions.{Identity, Session, create_or_resume}
use exais_vector_store.Interaction.{Json, Fields}
use exais_vector_store.Interaction.Guards.{Rule}
use exais_vector_store.Prelude.Int.{ℤ}
use exais_vector_store.Prelude.Result.{ok}
use exais_vector_store.Prelude.Text.{Text}
use exais_vector_store.Prelude.{ℕ, ◌≡◌, Bool, List, Option}

module _ (digest : Identity → Text) (rules : List Rule) (assignment : Text → Text × ℕ)
    (is_cited : Text → Bool) (dumps : Json → Text) where
  -- a call of a principal that returned
  pub data Call (p : Principal) : Tables → Tables → Type 0 where
    creating :
        (id : Text) (now : ℕ) (expert : Text) (external conversation label : Option Text)
        (metadata : Json) (session : Session) {s t : Tables}
        → create_or_resume digest id now p expert external conversation label metadata s
          ≡ ok (session, t)
        → Call p s t
    sending :
        (id : Text) (now : ℕ) (session_id role : Text) (content metadata : Json) (sent : Text)
        {s t : Tables}
        → record_message id now p session_id role content metadata s ≡ ok (sent, t)
        → Call p s t
    using_tool :
        (id : Text) (now : ℕ) (session_id : Text) (call : ToolCall) (used : Text) {s t : Tables}
        → record_tool_call id now p session_id call s ≡ ok (used, t)
        → Call p s t
    retrieving :
        (id : Text) (now : ℕ) (session_id : Text) (payload : RunPayload) (ran : Text) {s t : Tables}
        → record_retrieval_run id now p session_id payload s ≡ ok (ran, t)
        → Call p s t
    rating :
        (id audit_id : Text) (now : ℕ) (session_id type : Text) (rate : Option ℤ)
        (comment : Option Text) (payload : Fields) (message_id : Option Text) (rated : Text)
        {s t : Tables}
        → record_feedback rules assignment id audit_id now p session_id type rate comment payload
            message_id s
          ≡ ok (rated, t)
        → Call p s t
    proposing :
        (id audit_id : Text) (now : ℕ) (session_id type : Text) (payload : Fields)
        (confidence : Option ℤ) (message_id feedback_id event_id : Option Text) (proposed : Text)
        {s t : Tables}
        → record_memory_event rules assignment is_cited dumps id audit_id now p session_id type
            payload confidence message_id feedback_id event_id s
          ≡ ok (proposed, t)
        → Call p s t
    promoting :
        (audit_id : Text) (now : ℕ) (session_id event_id : Text) (policy : MemoryPolicy)
        (opt_in : Bool) (event : MemoryEvent) {s t : Tables}
        → promote audit_id now p session_id event_id policy opt_in s ≡ ok (event, t)
        → Call p s t
    deleting :
        (audit_id : Text) (now : ℕ) (session_id event_id : Text) (event : MemoryEvent)
        {s t : Tables}
        → delete_event audit_id now p session_id event_id s ≡ ok (event, t)
        → Call p s t
    forking :
        (new_id : Text → ℕ → Text) (now : ℕ) (session_id : Text) (label : Option Text)
        (child : Session) {s t : Tables}
        → fork new_id now digest p session_id label s ≡ ok (child, t)
        → Call p s t

  -- calls of any principals, one after the other
  pub data Calls : Tables → Tables → Type 0 where
    here : {s : Tables} → Calls s s
    then_call : (p : Principal) {s t u : Tables} → Calls s t → Call p t u → Calls s u
