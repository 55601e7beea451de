-- ===== src/Experts/Changes/Within.antt =====
-- Every call is a change within the scope of its principal.
use exais_vector_store.Auth.Keys.Rows.{Principal}
use exais_vector_store.Experts.Changes.Calls.{
  Call, creating, deleting, forking, promoting, proposing, rating, retrieving, sending, using_tool,
}
use exais_vector_store.Experts.Changes.Governed.{
  record_feedback-Changed, record_memory_event-Changed,
}
use exais_vector_store.Experts.Changes.Made.{
  Changed, record_message-Changed, record_retrieval_run-Changed, record_tool_call-Changed,
}
use exais_vector_store.Experts.Changes.Opened.{create_or_resume-Changed, fork-Changed}
use exais_vector_store.Experts.Changes.Updated.{delete_event-Changed, promote-Changed}
use exais_vector_store.Experts.Rows.{Tables}
use exais_vector_store.Experts.Sessions.{Identity}
use exais_vector_store.Interaction.Guards.{Rule}
use exais_vector_store.Interaction.{Json}
use exais_vector_store.Prelude.Text.{Text}
use exais_vector_store.Prelude.{ℕ, Bool, List}

module _ (digest : Identity → Text) (rules : List Rule) (assignment : Text → Text × ℕ)
    (is_cited : Text → Bool) (dumps : Json → Text) where
  pub Call-Changed :
      (p : Principal) (s t : Tables)
      → Call digest rules assignment is_cited dumps p s t
      → Changed p s t
  Call-Changed p s t (creating id now expert external conversation label metadata session is) =
      create_or_resume-Changed digest id now p expert external conversation label metadata s is
  Call-Changed p s t (sending id now session_id role content metadata sent is) =
      record_message-Changed id now p session_id role content metadata s is
  Call-Changed p s t (using_tool id now session_id call used is) =
      record_tool_call-Changed id now p session_id call s is
  Call-Changed p s t (retrieving id now session_id payload ran is) =
      record_retrieval_run-Changed id now p session_id payload s is
  Call-Changed p s t
        (rating id audit_id now session_id type rate comment payload message_id rated is) =
      record_feedback-Changed rules assignment id audit_id now p session_id type rate comment
        payload message_id s is
  Call-Changed p s t
        (proposing id audit_id now session_id type payload confidence message_id feedback_id
          event_id proposed is) =
      record_memory_event-Changed rules assignment is_cited dumps id audit_id now p session_id type
        payload confidence message_id feedback_id event_id s is
  Call-Changed p s t (promoting audit_id now session_id event_id policy opt_in event is) =
      promote-Changed audit_id now p session_id event_id policy opt_in s is
  Call-Changed p s t (deleting audit_id now session_id event_id event is) =
      delete_event-Changed audit_id now p session_id event_id s is
  Call-Changed p s t (forking new_id now session_id label child is) =
      fork-Changed new_id now digest p session_id label s is
