-- ===== src/Experts/Candidates.antt =====
-- What makes a memory event: `record_expert_memory_event` and `extract_candidate_memory_events` of
-- packages/svs_common/svs_common/expert_sessions.py.
use exais_vector_store.Auth.Keys.Rows.{Principal}
use exais_vector_store.Experts.{
  Expert, invalid, not_found, required, optional, require_session, touch_session,
}
use exais_vector_store.Experts.Feedback.{
  fields_of, guarded, is_some, lacks_feedback, lacks_message, optional_json, put_redaction, put,
  record_governance_audit,
}
use exais_vector_store.Experts.Memory.{
  MemoryPolicy, memory_types, is_confidence, event_id_or, confidence_json, governed,
  citation_markers,
}
use exais_vector_store.Experts.Rows.{MemoryEvent, MemoryStatus, Tables, session_params}
use exais_vector_store.Interaction.{Json, boolean, str, obj, Fields, end, field, sanitize_data}
use exais_vector_store.Interaction.Guards.{Rule}
use exais_vector_store.Prelude.Int.{ℤ}
use exais_vector_store.Prelude.Result.{ok, err, ◌>>=◌}
use exais_vector_store.Prelude.Text.{Text, codes, contains}
use exais_vector_store.Prelude.{
  ℕ, suc, Bool, false, List, [], ◌∷◌, ◌++◌, Option, none, ltb, length, not, if◌then◌else◌,
}

-- ExpertMemoryCandidateInput
pub record Candidate : Type 0 where
  pub memory_type : Text
  pub instruction : Text
  pub confidence : ℕ

-- ExpertTurnRecord
pub record Turn : Type 0 where
  pub session_id : Text
  pub source_message_id : Option Text
  pub source_feedback_id : Option Text
  pub memory_candidates : List Candidate

-- ExpertMemoryEvent, as it is extracted
pub record ExtractedEvent : Type 0 where
  pub id : Text
  pub session_id : Text
  pub source_message_id : Option Text
  pub source_feedback_id : Option Text
  pub event_type : Text
  pub status : MemoryStatus
  pub payload : Json
  pub confidence : ℕ

abbrev pub text_of : Json → Text
text_of (str t) = t
text_of _ = []

module _ (rules : List Rule) (assignment : Text → Text × ℕ) (is_cited : Text → Bool)
    (dumps : Json → Text) where
  unfoldable pub record_memory_event :
      Text
      → Text
      → ℕ
      → Principal
      → Text
      → Text
      → Fields
      → Option ℤ
      → Option Text
      → Option Text
      → Option Text
      → Tables
      → Expert (Text × Tables)
  unfolding required optional require_session touch_session lacks_message lacks_feedback governed
      put record_governance_audit sanitize_data
  record_memory_event new_id audit_id now p session_id type payload confidence message_id
        feedback_id event_id s =
      required type (codes "event_type") >>= λ type.
      if not (contains memory_types type)
      then err (invalid (codes "unsupported expert memory type"))
      else if not (is_confidence confidence)
      then err (invalid (codes "confidence must be between 0 and 1"))
      else (require_session p session_id s >>= λ found.
          let params = session_params found.0 found.1 in
          let message = optional message_id in
          let feedback = optional feedback_id in
          if lacks_message params message s
          then err (not_found (codes "expert memory source message not found"))
          else if lacks_feedback params feedback s
          then err (not_found (codes "expert memory source feedback not found"))
          else (guarded (sanitize_data rules assignment (obj payload)) >>= λ cleaned.
              if is_cited (dumps cleaned.0)
              then err citation_markers
              else (event_id_or event_id new_id >>= λ id.
                  let row : MemoryEvent = record {
                    id = id;
                    owner = params;
                    source_message_id = message;
                    source_feedback_id = feedback;
                    event_type = type;
                    status = MemoryStatus.candidate;
                    payload = obj (put_redaction cleaned.1 (governed type (fields_of cleaned.0)));
                    confidence = confidence;
                    created_at = now;
                    promoted_at = none;
                    deleted_at = none;
                  } in
                  let metadata = obj (
                    field (codes "memory_type") (str type) (
                      field (codes "source_message_id") (optional_json message) (
                        field (codes "source_feedback_id") (optional_json feedback) (
                          field (codes "confidence") (confidence_json confidence) (
                            field (codes "redacted") (boolean (is_some cleaned.1))
                              (field (codes "citation_eligible") (boolean false) end)))))) in
                  ok (
                    id,
                    touch_session params now (
                        record_governance_audit audit_id (codes "memory_candidate_created")
                          (codes "expert_memory_event") id params metadata
                          (record s { memory_events = s.memory_events ++ row ∷ [] })),
                  ))))

  -- the body of the loop over the candidates of a turn
  unfoldable pub extract_one : Text → Turn → MemoryPolicy → Candidate → Expert ExtractedEvent
  unfolding put sanitize_data
  extract_one id turn policy candidate =
      if not (contains policy.allowed_memory_types candidate.memory_type)
      then err (invalid (codes "memory candidate type is not allowed by policy"))
      else (guarded (sanitize_data rules assignment (str candidate.instruction)) >>= λ cleaned.
          if is_cited (text_of cleaned.0)
          then err citation_markers
          else let payload = field (codes "memory_type") (str candidate.memory_type) (
              field (codes "instruction") cleaned.0 (
                field (codes "authority") (str (codes "none"))
                  (field (codes "citation_eligible") (boolean false) end))) in
            ok (record {
              id = id;
              session_id = turn.session_id;
              source_message_id = turn.source_message_id;
              source_feedback_id = turn.source_feedback_id;
              event_type = candidate.memory_type;
              status = MemoryStatus.candidate;
              payload = obj (put_redaction cleaned.1 payload);
              confidence = candidate.confidence;
            }))

  unfoldable pub extract_each :
      (ℕ → Text) → ℕ → Turn → MemoryPolicy → List Candidate → Expert (List ExtractedEvent)
  unfolding extract_one
  extract_each fresh n turn policy [] = ok []
  extract_each fresh n turn policy (candidate ∷ candidates) =
      let rest = extract_each fresh (suc n) turn policy candidates in
      extract_one (fresh n) turn policy candidate >>= λ event.
      rest >>= λ events. ok (event ∷ events)

  -- `extract_candidate_memory_events`
  unfoldable pub extract_candidates :
      (ℕ → Text) → Turn → MemoryPolicy → Expert (List ExtractedEvent)
  unfolding extract_each
  extract_candidates fresh turn policy =
      if not policy.enabled
      then ok []
      else if ltb policy.max_candidates_per_turn (length turn.memory_candidates)
      then err (invalid (codes "memory candidate count exceeds policy"))
      else extract_each fresh 0 turn policy turn.memory_candidates
