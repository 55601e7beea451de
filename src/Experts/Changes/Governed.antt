-- ===== src/Experts/Changes/Governed.antt =====
-- Feedback and memory change the tables in the ways of Experts.Changes alone.
use exais_vector_store.Experts.Changes.Made.{
  Changed, require_session-found, touch_session-SessionChange,
}
use exais_vector_store.Prelude.Int.{ℤ}
use exais_vector_store.Auth.Keys.Rows.{Principal}
use exais_vector_store.Prelude.Result.{ok, both_ok, past_guard, ok-inj}
use exais_vector_store.Experts.{touch_session, Tables, required, require_session, optional}
use exais_vector_store.Experts.Rows.{session_params}
use exais_vector_store.Experts.Candidates.{record_memory_event}
use exais_vector_store.Experts.Feedback.{
  put_redaction, put, record_feedback, record_governance_audit, feedback_types, lacks_message,
  is_rating, lacks_feedback, guarded, optional_json, fields_of,
}
use exais_vector_store.Experts.Memory.{governed, memory_types, is_confidence, event_id_or}
use exais_vector_store.Interaction.Guards.{Guard, Rule}
use exais_vector_store.Experts.Changes.{IsInert, field_at, unchanged, proposed, same_events}
use exais_vector_store.Interaction.{Json, Fields, obj, sanitize_data}
use exais_vector_store.Interaction.{boolean, str, end, field}
use exais_vector_store.Prelude.Text.{Text, codes, text_eq, text_eq_refl, text_eq_sound, contains}
use exais_vector_store.Prelude.{
  Option, ◌≡◌, false, ◌∙◌, some, arith, refl, none, Bool-cases, inl, if◌then◌else◌, ap, inr, Bool,
  List, ℕ, not, subst,
}

module _ (key : Text) (value : Json) where
  field_at-put : (fs : Fields) → field_at key (put key value fs) ≡ some value
  unfolding field_at put
  field_at-put end = ground (arith, text_eq_refl key)
  field_at-put (field k v fs) =
      let rest = field_at-put fs in
      let own = text_eq_refl key in
      elim (Bool-cases (text_eq k key)) [
        | inl hit ↦ rw (hit, if◌then◌else◌) (ground (arith, own))
        | inr miss ↦ rw (miss, if◌then◌else◌) (ground (arith, rest, miss))
      ]

  field_at-put_other :
      (other : Text) (fs : Fields)
      → text_eq key other ≡ false
      → field_at other (put key value fs) ≡ field_at other fs
  unfolding field_at put
  field_at-put_other other end apart = ground (arith, apart)
  field_at-put_other other (field k v fs) apart =
      let rest = field_at-put_other other fs apart in
      elim (Bool-cases (text_eq k key)) [
        | inl hit ↦
            let far : text_eq k other ≡ false =
              ap (λ t. text_eq t other) (text_eq_sound k key hit) ∙ apart in
            rw (hit, if◌then◌else◌) (ground (arith, apart, far))
        | inr miss ↦ rw (miss, if◌then◌else◌) (ground (arith, rest))
      ]

abbrev authority : Text
authority = codes "authority"

abbrev citation_eligible : Text
citation_eligible = codes "citation_eligible"

put_redaction-kept :
    (other : Text) (redaction : Option Guard) (fs : Fields)
    → text_eq (codes "redaction") other ≡ false
    → field_at other (put_redaction redaction fs) ≡ field_at other fs
put_redaction-kept other none fs apart = refl
put_redaction-kept other (some g) fs apart = field_at-put_other _ _ other fs apart

-- whatever the fields of the payload, those of a governed one come out
governed-IsInert :
    (type : Text) (redaction : Option Guard) (fs : Fields)
    → IsInert (obj (put_redaction redaction (governed type fs)))
unfolding IsInert governed
governed-IsInert type redaction fs =
    let typed = put (codes "memory_type") (str type) fs in
    let bound = put authority (str (codes "none")) typed in
    (
      put_redaction-kept authority redaction (governed type fs) refl
          ∙ field_at-put_other citation_eligible (boolean false) authority bound refl
          ∙ field_at-put authority (str (codes "none")) typed,
      put_redaction-kept citation_eligible redaction (governed type fs) refl
          ∙ field_at-put citation_eligible (boolean false) bound,
    )

pub record_feedback-Changed :
    (rules : List Rule) (assignment : Text → Text × ℕ) (id audit_id : Text) (now : ℕ)
    (p : Principal) (session_id type : Text) (rate : Option ℤ) (comment : Option Text)
    (payload : Fields) (message_id : Option Text) (s : Tables) {r : Text × Tables}
    → record_feedback rules assignment id audit_id now p session_id type rate comment payload
        message_id s
      ≡ ok r
    → Changed p s r.1
unfolding record_feedback touch_session record_governance_audit
record_feedback-Changed rules assignment id audit_id now p session_id type rate comment payload
      message_id s is =
    let (type, _, one) = both_ok _ (required type (codes "feedback_type")) is in
    let (_, two) = past_guard (not (contains feedback_types type)) _ _ one in
    let (found, read, three) = both_ok _ (require_session p session_id s) two in
    let (mine, _, _) = require_session-found p session_id s read in
    let params = session_params found.0 found.1 in
    let (_, four) = past_guard (lacks_message params (optional message_id) s) _ _ three in
    let (_, five) = past_guard (not (is_rating rate)) _ _ four in
    let (commented, _, six) =
      both_ok _ (guarded (sanitize_data rules assignment (optional_json comment))) five in
    let (cleaned, _, result) =
      both_ok _ (guarded (sanitize_data rules assignment (obj payload))) six in
    subst (λ r. Changed p s r.1) (ok-inj result)
      (
        found.0,
        mine,
        record {
          sessions = touch_session-SessionChange params now s.sessions;
          messages = unchanged;
          tool_calls = unchanged;
          retrieval_runs = unchanged;
          memory_events = same_events;
        },
      )

pub record_memory_event-Changed :
    (rules : List Rule) (assignment : Text → Text × ℕ) (is_cited : Text → Bool)
    (dumps : Json → Text) (id audit_id : Text) (now : ℕ) (p : Principal) (session_id type : Text)
    (payload : Fields) (confidence : Option ℤ) (message_id feedback_id event_id : Option Text)
    (s : Tables) {r : Text × Tables}
    → record_memory_event rules assignment is_cited dumps id audit_id now p session_id type payload
        confidence message_id feedback_id event_id s
      ≡ ok r
    → Changed p s r.1
unfolding record_memory_event touch_session record_governance_audit
record_memory_event-Changed rules assignment is_cited dumps id audit_id now p session_id type
      payload confidence message_id feedback_id event_id s is =
    let (type, _, one) = both_ok _ (required type (codes "event_type")) is in
    let (_, two) = past_guard (not (contains memory_types type)) _ _ one in
    let (_, three) = past_guard (not (is_confidence confidence)) _ _ two in
    let (found, read, four) = both_ok _ (require_session p session_id s) three in
    let (mine, _, _) = require_session-found p session_id s read in
    let params = session_params found.0 found.1 in
    let (_, five) = past_guard (lacks_message params (optional message_id) s) _ _ four in
    let (_, six) = past_guard (lacks_feedback params (optional feedback_id) s) _ _ five in
    let (cleaned, _, seven) =
      both_ok _ (guarded (sanitize_data rules assignment (obj payload))) six in
    let (_, eight) = past_guard (is_cited (dumps cleaned.0)) _ _ seven in
    let (event_id, _, result) = both_ok _ (event_id_or event_id id) eight in
    subst (λ r. Changed p s r.1) (ok-inj result)
      (
        found.0,
        mine,
        record {
          sessions = touch_session-SessionChange params now s.sessions;
          messages = unchanged;
          tool_calls = unchanged;
          retrieval_runs = unchanged;
          memory_events =
              proposed _ refl refl (governed-IsInert type cleaned.1 (fields_of cleaned.0));
        },
      )
