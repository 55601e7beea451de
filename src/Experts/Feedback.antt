-- ===== src/Experts/Feedback.antt =====
-- Feedback on a session, and what a session's governance shares: `_scoped_child_exists`,
-- `_combined_guard_metadata`, `_record_governance_audit`, `record_expert_feedback` and
-- `get_expert_feedback_record` of packages/svs_common/svs_common/expert_sessions.py.
use exais_vector_store.Auth.Keys.Rows.{Principal, any_row, first_row}
use exais_vector_store.Experts.{
  Expert, invalid, unsafe, not_found, required, optional, session_row, require_session,
  touch_session,
}
use exais_vector_store.Experts.Rows.{
  Scope, SessionParams, SessionRow, Entry, Feedback, GovernanceAudit, Tables, same_session,
  session_params,
}
use exais_vector_store.Interaction.{
  Json, null, boolean, int, str, arr, obj, Items, nil, cons, Fields, end, field, Unsafe, found,
  sanitize_data,
}
use exais_vector_store.Interaction.Guards.{Guard, Redactions, Rule, merge_interaction_guards}
use exais_vector_store.Prelude.Int.{ℤ, pos, negsuc}
use exais_vector_store.Prelude.Result.{Result, ok, err, ◌>>=◌}
use exais_vector_store.Prelude.Text.{Text, codes, text_eq, contains}
use exais_vector_store.Prelude.{
  ℕ, Bool, true, false, List, [], ◌∷◌, ◌++◌, Option, none, some, ◌&&◌, leb, not, if◌then◌else◌,
}

abbrev pub of_child : SessionParams → Text → Text → SessionParams → Bool
of_child params record_id id owner = text_eq id record_id && same_session owner params

abbrev pub is_message : {A : Type 0} → SessionParams → Text → Entry A → Bool
is_message params record_id row = of_child params record_id row.id row.owner

abbrev pub is_feedback : SessionParams → Text → Feedback → Bool
is_feedback params record_id row = of_child params record_id row.id row.owner

-- a reference that is given and that no row of the session answers
unfoldable pub lacks_message : SessionParams → Option Text → Tables → Bool
lacks_message params none s = false
lacks_message params (some id) s = not (any_row (is_message params id) s.messages)

unfoldable pub lacks_feedback : SessionParams → Option Text → Tables → Bool
lacks_feedback params none s = false
lacks_feedback params (some id) s = not (any_row (is_feedback params id) s.feedback)

-- `_combined_guard_metadata`
unfoldable pub combined_guard : Option Guard → Option Guard → Option Guard
unfolding merge_interaction_guards
combined_guard a b = merge_interaction_guards (found a ++ found b)

unfoldable pub redactions_json : Redactions → Items
redactions_json [] = nil
redactions_json ((kind, n) ∷ redactions) =
    cons (obj (field (codes "type") (str kind) (field (codes "count") (int (pos n)) end)))
      (redactions_json redactions)

unfoldable pub guard_json : Guard → Json
unfolding redactions_json
guard_json g = obj (
    field (codes "id") (str g.id)
      (field (codes "redactions") (arr (redactions_json g.redactions)) end))

-- `{**fields, key: value}`
unfoldable pub put : Text → Json → Fields → Fields
put key value end = field key value end
put key value (field k v fs) =
    let rest = put key value fs in if text_eq k key then field k value fs else field k v rest

abbrev pub put_redaction : Option Guard → Fields → Fields
put_redaction none fs = fs
put_redaction (some g) fs = put (codes "redaction") (guard_json g) fs

abbrev pub fields_of : Json → Fields
fields_of (obj fs) = fs
fields_of _ = end

abbrev pub optional_json : Option Text → Json
optional_json none = null
optional_json (some t) = str t

abbrev pub is_some : {A : Type 0} → Option A → Bool
is_some none = false
is_some (some x) = true

abbrev pub guarded : {A : Type 0} → Result Unsafe A → Expert A
guarded (ok a) = ok a
guarded (err problem) = err (unsafe problem)

-- `_record_governance_audit`
unfoldable pub record_governance_audit :
    Text → Text → Text → Text → SessionParams → Json → Tables → Tables
record_governance_audit id action resource_type resource_id session metadata s =
    let audit : GovernanceAudit = record {
      id = id;
      scope = session.scope;
      action = action;
      resource_type = resource_type;
      resource_id = resource_id;
      session = session;
      metadata = metadata;
    } in
    record s { audits = s.audits ++ audit ∷ [] }

abbrev pub feedback_types : List Text
feedback_types =
    codes "helpful"
    ∷ codes "unhelpful"
    ∷ codes "correction"
    ∷ codes "preference"
    ∷ codes "rating"
    ∷ codes "other"
    ∷ []

abbrev pub is_rating : Option ℤ → Bool
is_rating none = true
is_rating (some (pos n)) = leb 1 n && leb n 5
is_rating (some (negsuc n)) = false

module _ (rules : List Rule) (assignment : Text → Text × ℕ) where
  -- `record_expert_feedback`; the payload is that of `payload or {}`
  unfoldable pub record_feedback :
      Text
      → Text
      → ℕ
      → Principal
      → Text
      → Text
      → Option ℤ
      → Option Text
      → Fields
      → Option Text
      → Tables
      → Expert (Text × Tables)
  unfolding required optional require_session touch_session lacks_message combined_guard put
      guard_json sanitize_data record_governance_audit
  record_feedback id audit_id now p session_id type rating comment payload message_id s =
      required type (codes "feedback_type") >>= λ type.
      if not (contains feedback_types type)
      then err (invalid (codes "unsupported expert feedback type"))
      else (require_session p session_id s >>= λ found.
          let params = session_params found.0 found.1 in
          let message = optional message_id in
          if lacks_message params message s
          then err (not_found (codes "expert feedback message not found"))
          else if not (is_rating rating)
          then err (invalid (codes "rating must be an integer between 1 and 5"))
          else (guarded (sanitize_data rules assignment (optional_json comment)) >>= λ commented.
              guarded (sanitize_data rules assignment (obj payload)) >>= λ cleaned.
              let redaction = combined_guard commented.1 cleaned.1 in
              let row : Feedback = record {
                id = id;
                owner = params;
                message_id = message;
                feedback_type = type;
                rating = rating;
                comment = commented.0;
                payload = obj (put_redaction redaction (fields_of cleaned.0));
                created_at = now;
              } in
              let metadata = obj (
                field (codes "feedback_type") (str type) (
                  field (codes "message_id") (optional_json message)
                    (field (codes "redacted") (boolean (is_some redaction)) end))) in
              ok (
                id,
                touch_session params now (
                    record_governance_audit audit_id (codes "feedback_created")
                      (codes "expert_feedback") id params metadata
                      (record s { feedback = s.feedback ++ row ∷ [] })),
              )))

-- `get_expert_feedback_record`
unfoldable pub feedback_of : Text → Scope → Option SessionRow → Tables → Expert (Option Feedback)
unfolding required
feedback_of feedback_id scope none s = ok none
feedback_of feedback_id scope (some row) s = required feedback_id (codes "feedback_id") >>= λ id.
    ok (first_row (is_feedback (session_params scope row) id) s.feedback)

unfoldable pub get_feedback : Principal → Text → Text → Tables → Expert (Option Feedback)
unfolding session_row feedback_of
get_feedback p session_id feedback_id s =
    session_row p session_id s >>= λ found. feedback_of feedback_id found.0 found.1 s
