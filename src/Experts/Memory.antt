-- ===== src/Experts/Memory.antt =====
-- The memory events of a session, packages/svs_common/svs_common/expert_sessions.py, and their policy,
-- schemas.py. `is_cited` tells whether `OPENAI_CITATION_MARKER_RE` matches in a text, and `dumps` is
-- `json.dumps`.
use exais_vector_store.Auth.Keys.Rows.{Principal, first_row}
use exais_vector_store.Experts.{
  Expert, ExpertError, invalid, not_found, required, or_raise, require_session, touch_session,
}
use exais_vector_store.Experts.Feedback.{of_child, put, record_governance_audit}
use exais_vector_store.Experts.Rows.{
  SessionParams, MemoryEvent, MemoryStatus, Tables, session_params,
}
use exais_vector_store.Experts.Sessions.{memory_rows}
use exais_vector_store.Interaction.{Json, null, boolean, int, str, obj, Fields, end, field}
use exais_vector_store.Prelude.Int.{ℤ, pos, negsuc}
use exais_vector_store.Prelude.Result.{ok, err, ◌>>=◌}
use exais_vector_store.Prelude.Text.{Text, codes, contains}
use exais_vector_store.Prelude.{
  ℕ, Bool, true, false, List, [], ◌∷◌, Option, none, some, ◌&&◌, leb, ltb, map, not, if◌then◌else◌,
}

-- ExpertMemoryPolicy
pub record MemoryPolicy : Type 0 where
  pub enabled : Bool
  pub allowed_memory_types : List Text
  pub minimum_promotion_confidence : ℕ
  pub max_candidates_per_turn : ℕ
  pub promotion_requires_explicit_opt_in : Bool

-- `_EXPERT_MEMORY_TYPES`
abbrev pub memory_types : List Text
memory_types = codes "retrieval_strategy" ∷ codes "answer_style" ∷ codes "preference" ∷ []

-- `0 <= confidence <= 1`
abbrev pub is_confidence : Option ℤ → Bool
is_confidence none = false
is_confidence (some (pos n)) = leb n 1000000
is_confidence (some (negsuc n)) = false

-- `confidence is None or confidence < minimum`
abbrev pub is_below : ℕ → Option ℤ → Bool
is_below minimum none = true
is_below minimum (some (pos n)) = ltb n minimum
is_below minimum (some (negsuc n)) = true

abbrev pub event_id_or : Option Text → Text → Expert Text
event_id_or none id = ok id
event_id_or (some event_id) id = required event_id (codes "event_id")

abbrev pub confidence_json : Option ℤ → Json
confidence_json none = null
confidence_json (some i) = int i

-- the fields that a memory has whatever its payload says
unfoldable pub governed : Text → Fields → Fields
unfolding put
governed event_type payload = put (codes "citation_eligible") (boolean false) (
    put (codes "authority") (str (codes "none"))
      (put (codes "memory_type") (str event_type) payload))

abbrev pub citation_markers : ExpertError
citation_markers = invalid (codes "expert memory cannot contain citation markers")

-- the condition on a memory event of a session
abbrev pub is_memory_event : SessionParams → Text → MemoryEvent → Bool
is_memory_event params id event = of_child params id event.id event.owner

-- `_memory_event_row`, and the raise where there is none
unfoldable pub require_event : SessionParams → Text → Tables → Expert MemoryEvent
unfolding required
require_event params memory_event_id s =
    required memory_event_id (codes "memory_event_id") >>= λ id.
    or_raise (not_found (codes "expert memory event not found"))
      (first_row (is_memory_event params id) s.memory_events)

abbrev pub is_promoted : MemoryStatus → Bool
is_promoted MemoryStatus.promoted = true
is_promoted _ = false

abbrev pub is_candidate : MemoryStatus → Bool
is_candidate MemoryStatus.candidate = true
is_candidate _ = false

abbrev pub is_deleted : MemoryStatus → Bool
is_deleted MemoryStatus.deleted = true
is_deleted _ = false

abbrev pub promoted_event : ℕ → MemoryEvent → MemoryEvent
promoted_event now event = record event {
  status = MemoryStatus.promoted;
  promoted_at = some now;
  deleted_at = none;
}

abbrev pub tombstone : Text → Json
tombstone event_type = obj (
    field (codes "memory_type") (str event_type) (
      field (codes "authority") (str (codes "none")) (
        field (codes "citation_eligible") (boolean false)
          (field (codes "deleted") (boolean true) end))))

abbrev pub deleted_event : ℕ → Json → MemoryEvent → MemoryEvent
deleted_event now payload event = record event {
  status = MemoryStatus.deleted;
  payload = payload;
  deleted_at = some now;
}

abbrev pub change_if :
    (MemoryEvent → Bool) → (MemoryEvent → MemoryEvent) → MemoryEvent → MemoryEvent
change_if test change event = if test event then change event else event

-- the conditions of the update of a promotion
abbrev pub is_promotable : SessionParams → Text → MemoryEvent → Bool
is_promotable params id event = is_memory_event params id event && is_candidate event.status

abbrev pub event_not_found : ExpertError
event_not_found = not_found (codes "expert memory event not found")

-- `UPDATE expert_memory_events SET ... WHERE ... RETURNING`
unfoldable pub update_events :
    (MemoryEvent → Bool) → (MemoryEvent → MemoryEvent) → Tables → Expert (MemoryEvent × Tables)
update_events test change s = or_raise event_not_found (first_row test s.memory_events) >>= λ old.
    ok (change old, record s { memory_events = map (change_if test change) s.memory_events })

-- `promote_expert_memory_event`, once the row is read
unfoldable pub promote_row :
    Text → ℕ → SessionParams → MemoryPolicy → MemoryEvent → Tables → Expert (MemoryEvent × Tables)
unfolding update_events record_governance_audit touch_session
promote_row audit_id now params policy row s =
    let updated =
      update_events (is_promotable params row.id) (promoted_event now) s >>= λ (promoted, t).
      let metadata = obj (
        field (codes "memory_type") (str row.event_type) (
          field (codes "confidence") (confidence_json row.confidence) (
            field (codes "explicit_opt_in") (boolean true)
              (field (codes "citation_eligible") (boolean false) end)))) in
      ok (
        promoted,
        touch_session params now (
            record_governance_audit audit_id (codes "memory_promoted") (codes "expert_memory_event")
              row.id params metadata t),
      ) in
    if not (contains policy.allowed_memory_types row.event_type)
    then err (invalid (codes "memory candidate type is not allowed by policy"))
    else if is_below policy.minimum_promotion_confidence row.confidence
    then err (invalid (codes "memory candidate confidence is below promotion policy"))
    else if is_promoted row.status
    then ok (row, s)
    else if not (is_candidate row.status)
    then err (invalid (codes "only candidate memory can be promoted"))
    else updated

unfoldable pub promote :
    Text
    → ℕ
    → Principal
    → Text
    → Text
    → MemoryPolicy
    → Bool
    → Tables
    → Expert (MemoryEvent × Tables)
unfolding require_session require_event promote_row
promote audit_id now p session_id memory_event_id policy explicit_opt_in s =
    if not policy.enabled
    then err (invalid (codes "expert memory policy is disabled"))
    else if policy.promotion_requires_explicit_opt_in && not explicit_opt_in
    then err (invalid (codes "memory promotion requires explicit opt-in"))
    else (require_session p session_id s >>= λ found.
        let params = session_params found.0 found.1 in
        require_event params memory_event_id s >>= λ row.
        promote_row audit_id now params policy row s)

-- `delete_expert_memory_event`, once the row is read
unfoldable pub delete_row :
    Text → ℕ → SessionParams → MemoryEvent → Tables → Expert (MemoryEvent × Tables)
unfolding update_events record_governance_audit touch_session
delete_row audit_id now params row s =
    let updated =
      update_events (is_memory_event params row.id) (deleted_event now (tombstone row.event_type)) s
      >>= λ (deleted, t).
          let metadata = obj (
            field (codes "memory_type") (str row.event_type) (
              field (codes "payload_scrubbed") (boolean true)
                (field (codes "citation_eligible") (boolean false) end))) in
          ok (
            deleted,
            touch_session params now (
                record_governance_audit audit_id (codes "memory_deleted")
                  (codes "expert_memory_event") row.id params metadata t),
          ) in
    if is_deleted row.status then ok (row, s) else updated

unfoldable pub delete_event :
    Text → ℕ → Principal → Text → Text → Tables → Expert (MemoryEvent × Tables)
unfolding require_session require_event delete_row
delete_event audit_id now p session_id memory_event_id s =
    require_session p session_id s >>= λ found.
    let params = session_params found.0 found.1 in
    require_event params memory_event_id s >>= λ row. delete_row audit_id now params row s

-- `list_expert_memory_events`
unfoldable pub list_events : Principal → Text → Tables → Expert (List MemoryEvent)
unfolding require_session memory_rows
list_events p session_id s = require_session p session_id s >>= λ found.
    ok (memory_rows (session_params found.0 found.1) s.memory_events)
