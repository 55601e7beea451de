-- ===== src/Experts/Changes/Updated.antt =====
-- Promotions and deletions change the tables in the ways of Experts.Changes alone.
use exais_vector_store.Experts.Changes.Made.{
  touch_session-SessionChange, Changed, still, require_session-found,
}
use exais_vector_store.Auth.Keys.Rows.{first_row, Principal}
use exais_vector_store.Prelude.Result.{ok, ◌>>=◌, both_ok, ok-inj, branch_ok, past_guard}
use exais_vector_store.Experts.Changes.{MemoryChange, Change, unchanged, deleting, promoting}
use exais_vector_store.Experts.Feedback.{record_governance_audit}
use exais_vector_store.Experts.Memory.{
  update_events, change_if, event_not_found, promote_row, delete_row, promote, delete_event,
  MemoryPolicy, is_deleted, is_below, is_promoted, is_memory_event, require_event, is_candidate,
  deleted_event, is_promotable, tombstone, promoted_event,
}
use exais_vector_store.Experts.{touch_session, or_raise, require_session}
use exais_vector_store.Experts.Rows.{SessionParams, MemoryEvent, Tables, session_params}
use exais_vector_store.Interaction.{Json}
use exais_vector_store.Prelude.Text.{Text, codes, contains}
use exais_vector_store.Prelude.{ℕ, Bool, map, ◌≡◌, subst, ap, ◌∙◌, not, inl, ◌&&◌, inr, refl}

module _ (audit_id action resource : Text) (metadata : Json) (now : ℕ) (params : SessionParams)
    (test : MemoryEvent → Bool) (change : MemoryEvent → MemoryEvent) (s : Tables) where
  -- an update of the events, once it is recorded and the session touched
  unfoldable left : MemoryEvent × Tables → MemoryEvent × Tables
  unfolding touch_session record_governance_audit
  left (event, t) = (
    event,
    touch_session params now (
        record_governance_audit audit_id action (codes "expert_memory_event") resource params
          metadata t),
  )

  update-Change :
      MemoryChange params.scope s.memory_events (map (change_if test change) s.memory_events)
      → {r : MemoryEvent × Tables}
      → (update_events test change s >>= λ updated. ok (left updated)) ≡ ok r
      → Change params.scope s r.1
  unfolding update_events left
  update-Change changed is =
      let (updated, done, result) = both_ok _ (update_events test change s) is in
      let (old, _, found) =
        both_ok _ (or_raise event_not_found (first_row test s.memory_events)) done in
      subst (λ r. Change params.scope s r.1) (ap left (ok-inj found) ∙ ok-inj result)
        (record {
          sessions = touch_session-SessionChange params now s.sessions;
          messages = unchanged;
          tool_calls = unchanged;
          retrieval_runs = unchanged;
          memory_events = changed;
        })

pub promote_row-Change :
    (audit_id : Text) (now : ℕ) (params : SessionParams) (policy : MemoryPolicy) (row : MemoryEvent)
    (s : Tables) {r : MemoryEvent × Tables}
    → promote_row audit_id now params policy row s ≡ ok r
    → Change params.scope s r.1
unfolding promote_row left
promote_row-Change audit_id now params policy row s is =
    let (_, one) = past_guard (not (contains policy.allowed_memory_types row.event_type)) _ _ is in
    let (_, two) =
      past_guard (is_below policy.minimum_promotion_confidence row.confidence) _ _ one in
    elim (branch_ok (is_promoted row.status) _ _ two) [
      | inl (_, same) ↦ subst (λ r. Change params.scope s r.1) (ok-inj same) (still params.scope s)
      | inr (_, three) ↦
          let (_, four) = past_guard (not (is_candidate row.status)) _ _ three in
          update-Change audit_id _ row.id _ now params (is_promotable params row.id)
            (promoted_event now) s (promoting params row.id now refl) four
    ]

pub delete_row-Change :
    (audit_id : Text) (now : ℕ) (params : SessionParams) (row : MemoryEvent) (s : Tables)
    {r : MemoryEvent × Tables}
    → delete_row audit_id now params row s ≡ ok r
    → Change params.scope s r.1
unfolding delete_row left
delete_row-Change audit_id now params row s is = elim (branch_ok (is_deleted row.status) _ _ is) [
  | inl (_, same) ↦ subst (λ r. Change params.scope s r.1) (ok-inj same) (still params.scope s)
  | inr (_, updated) ↦
      update-Change audit_id _ row.id _ now params (is_memory_event params row.id)
        (deleted_event now (tombstone row.event_type)) s
        (deleting params row.id row.event_type now refl) updated
]

pub promote-Changed :
    (audit_id : Text) (now : ℕ) (p : Principal) (session_id event_id : Text) (policy : MemoryPolicy)
    (opt_in : Bool) (s : Tables) {r : MemoryEvent × Tables}
    → promote audit_id now p session_id event_id policy opt_in s ≡ ok r
    → Changed p s r.1
unfolding promote
promote-Changed audit_id now p session_id event_id policy opt_in s is =
    let (_, one) = past_guard (not policy.enabled) _ _ is in
    let (_, two) = past_guard (policy.promotion_requires_explicit_opt_in && not opt_in) _ _ one in
    let (found, read, three) = both_ok _ (require_session p session_id s) two in
    let (mine, _, _) = require_session-found p session_id s read in
    let params = session_params found.0 found.1 in
    let (row, _, result) = both_ok _ (require_event params event_id s) three in
    (found.0, mine, promote_row-Change audit_id now params policy row s result)

pub delete_event-Changed :
    (audit_id : Text) (now : ℕ) (p : Principal) (session_id event_id : Text) (s : Tables)
    {r : MemoryEvent × Tables}
    → delete_event audit_id now p session_id event_id s ≡ ok r
    → Changed p s r.1
unfolding delete_event
delete_event-Changed audit_id now p session_id event_id s is =
    let (found, read, one) = both_ok _ (require_session p session_id s) is in
    let (mine, _, _) = require_session-found p session_id s read in
    let params = session_params found.0 found.1 in
    let (row, _, result) = both_ok _ (require_event params event_id s) one in
    (found.0, mine, delete_row-Change audit_id now params row s result)
