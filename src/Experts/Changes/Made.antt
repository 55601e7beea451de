-- ===== src/Experts/Changes/Made.antt =====
-- Each call changes the tables in the ways of Experts.Changes alone, within its principal's scope.
use exais_vector_store.Interaction.{Json}
use exais_vector_store.Prelude.Result.{ok, ok-inj, both_ok, past_guard}
use exais_vector_store.Experts.Changes.{
  SessionChange, IsKnown, touching, with_id, Change, unchanged, recorded, same_events,
  same_sessions,
}
use exais_vector_store.Auth.Keys.Rows.{Principal, first_row, any_row}
use exais_vector_store.Experts.Rows.{
  SessionParams, SessionRow, is_visible, same_scope, ToolCall, RunPayload, session_params,
}
use exais_vector_store.Experts.{
  ExpertError, require_session, Scope, session_row, or_raise, Tables, principal_scope, touch_if,
  is_session, ◌∷◌, required, session_not_found, record_message, record_tool_call,
  record_retrieval_run, touch_session, next_entry, message_roles, tool_call_statuses,
}
use exais_vector_store.Prelude.Text.{Text, codes, text_eq_refl, contains}
use exais_vector_store.Prelude.{
  ℕ, Option, List, ◌≡◌, map, some, ap, true, arith, none, Bool-cases, inl, subst, ◌∙◌, inr, [], not,
  refl,
}

first_row-IsKnown :
    (scope : Scope) (id : Text) (rows : List SessionRow) (row : SessionRow)
    → first_row (is_visible scope id) rows ≡ some row
    → IsKnown row.id rows × (same_scope row.scope scope ≡ true)
first_row-IsKnown scope id [] row found = cc
first_row-IsKnown scope id (x ∷ rows) row found = elim (Bool-cases (is_visible scope id x)) [
  | inl hit ↦
      let same : x ≡ row = ground (arith, hit, found) in
      let own = text_eq_refl x.id in
      let inside : same_scope x.scope scope ≡ true = ground (arith, hit) in
      subst (λ r. (any_row (with_id r.id) (x ∷ rows) ≡ true) × (same_scope r.scope scope ≡ true))
        same (ground (arith, own), inside)
  | inr miss ↦
      let (known, inside) = first_row-IsKnown scope id rows row (ground (arith, miss, found)) in
      (ground (arith, known), inside)
]

pub or_raise-ok :
    {A : Type 0} (problem : ExpertError) (o : Option A) {a : A}
    → or_raise problem o ≡ ok a
    → o ≡ some a
or_raise-ok problem none is = cc
or_raise-ok problem (some x) is = ap some (ok-inj is)

-- what a session that was found is
pub require_session-found :
    (p : Principal) (session_id : Text) (s : Tables) {found : Scope × SessionRow}
    → require_session p session_id s ≡ ok found
    → (principal_scope p ≡ ok found.0)
      × IsKnown found.1.id s.sessions
      × (same_scope found.1.scope found.0 ≡ true)
unfolding require_session session_row
require_session-found p session_id s is =
    let (seen, row, rest) = both_ok _ (session_row p session_id s) is in
    let (scope, mine, next) = both_ok _ (principal_scope p) row in
    let (id, _, read) = both_ok _ (required session_id (codes "session_id")) next in
    let (found, one, result) = both_ok _ (or_raise session_not_found seen.1) rest in
    let here = or_raise-ok session_not_found seen.1 one in
    let same = ok-inj read in
    let (known, inside) = first_row-IsKnown scope id s.sessions found (ap (λ x. x.1) same ∙ here) in
    subst
      (λ f.
        (principal_scope p ≡ ok f.0)
        × IsKnown f.1.id s.sessions
        × (same_scope f.1.scope f.0 ≡ true))
      (ok-inj result)
      (
        mine ∙ ap (λ x. ok x.0) same,
        known,
        subst (λ c. same_scope found.scope c ≡ true) (ap (λ x. x.0) same) inside,
      )

pub touch_session-SessionChange :
    (params : SessionParams) (now : ℕ) (rows : List SessionRow)
    → SessionChange params.scope rows (map (touch_if (is_session params) now) rows)
touch_session-SessionChange params now rows =
    touching (is_session params) now (λ row hit. ground (arith, hit))

-- a change within the scope of the principal
abbrev pub Changed : Principal → Tables → Tables → Type 0
Changed p s t = (scope : Scope) × (principal_scope p ≡ ok scope) × Change scope s t

pub still : (scope : Scope) (s : Tables) → Change scope s s
still scope s = record {
  sessions = same_sessions;
  messages = unchanged;
  tool_calls = unchanged;
  retrieval_runs = unchanged;
  memory_events = same_events;
}

pub record_message-Changed :
    (id : Text) (now : ℕ) (p : Principal) (session_id role : Text) (content metadata : Json)
    (s : Tables) {r : Text × Tables}
    → record_message id now p session_id role content metadata s ≡ ok r
    → Changed p s r.1
unfolding record_message touch_session next_entry
record_message-Changed id now p session_id role content metadata s is =
    let (role, _, one) = both_ok _ (required role (codes "role")) is in
    let (_, two) = past_guard (not (contains message_roles role)) _ _ one in
    let (found, read, result) = both_ok _ (require_session p session_id s) two in
    let (mine, known, _) = require_session-found p session_id s read in
    let params = session_params found.0 found.1 in
    subst (λ r. Changed p s r.1) (ok-inj result)
      (
        found.0,
        mine,
        record {
          sessions = touch_session-SessionChange params now s.sessions;
          messages = recorded _ refl known refl;
          tool_calls = unchanged;
          retrieval_runs = unchanged;
          memory_events = same_events;
        },
      )

pub record_tool_call-Changed :
    (id : Text) (now : ℕ) (p : Principal) (session_id : Text) (call : ToolCall) (s : Tables)
    {r : Text × Tables}
    → record_tool_call id now p session_id call s ≡ ok r
    → Changed p s r.1
unfolding record_tool_call touch_session next_entry
record_tool_call-Changed id now p session_id call s is =
    let (status, _, one) = both_ok _ (required call.status (codes "status")) is in
    let (_, two) = past_guard (not (contains tool_call_statuses status)) _ _ one in
    let (found, read, three) = both_ok _ (require_session p session_id s) two in
    let (tool_name, _, result) = both_ok _ (required call.tool_name (codes "tool_name")) three in
    let (mine, known, _) = require_session-found p session_id s read in
    let params = session_params found.0 found.1 in
    subst (λ r. Changed p s r.1) (ok-inj result)
      (
        found.0,
        mine,
        record {
          sessions = touch_session-SessionChange params now s.sessions;
          messages = unchanged;
          tool_calls = recorded _ refl known refl;
          retrieval_runs = unchanged;
          memory_events = same_events;
        },
      )

pub record_retrieval_run-Changed :
    (id : Text) (now : ℕ) (p : Principal) (session_id : Text) (payload : RunPayload) (s : Tables)
    {r : Text × Tables}
    → record_retrieval_run id now p session_id payload s ≡ ok r
    → Changed p s r.1
unfolding record_retrieval_run touch_session next_entry
record_retrieval_run-Changed id now p session_id payload s is =
    let (found, read, result) = both_ok _ (require_session p session_id s) is in
    let (mine, known, _) = require_session-found p session_id s read in
    let params = session_params found.0 found.1 in
    subst (λ r. Changed p s r.1) (ok-inj result)
      (
        found.0,
        mine,
        record {
          sessions = touch_session-SessionChange params now s.sessions;
          messages = unchanged;
          tool_calls = unchanged;
          retrieval_runs = recorded _ refl known refl;
          memory_events = same_events;
        },
      )
