-- ===== src/Experts/Witnesses.antt =====
-- The theorems on sessions at the run of Experts.Examples.
use exais_vector_store.Interaction.Keys.{has_sensitive_name}
use exais_vector_store.Experts.Promoted.{IsAllowed, promote-IsAllowed}
use exais_vector_store.Experts.Resumed.{create_or_resume-again}
use exais_vector_store.Experts.Apart.Reads.{get_session-Call}
use exais_vector_store.Experts.Remembered.Kept.{Calls-HaveLived, Calls-AreInert}
use exais_vector_store.Experts.Sessions.{get_session, Session, create_or_resume, expert_session_key}
use exais_vector_store.Experts.Remembered.{HaveLived, AreInert}
use exais_vector_store.Experts.Histories.{IsWellFormed, Calls-IsWellFormed, empty-IsWellFormed}
use exais_vector_store.Experts.Memory.{MemoryPolicy, promote, memory_types}
use exais_vector_store.Experts.Candidates.{record_memory_event}
use exais_vector_store.Experts.{Expert, principal_scope, record_message, touched}
use exais_vector_store.Auth.Keys.Rows.{Principal}
use exais_vector_store.Experts.Changes.Calls.{
  Call, Calls, here, then_call, creating, sending, proposing,
}
use exais_vector_store.Experts.Examples.{
  user, key_of, opening, tables_of, asking, no_rows, session_of, opened, asked,
}
use exais_vector_store.Experts.Rows.{
  Scope, SessionRow, MemoryEvent, MemoryStatus, Tables, empty, session_params,
}
use exais_vector_store.Interaction.{Json, str, null, Fields, end, field}
use exais_vector_store.Prelude.Result.{ok, err}
use exais_vector_store.Prelude.Int.{pos}
use exais_vector_store.Prelude.Text.{Text, codes}
use exais_vector_store.Prelude.{ℕ, Bool, [], ◌≡◌, none, false, some, true, refl, ◌&&◌, not, ◌∷◌}

-- no rule redacts, and no text is cited
abbrev pub keep : Text → Text × ℕ
keep t = (t, 0)

abbrev pub uncited : Text → Bool
uncited t = false

abbrev pub no_text : Json → Text
no_text v = []

abbrev CallOf : Principal → Tables → Tables → Type 0
CallOf p s t = Call key_of [] keep uncited no_text p s t

abbrev CallsOf : Tables → Tables → Type 0
CallsOf s t = Calls key_of [] keep uncited no_text s t

-- a payload that claims to be cited
abbrev cited_claim : Fields
cited_claim = field (codes "citation_eligible") (str (codes "yes")) end

abbrev noting : Expert (Text × Tables)
noting =
    record_memory_event [] keep uncited no_text (codes "e") (codes "a1") 10 (user (codes "ann"))
      (codes "s") (codes "preference") cited_claim (some (pos 800000)) (some (codes "m")) none none
      (tables_of asking)

noted : noting ≡ ok (codes "e", tables_of noting)
unfolding record_memory_event record_message create_or_resume expert_session_key has_sensitive_name
noted = refl

abbrev policy : MemoryPolicy
policy = record {
  enabled = true;
  allowed_memory_types = memory_types;
  minimum_promotion_confidence = 750000;
  max_candidates_per_turn = 3;
  promotion_requires_explicit_opt_in = true;
}

-- the scope of a user
abbrev pub scope_of : Text → Scope
scope_of id = record {
  tenant_id = codes "t";
  biz_id = codes "b";
  api_key_id = none;
  user_id = some id;
}

-- a table with one session and one candidate
abbrev pub ann_row : SessionRow
ann_row = record no_rows {
  id = codes "s";
  scope = scope_of (codes "ann");
  expert_id = codes "tax";
  session_key = codes "key";
}

abbrev candidate_event : MemoryEvent
candidate_event = record {
  id = codes "e";
  owner = session_params (scope_of (codes "ann")) ann_row;
  source_message_id = none;
  source_feedback_id = none;
  event_type = codes "preference";
  status = MemoryStatus.candidate;
  payload = null;
  confidence = some (pos 800000);
  created_at = 10;
  promoted_at = none;
  deleted_at = none;
}

abbrev one_candidate : Tables
one_candidate = record empty { sessions = ann_row ∷ []; memory_events = candidate_event ∷ [] }

abbrev promoting_it : Expert (MemoryEvent × Tables)
promoting_it =
    promote (codes "a2") 11 (user (codes "ann")) (codes "s") (codes "e") policy true one_candidate

abbrev event_in : Expert (MemoryEvent × Tables) → MemoryEvent
event_in (ok (event, t)) = event
event_in (err problem) = candidate_event

promoted_it : promoting_it ≡ ok (event_in promoting_it, tables_of promoting_it)
unfolding promote
promoted_it = refl

run : CallsOf empty (tables_of noting)
run =
    then_call (user (codes "ann"))
      (then_call (user (codes "ann"))
        (then_call (user (codes "ann")) here (
          creating (codes "s") 5 (codes "tax") none (some (codes "c")) none null
            (session_of opening) opened))
        (sending (codes "m") 6 (codes "s") (codes "user") (str (codes "hello")) null (codes "m")
          asked))
      (proposing (codes "e") (codes "a1") 10 (codes "s") (codes "preference") cited_claim
        (some (pos 800000)) (some (codes "m")) none none (codes "e") noted)

Calls-IsWellFormed_example : IsWellFormed (tables_of noting)
Calls-IsWellFormed_example =
    Calls-IsWellFormed key_of [] keep uncited no_text empty (tables_of noting) run
      empty-IsWellFormed

Calls-HaveLived_example : HaveLived empty.memory_events (tables_of noting).memory_events
Calls-HaveLived_example =
    Calls-HaveLived key_of [] keep uncited no_text empty (tables_of noting) run

Calls-AreInert_example : AreInert (tables_of noting).memory_events
Calls-AreInert_example =
    Calls-AreInert key_of [] keep uncited no_text empty (tables_of noting) run tt

promote-IsAllowed_example :
    (policy.enabled ≡ true)
    × (policy.promotion_requires_explicit_opt_in && not true ≡ false)
    × IsAllowed policy (event_in promoting_it)
promote-IsAllowed_example =
    promote-IsAllowed (codes "a2") 11 (user (codes "ann")) (codes "s") (codes "e") policy true
      one_candidate promoted_it

scope_is : principal_scope (user (codes "ann")) ≡ ok (scope_of (codes "ann"))
unfolding principal_scope
scope_is = refl

scope_is_other : principal_scope (user (codes "bob")) ≡ ok (scope_of (codes "bob"))
unfolding principal_scope
scope_is_other = refl

get_session-Call_example :
    get_session (user (codes "bob")) (codes "s") (tables_of asking)
    ≡ get_session (user (codes "bob")) (codes "s") (tables_of opening)
get_session-Call_example =
    get_session-Call key_of [] keep uncited no_text (user (codes "ann")) (user (codes "bob"))
      (scope_of (codes "ann")) (scope_of (codes "bob")) (codes "s") (tables_of opening)
      (tables_of asking) scope_is scope_is_other refl
      (sending (codes "m") 6 (codes "s") (codes "user") (str (codes "hello")) null (codes "m")
        asked)

create_or_resume-again_example :
    (later : Session) × (t' : Tables) × (create_or_resume key_of
        (codes "other")
        20
        (user (codes "ann"))
        (codes "tax")
        none
        (some (codes "c"))
        none
        null
        (tables_of opening)
      ≡ ok (later, t'))
    × (later.row ≡ touched 20 (session_of opening).row)
    × (later.messages ≡ (session_of opening).messages)
create_or_resume-again_example =
    create_or_resume-again key_of (codes "s") (codes "other") 5 20 (user (codes "ann"))
      (codes "tax") none (some (codes "c")) none none null null empty (tables_of opening)
      (session_of opening) opened
