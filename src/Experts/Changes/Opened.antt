-- ===== src/Experts/Changes/Opened.antt =====
-- The creation and the fork of a session change the tables in the ways of Experts.Changes alone, and
-- with that every call does.
use exais_vector_store.Experts.{
  principal_scope, require_session, required, optional, session_row, or_raise, not_visible,
}
use exais_vector_store.Experts.Changes.Made.{Changed, require_session-found, still}
use exais_vector_store.Interaction.{Json}
use exais_vector_store.Auth.Keys.Rows.{Principal, any_row, first_row}
use exais_vector_store.Prelude.Result.{ok, past_guard, both_ok, ok-inj, branch_ok, ◌>>=◌}
use exais_vector_store.Experts.Changes.{
  IsKnown, IsFresh, Change, adding, copied, unchanged, same_events, touching,
}
use exais_vector_store.Experts.Forks.{
  copy_history, fork, child_row, copied_message, child_conversation, insert_history, breaks_key,
  takes_fork_key, fork_row,
}
use exais_vector_store.Experts.Rows.{SessionRow, Tables, Scope, session_params, SessionParams}
use exais_vector_store.Experts.Sessions.{
  upsert_at, resumed, create_or_resume, insert_session, upsert_session, hydrate, Identity, Session,
  has_session_id, expert_session_key, same_key, is_resumed,
}
use exais_vector_store.Prelude.Text.{Text, text_eq_refl, codes}
use exais_vector_store.Prelude.{
  ℕ, List, Option, ◌≡◌, ◌++◌, some, ◌∷◌, ap, [], arith, none, subst, ◌||◌, refl, inl, inr, ◌∙◌, sym,
}

upsert_at-Change :
    (now : ℕ) (new : SessionRow) (s : Tables) (old : Option SessionRow)
    {r : Option SessionRow × Tables}
    → upsert_at now new s old ≡ ok r
    → Change new.scope s r.1
unfolding upsert_at
upsert_at-Change now new s none is =
    let (fresh, result) = past_guard (any_row (has_session_id new) s.sessions) _ _ is in
    subst (λ r. Change new.scope s r.1) (ok-inj result)
      (record {
        sessions = adding new refl fresh;
        messages = unchanged;
        tool_calls = unchanged;
        retrieval_runs = unchanged;
        memory_events = same_events;
      })
upsert_at-Change now new s (some old) is = elim (branch_ok (is_resumed new old) _ _ is) [
  | inl (_, result) ↦
      subst (λ r. Change new.scope s r.1) (ok-inj result)
        (record {
          sessions = touching (is_resumed new) now (λ row hit. ground (arith, hit));
          messages = unchanged;
          tool_calls = unchanged;
          retrieval_runs = unchanged;
          memory_events = same_events;
        })
  | inr (_, result) ↦ subst (λ r. Change new.scope s r.1) (ok-inj result) (still new.scope s)
]

resumed-tables :
    (scope : Scope) (found : Option SessionRow) (t : Tables) {r : Session × Tables}
    → resumed scope (found, t) ≡ ok r
    → t ≡ r.1
unfolding resumed
resumed-tables scope none t is = cc
resumed-tables scope (some row) t is = ap (λ r. r.1) (ok-inj is)

resumed-Change :
    (now : ℕ) (new : SessionRow) (s : Tables) {r : Session × Tables}
    → (upsert_session now new s >>= resumed new.scope) ≡ ok r
    → Change new.scope s r.1
unfolding upsert_session
resumed-Change now new s is =
    let old = first_row (same_key new) s.sessions in
    let (found, upserted, result) = both_ok _ (upsert_at now new s old) is in
    subst (Change new.scope s) (resumed-tables new.scope found.0 found.1 result)
      (upsert_at-Change now new s old upserted)

pub create_or_resume-Changed :
    (digest : Identity → Text) (id : Text) (now : ℕ) (p : Principal) (expert : Text)
    (external conversation label : Option Text) (metadata : Json) (s : Tables)
    {r : Session × Tables}
    → create_or_resume digest id now p expert external conversation label metadata s ≡ ok r
    → Changed p s r.1
unfolding create_or_resume
create_or_resume-Changed digest id now p expert external conversation label metadata s is =
    let (scope, mine, one) = both_ok _ (principal_scope p) is in
    let (expert_id, _, two) = both_ok _ (required expert (codes "expert_id")) one in
    let (key, _, three) =
      both_ok _ (expert_session_key digest p expert_id (optional external) (optional conversation))
        two in
    (scope, mine, resumed-Change now _ s three)

last-IsKnown : (new : SessionRow) (rows : List SessionRow) → IsKnown new.id (rows ++ new ∷ [])
last-IsKnown new [] = ground (arith, text_eq_refl new.id)
last-IsKnown new (row ∷ rows) = ground (arith, last-IsKnown new rows)

pub insert_session-ok :
    (new : SessionRow) (s : Tables) {t : Tables}
    → insert_session new s ≡ ok t
    → IsFresh new.id s.sessions × (record s { sessions = s.sessions ++ new ∷ [] } ≡ t)
unfolding insert_session
insert_session-ok new s is =
    let (fresh, result) =
      past_guard (any_row (has_session_id new) s.sessions || any_row (same_key new) s.sessions) _ _
        is in
    (ground (arith, fresh), ok-inj result)

-- the tables after a fork: the row of the child, and the copies
copy_history-Change :
    (new_id : Text → ℕ → Text) (now : ℕ) (scope : Scope) (parent child : SessionRow) (s : Tables)
    → child.scope ≡ scope
    → IsFresh child.id s.sessions
    → Change scope s (
        copy_history new_id now
          (hydrate scope parent s)
          (session_params scope child)
          child
          (record s { sessions = s.sessions ++ child ∷ [] }))
unfolding copy_history hydrate
copy_history-Change new_id now scope parent child s same fresh =
    let params = session_params scope parent in
    let heir = session_params scope child in
    let known = last-IsKnown child s.sessions in
    record {
      sessions = adding child same fresh;
      messages = copied (new_id (codes "exmsg")) now copied_message params heir refl fresh known;
      tool_calls = copied (new_id (codes "extool")) now _ params heir refl fresh known;
      retrieval_runs = copied (new_id (codes "exret")) now _ params heir refl fresh known;
      memory_events = same_events;
    }

-- a history that is inserted breaks no key
pub insert_history-ok :
    (new_id : Text → ℕ → Text) (now : ℕ) (parent : Session) (params : SessionParams)
    (child : SessionRow) (s : Tables) {t : Tables}
    → insert_history new_id now parent params child s ≡ ok t
    → (insert_history new_id now parent params child s
        ≡ ok (copy_history new_id now parent params child s))
      × (copy_history new_id now parent params child s ≡ t)
unfolding insert_history
insert_history-ok new_id now parent params child s is =
    let copied = copy_history new_id now parent params child s in
    let (_, same) =
      past_guard
        (breaks_key copied.messages
          || breaks_key copied.tool_calls
          || breaks_key copied.retrieval_runs
          || any_row (takes_fork_key (fork_row new_id now parent.row child)) s.forks)
        _ _ is in
    (is ∙ ap ok (sym (ok-inj same)), ok-inj same)

pub fork-Changed :
    (new_id : Text → ℕ → Text) (now : ℕ) (digest : Identity → Text) (p : Principal)
    (session_id : Text) (label : Option Text) (s : Tables) {r : Session × Tables}
    → fork new_id now digest p session_id label s ≡ ok r
    → Changed p s r.1
unfolding fork child_row
fork-Changed new_id now digest p session_id label s is =
    let (found, read, one) = both_ok _ (require_session p session_id s) is in
    let (mine, _, _) = require_session-found p session_id s read in
    let parent = found.1 in
    let conversation = child_conversation parent (new_id (codes "exps") 0) in
    let (key, _, two) =
      both_ok _
        (expert_session_key digest p parent.expert_id parent.external_user_id (some conversation))
        one in
    let child = child_row new_id now found.0 found.1 key label in
    let (inserted, fit, three) = both_ok _ (insert_session child s) two in
    let (fresh, grown) = insert_session-ok child s fit in
    let read_parent = hydrate found.0 found.1 s in
    let params = session_params found.0 child in
    let (written, kept, later) =
      both_ok _ (insert_history new_id now read_parent params child inserted) three in
    let (_, made) = insert_history-ok new_id now read_parent params child inserted kept in
    let (seen, _, four) = both_ok _ (session_row p child.id written) later in
    let (row, _, result) = both_ok _ (or_raise not_visible seen.1) four in
    (
      found.0,
      mine,
      subst (Change found.0 s) (made ∙ ap (λ r. r.1) (ok-inj result)) (
          subst
            (λ t. Change found.0 s (
              copy_history new_id now (hydrate found.0 found.1 s) (session_params found.0 child)
                child t))
            grown (copy_history-Change new_id now found.0 found.1 child s refl fresh)),
    )
