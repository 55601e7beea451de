-- ===== src/Experts/Copied/Forked.antt =====
-- The session of a fork reads like the parent.
use exais_vector_store.Experts.Copied.Links.{
  run_links, IsForkOf, moved_links, origin, get_id-moved, origin-copies, copied_field-moved_field,
  moved, map-bodies, numbered, map-copies, call_alone, run_alone,
}
use exais_vector_store.Experts.Changes.Opened.{insert_session-ok, insert_history-ok}
use exais_vector_store.Experts.Changes.Made.{require_session-found}
use exais_vector_store.Prelude.Result.{ok, both_ok, ok-inj}
use exais_vector_store.Auth.Keys.Rows.{Principal, first_row}
use exais_vector_store.Experts.Copied.{
  apart_from_known, history-copied, history-parent, last-first_row,
}
use exais_vector_store.Experts.Changes.{IsKnown, IsFresh}
use exais_vector_store.Experts.Histories.{IsWellFormed}
use exais_vector_store.Experts.Sessions.{
  Session, hydrate, insert_session, Identity, expert_session_key,
}
use exais_vector_store.Experts.Forks.{
  copies, copy_history, copied_call, copied_run, new_ids, copied_message, fork, child_row,
  child_conversation, insert_history,
}
use exais_vector_store.Experts.Rows.{
  Scope, SessionRow, Entry, ToolCall, RetrievalRun, Tables, session_params, not_deleted, is_visible,
  Message,
}
use exais_vector_store.Experts.{◌∷◌, session_row, principal_scope, require_session, required}
use exais_vector_store.Prelude.Text.{Text, codes}
use exais_vector_store.Prelude.{
  ℕ, Option, ◌≡◌, some, List, map, ap, [], ◌++◌, refl, ◌∙◌, true, subst, sym,
}

module _ (new_id : Text → ℕ → Text) (now : ℕ) (scope : Scope) (parent child : SessionRow)
    (s : Tables) (w : IsWellFormed s) (known : IsKnown parent.id s.sessions)
    (fresh : IsFresh child.id s.sessions) where
  abbrev copied_tables : Tables
  copied_tables =
      copy_history new_id now (hydrate scope parent s) (session_params scope child) child
        (record s { sessions = s.sessions ++ child ∷ [] })

  run-moved :
      (messages : List (Entry Message)) (calls : List (Entry ToolCall)) (run : RetrievalRun)
      → run_links (
          copied_run
            (new_ids (new_id (codes "exmsg")) 0 messages)
            (new_ids (new_id (codes "extool")) 0 calls)
            run)
        ≡ moved_links
            (copies
              (new_id (codes "exmsg"))
              (session_params scope child)
              now
              copied_message
              0
              messages)
            (copies
              (new_id (codes "extool"))
              (session_params scope child)
              now
              (copied_call (new_ids (new_id (codes "exmsg")) 0 messages))
              0
              calls)
            run
  unfolding copied_run
  run-moved messages calls run =
      let to = session_params scope child in
      let new_message = new_id (codes "exmsg") in
      let new_call = new_id (codes "extool") in
      let f = copied_call (new_ids new_message 0 messages) in
      let one = get_id-moved new_message to now copied_message run.message_id messages in
      let two = get_id-moved new_call to now f run.tool_call_id calls in
      let three =
        copied_field-moved_field new_message to now copied_message run.payload.message_id
          messages in
      let four = copied_field-moved_field new_call to now f run.payload.tool_call_id calls in
      λ i. (one i, two i, three i, four i)

  copy_history-IsForkOf :
      IsForkOf
        (hydrate scope parent s)
        (hydrate scope child copied_tables)
        (hydrate scope parent copied_tables)
  unfolding copy_history hydrate copied_call copied_run
  copy_history-IsForkOf =
      let from = session_params scope parent in
      let to = session_params scope child in
      let apart = apart_from_known from to s.sessions known fresh in
      let read = hydrate scope parent s in
      let ids = new_ids (new_id (codes "exmsg")) 0 read.messages in
      let call_ids = new_ids (new_id (codes "extool")) 0 read.tool_calls in
      let m =
        history-copied s.sessions from to (new_id (codes "exmsg")) now copied_message s.messages
          fresh w.messages_known w.messages in
      let c =
        history-copied s.sessions from to (new_id (codes "extool")) now (copied_call ids)
          s.tool_calls fresh w.tool_calls_known w.tool_calls in
      let r =
        history-copied s.sessions from to (new_id (codes "exret")) now (copied_run ids call_ids)
          s.retrieval_runs fresh w.retrieval_runs_known w.retrieval_runs in
      let m' =
        history-parent s.sessions from to (new_id (codes "exmsg")) now copied_message s.messages
          apart in
      let c' =
        history-parent s.sessions from to (new_id (codes "extool")) now (copied_call ids)
          s.tool_calls apart in
      let r' =
        history-parent s.sessions from to (new_id (codes "exret")) now (copied_run ids call_ids)
          s.retrieval_runs apart in
      let ms = copies (new_id (codes "exmsg")) to now copied_message 0 read.messages in
      let cs = copies (new_id (codes "extool")) to now (copied_call ids) 0 read.tool_calls in
      record {
        call_origins =
            ap (map origin) c
            ∙ origin-copies (new_id (codes "extool")) to now (copied_call ids) 0 read.tool_calls;
        run_origins =
            ap (map origin) r
            ∙ origin-copies (new_id (codes "exret")) to now (copied_run ids call_ids) 0
                read.retrieval_runs;
        call_references =
            subst
              (λ rows.
                map (λ call. call.body.message_id) (hydrate scope child copied_tables).tool_calls
                ≡ map (λ call. moved rows call.body.message_id) read.tool_calls)
              (sym m)
              (ap (map (λ call. call.body.message_id)) c
                ∙ map-bodies (new_id (codes "extool")) to now (copied_call ids)
                    (λ body. body.message_id) (λ body. moved ms body.message_id)
                    (λ body.
                      get_id-moved (new_id (codes "exmsg")) to now copied_message body.message_id
                        read.messages)
                    0 read.tool_calls);
        run_references =
            subst
              (λ rows.
                map (λ run. run_links run.body) (hydrate scope child copied_tables).retrieval_runs
                ≡ map
                    (λ run.
                      moved_links rows (hydrate scope child copied_tables).tool_calls run.body)
                    read.retrieval_runs)
              (sym m)
              (subst
                (λ rows.
                  map (λ run. run_links run.body) (hydrate scope child copied_tables).retrieval_runs
                  ≡ map (λ run. moved_links ms rows run.body) read.retrieval_runs)
                (sym c)
                (ap (map (λ run. run_links run.body)) r
                  ∙ map-bodies (new_id (codes "exret")) to now (copied_run ids call_ids) run_links
                      (moved_links ms cs) (run-moved read.messages read.tool_calls) 0
                      read.retrieval_runs));
        messages =
            ap (map (numbered (λ b. b))) m
            ∙ map-copies (λ b. b) (new_id (codes "exmsg")) to now copied_message (λ b. refl) 0
                read.messages;
        origins =
            ap (map origin) m
            ∙ origin-copies (new_id (codes "exmsg")) to now copied_message 0 read.messages;
        tool_calls =
            ap (map (numbered call_alone)) c
            ∙ map-copies call_alone (new_id (codes "extool")) to now (copied_call ids) (λ b. refl) 0
                read.tool_calls;
        retrieval_runs =
            ap (map (numbered run_alone)) r
            ∙ map-copies run_alone (new_id (codes "exret")) to now (copied_run ids call_ids)
                (λ b. refl) 0 read.retrieval_runs;
        parent_kept = rw (m', c', r') refl;
      }

session_row-child :
    (p : Principal) (scope : Scope) (child : SessionRow) (rows : List SessionRow) (t : Tables)
    → principal_scope p ≡ ok scope
    → required child.id (codes "session_id") ≡ ok child.id
    → child.scope ≡ scope
    → not_deleted child.status ≡ true
    → IsFresh child.id rows
    → t.sessions ≡ rows ++ child ∷ []
    → session_row p child.id t ≡ ok (scope, some child)
unfolding session_row
session_row-child p scope child rows t mine named same live fresh table =
    let found =
      ap (first_row (is_visible scope child.id)) table
      ∙ last-first_row scope child rows same live fresh in
    rw (mine, named, found) refl

-- what a fork returns, whose parent is found and whose child is new
fork-returned :
    (new_id : Text → ℕ → Text) (now : ℕ) (digest : Identity → Text) (p : Principal)
    (session_id : Text) (label : Option Text) (s : Tables) (scope : Scope) (parent : SessionRow)
    (key : Text) (w : IsWellFormed s) (known : IsKnown parent.id s.sessions)
    (fresh : IsFresh (child_row new_id now scope parent key label).id s.sessions)
    → principal_scope p ≡ ok scope
    → require_session p session_id s ≡ ok (scope, parent)
    → expert_session_key digest p parent.expert_id parent.external_user_id
        (some (child_conversation parent (new_id (codes "exps") 0)))
      ≡ ok key
    → required (new_id (codes "exps") 0) (codes "session_id") ≡ ok (new_id (codes "exps") 0)
    → insert_session (child_row new_id now scope parent key label) s
      ≡ ok (record s { sessions = s.sessions ++ child_row new_id now scope parent key label ∷ [] })
    → insert_history new_id now
        (hydrate scope parent s)
        (session_params scope (child_row new_id now scope parent key label))
        (child_row new_id now scope parent key label)
        (record s { sessions = s.sessions ++ child_row new_id now scope parent key label ∷ [] })
      ≡ ok (
          copied_tables new_id now scope parent
            (child_row new_id now scope parent key label)
            s
            w
            known
            fresh)
    → fork new_id now digest p session_id label s
      ≡ ok (
        hydrate scope (child_row new_id now scope parent key label) (
            copied_tables new_id now scope parent
              (child_row new_id now scope parent key label)
              s
              w
              known
              fresh),
        copied_tables new_id now scope parent
            (child_row new_id now scope parent key label)
            s
            w
            known
            fresh,
      )
unfolding fork child_row
fork-returned new_id now digest p session_id label s scope parent key w known fresh mine found keyed
      named inserted kept =
    let child = child_row new_id now scope parent key label in
    let t = copied_tables new_id now scope parent child s w known fresh in
    let seen : session_row p child.id t ≡ ok (scope, some child) =
      session_row-child p scope child s.sessions t mine named refl refl fresh refl in
    rw (found, keyed, inserted, kept, seen) refl

-- the key and the insertion of a fork that returns
fork-steps :
    (new_id : Text → ℕ → Text) (now : ℕ) (digest : Identity → Text) (p : Principal)
    (session_id : Text) (label : Option Text) (s : Tables) (scope : Scope) (parent : SessionRow)
    {r : Session × Tables}
    → require_session p session_id s ≡ ok (scope, parent)
    → fork new_id now digest p session_id label s ≡ ok r
    → (key : Text) × (expert_session_key digest p parent.expert_id parent.external_user_id
          (some (child_conversation parent (new_id (codes "exps") 0)))
        ≡ ok key)
      × (u : Tables) × (insert_session (child_row new_id now scope parent key label) s ≡ ok u)
      × (v : Tables) × (insert_history new_id now
            (hydrate scope parent s)
            (session_params scope (child_row new_id now scope parent key label))
            (child_row new_id now scope parent key label)
            u
          ≡ ok v)
unfolding fork
fork-steps new_id now digest p session_id label s scope parent found is =
    let (read, looked, one) = both_ok _ (require_session p session_id s) is in
    let (key, keyed, two) =
      both_ok _
        (expert_session_key digest p read.1.expert_id read.1.external_user_id
          (some (child_conversation read.1 (new_id (codes "exps") 0))))
        one in
    let (inserted, fit, three) =
      both_ok _ (insert_session (child_row new_id now read.0 read.1 key label) s) two in
    let child = child_row new_id now read.0 read.1 key label in
    let (written, kept, _) =
      both_ok _
        (insert_history new_id now (hydrate read.0 read.1 s) (session_params read.0 child) child
          inserted)
        three in
    subst
      (λ f.
        (key : Text) × (expert_session_key digest p f.1.expert_id f.1.external_user_id
            (some (child_conversation f.1 (new_id (codes "exps") 0)))
          ≡ ok key)
        × (u : Tables) × (insert_session (child_row new_id now f.0 f.1 key label) s ≡ ok u)
        × (v : Tables) × (insert_history new_id now (hydrate f.0 f.1 s)
              (session_params f.0 (child_row new_id now f.0 f.1 key label))
              (child_row new_id now f.0 f.1 key label) u
            ≡ ok v))
      (ok-inj (sym looked ∙ found)) (key, keyed, inserted, fit, written, kept)

fork_given-IsForkOf :
    (new_id : Text → ℕ → Text) (now : ℕ) (digest : Identity → Text) (p : Principal)
    (session_id : Text) (label : Option Text) (s : Tables) (scope : Scope) (parent : SessionRow)
    (key : Text) (u v : Tables) (forked : Session) (t : Tables)
    → IsWellFormed s
    → require_session p session_id s ≡ ok (scope, parent)
    → expert_session_key digest p parent.expert_id parent.external_user_id
        (some (child_conversation parent (new_id (codes "exps") 0)))
      ≡ ok key
    → required (new_id (codes "exps") 0) (codes "session_id") ≡ ok (new_id (codes "exps") 0)
    → insert_session (child_row new_id now scope parent key label) s ≡ ok u
    → insert_history new_id now
        (hydrate scope parent s)
        (session_params scope (child_row new_id now scope parent key label))
        (child_row new_id now scope parent key label)
        u
      ≡ ok v
    → fork new_id now digest p session_id label s ≡ ok (forked, t)
    → (key : Text) × (forked.row ≡ child_row new_id now scope parent key label)
      × IsFresh forked.row.id s.sessions
      × IsForkOf (hydrate scope parent s) forked (hydrate scope parent t)
unfolding hydrate
fork_given-IsForkOf new_id now digest p session_id label s scope parent key u v forked t w found
      keyed named fit kept is =
    let child = child_row new_id now scope parent key label in
    let (mine, known, _) = require_session-found p session_id s found in
    let (fresh, grown) = insert_session-ok child s fit in
    let after : Tables = copied_tables new_id now scope parent child s w known fresh in
    let written : insert_history new_id now (hydrate scope parent s) (session_params scope child)
          child (record s { sessions = s.sessions ++ child ∷ [] })
        ≡ ok after =
      (insert_history-ok new_id now (hydrate scope parent s) (session_params scope child) child
        (record s { sessions = s.sessions ++ child ∷ [] })
        (subst
          (λ z.
            insert_history new_id now (hydrate scope parent s) (session_params scope child) child z
            ≡ ok v)
          (sym grown) kept)).0 in
    let returned : fork new_id now digest p session_id label s
        ≡ ok (hydrate scope child after, after) =
      fork-returned new_id now digest p session_id label s scope parent key w known fresh mine found
        keyed named (fit ∙ ap ok (sym grown)) written in
    let answer : (hydrate scope child after, after) ≡ (forked, t) = ok-inj (sym returned ∙ is) in
    subst
      (λ (r : Session × Tables).
        (key : Text) × (r.0.row ≡ child_row new_id now scope parent key label)
        × IsFresh r.0.row.id s.sessions
        × IsForkOf (hydrate scope parent s) r.0 (hydrate scope parent r.1))
      answer (key, refl, fresh, copy_history-IsForkOf new_id now scope parent child s w known fresh)

-- A fork keeps the history. Where a caller's session is found in well-formed tables, the id drawn for
-- the child has no blanks and the fork returns: the session that it returns is a new child of the
-- parent, with the messages, the tool calls and the retrieval runs of the parent, their numbers and
-- their order, each naming the row that it was copied from; what a tool call or a retrieval run refers
-- to is the copy of what the parent's refers to; and the parent reads as before.
pub fork-IsForkOf :
    (new_id : Text → ℕ → Text) (now : ℕ) (digest : Identity → Text) (p : Principal)
    (session_id : Text) (label : Option Text) (s : Tables) (scope : Scope) (parent : SessionRow)
    (forked : Session) (t : Tables)
    → IsWellFormed s
    → require_session p session_id s ≡ ok (scope, parent)
    → required (new_id (codes "exps") 0) (codes "session_id") ≡ ok (new_id (codes "exps") 0)
    → fork new_id now digest p session_id label s ≡ ok (forked, t)
    → (key : Text) × (forked.row ≡ child_row new_id now scope parent key label)
      × IsFresh forked.row.id s.sessions
      × IsForkOf (hydrate scope parent s) forked (hydrate scope parent t)
fork-IsForkOf new_id now digest p session_id label s scope parent forked t w found named is =
    let (key, keyed, u, fit, v, kept) =
      fork-steps new_id now digest p session_id label s scope parent found is in
    fork_given-IsForkOf new_id now digest p session_id label s scope parent key u v forked t w found
      keyed named fit kept is
