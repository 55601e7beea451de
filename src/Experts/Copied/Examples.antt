-- ===== src/Experts/Copied/Examples.antt =====
-- A session with one message, and its fork.
use exais_vector_store.Experts.Changes.{IsFresh}
use exais_vector_store.Experts.Copied.Forked.{fork-IsForkOf}
use exais_vector_store.Experts.Copied.Links.{IsForkOf}
use exais_vector_store.Prelude.Result.{ok}
use exais_vector_store.Experts.Sessions.{Session, hydrate}
use exais_vector_store.Experts.Histories.{IsWellFormed, Calls-IsWellFormed}
use exais_vector_store.Experts.Examples.{user, key_of, ids}
use exais_vector_store.Experts.Witnesses.{scope_of, ann_row, keep, uncited, no_text}
use exais_vector_store.Experts.Changes.Calls.{here, then_call, sending}
use exais_vector_store.Experts.Rows.{
  Entry, Message, Tables, empty, session_params, rows_of, SessionRow,
}
use exais_vector_store.Experts.Forks.{fork, child_row, copy_history, insert_history, breaks_key}
use exais_vector_store.Experts.{Expert, require_session, required, record_message, touched}
use exais_vector_store.Interaction.{str, null}
use exais_vector_store.Prelude.Text.{Text, codes}
use exais_vector_store.Prelude.{◌++◌, ◌∷◌, ◌≡◌, none, [], refl}

-- the session of `ann_row` with one message
abbrev hello : Entry Message
hello = record {
  id = codes "m";
  owner = session_params (scope_of (codes "ann")) ann_row;
  source = none;
  sequence_no = 0;
  created_at = 6;
  body = record { role = codes "user"; content = str (codes "hello"); metadata = null };
}

abbrev sending_hello : Expert (Text × Tables)
sending_hello =
    record_message (codes "m") 6 (user (codes "ann")) (codes "s") (codes "user")
      (str (codes "hello")) null (record empty { sessions = ann_row ∷ [] })

abbrev greeted : Tables
greeted = record empty { sessions = touched 6 ann_row ∷ []; messages = hello ∷ [] }

said : sending_hello ≡ ok (codes "m", greeted)
unfolding record_message
said = refl

greeted-IsWellFormed : IsWellFormed greeted
unfolding rows_of
greeted-IsWellFormed =
    Calls-IsWellFormed key_of [] keep uncited no_text (record empty { sessions = ann_row ∷ [] })
      greeted
      (then_call (user (codes "ann")) here (
        sending (codes "m") 6 (codes "s") (codes "user") (str (codes "hello")) null (codes "m")
          said))
      (record {
        messages = λ params. tt;
        tool_calls = λ params. tt;
        retrieval_runs = λ params. tt;
        messages_known = tt;
        tool_calls_known = tt;
        retrieval_runs_known = tt;
      })

abbrev fork_key : Text
fork_key = codes "expsk_tax" ++ codes "session:fork:exps0"

greeted_session :
    require_session (user (codes "ann")) (codes "s") greeted
    ≡ ok (scope_of (codes "ann"), touched 6 ann_row)
unfolding require_session
greeted_session = refl

fork_named : required (ids (codes "exps") 0) (codes "session_id") ≡ ok (ids (codes "exps") 0)
unfolding required
fork_named = refl

abbrev child : SessionRow
child = child_row ids 9 (scope_of (codes "ann")) (touched 6 ann_row) fork_key none

abbrev forked_tables : Tables
forked_tables =
    copy_history ids 9 (hydrate (scope_of (codes "ann")) (touched 6 ann_row) greeted)
      (session_params (scope_of (codes "ann")) child) child
      (record greeted { sessions = greeted.sessions ++ child ∷ [] })

abbrev forked : Session
forked = hydrate (scope_of (codes "ann")) child forked_tables

forks : fork ids 9 key_of (user (codes "ann")) (codes "s") none greeted ≡ ok (forked, forked_tables)
unfolding fork child_row insert_history breaks_key
forks = refl

fork-IsForkOf_example :
    (key : Text) × (forked.row
      ≡ child_row ids 9 (scope_of (codes "ann")) (touched 6 ann_row) key none)
    × IsFresh forked.row.id greeted.sessions
    × IsForkOf
        (hydrate (scope_of (codes "ann")) (touched 6 ann_row) greeted)
        forked
        (hydrate (scope_of (codes "ann")) (touched 6 ann_row) forked_tables)
fork-IsForkOf_example =
    fork-IsForkOf ids 9 key_of (user (codes "ann")) (codes "s") none greeted
      (scope_of (codes "ann")) (touched 6 ann_row) forked forked_tables greeted-IsWellFormed
      greeted_session fork_named forks
