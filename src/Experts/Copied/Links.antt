-- ===== src/Experts/Copied/Links.antt =====
-- What a fork copies: the bodies of the rows, their numbers, and where they and their references point.
use exais_vector_store.Auth.Keys.Rows.{opt_eq}
use exais_vector_store.Experts.Sessions.{Session}
use exais_vector_store.Experts.Forks.{copies, new_ids, get_text, get_id, copied_field}
use exais_vector_store.Experts.Rows.{SessionParams, Entry, ToolCall, RetrievalRun, Message}
use exais_vector_store.Experts.{◌∷◌}
use exais_vector_store.Interaction.{Json}
use exais_vector_store.Prelude.Text.{Text, text_eq}
use exais_vector_store.Prelude.{
  ℕ, Option, none, ◌≡◌, some, List, map, suc, ap, [], refl, if◌then◌else◌,
}
use exais_vector_store.Auth.Keys.Rows.{opt_eq}

module _ {A B : Type 0} (view : A → B) where
  -- the number and what is seen of the body
  abbrev pub numbered : Entry A → ℕ × B
  numbered row = (row.sequence_no, view row.body)

  pub map-copies :
      (fresh : ℕ → Text) (child : SessionParams) (now : ℕ) (f : A → A)
      → ((a : A) → view (f a) ≡ view a)
      → (k : ℕ) (rows : List (Entry A))
      → map numbered (copies fresh child now f k rows) ≡ map numbered rows
  unfolding copies
  map-copies fresh child now f kept k [] = refl
  map-copies fresh child now f kept k (row ∷ rows) =
      rw (kept row.body, map-copies fresh child now f kept (suc k) rows) refl

abbrev pub origin : {A : Type 0} → Entry A → Option Text
origin row = row.source

abbrev pub own_id : {A : Type 0} → Entry A → Option Text
own_id row = some row.id

pub origin-copies :
    {A : Type 0} (fresh : ℕ → Text) (child : SessionParams) (now : ℕ) (f : A → A) (k : ℕ)
    (rows : List (Entry A))
    → map origin (copies fresh child now f k rows) ≡ map own_id rows
unfolding copies
origin-copies fresh child now f k [] = refl
origin-copies fresh child now f k (row ∷ rows) =
    ap (◌∷◌ (some row.id)) (origin-copies fresh child now f (suc k) rows)

-- a tool call and a retrieval run without the references to other rows
abbrev pub call_alone : ToolCall → ToolCall
call_alone call = record call { message_id = none }

abbrev pub run_alone : RetrievalRun → Json
run_alone run = run.payload.others

-- the row of the copied history that says that it was copied from the one with that id
abbrev pub copy_of : {A : Type 0} → Text → List (Entry A) → Option Text
copy_of id [] = none
copy_of id (row ∷ rows) =
    let later = copy_of id rows in if opt_eq row.source (some id) then some row.id else later

-- a reference, moved to the copy of the row that it named
abbrev pub moved : {A : Type 0} → List (Entry A) → Option Text → Option Text
moved rows none = none
moved rows (some id) = copy_of id rows

-- the same of a field of a payload, where an empty text names nothing and stays
abbrev pub moved_field : {A : Type 0} → List (Entry A) → Option Text → Option Text
moved_field rows none = none
moved_field rows (some []) = some []
moved_field rows (some (x ∷ id)) = copy_of (x ∷ id) rows

-- the references of a retrieval run: its own and those of its payload
abbrev pub run_links : RetrievalRun → Option Text × Option Text × Option Text × Option Text
run_links run = (run.message_id, run.tool_call_id, run.payload.message_id, run.payload.tool_call_id)

abbrev pub moved_links :
    List (Entry Message)
    → List (Entry ToolCall)
    → RetrievalRun
    → Option Text × Option Text × Option Text × Option Text
moved_links messages calls run = (
  moved messages run.message_id,
  moved calls run.tool_call_id,
  moved_field messages run.payload.message_id,
  moved_field calls run.payload.tool_call_id,
)

-- What a fork gave: the messages, the tool calls and the retrieval runs are those of the parent, with
-- their numbers and in their order, each names the one that it was copied from, each reference to a
-- message or a tool call is to the copy of the one that the parent's row refers to, and the parent
-- reads as before.
pub record IsForkOf (parent forked parent_after : Session) : Type 0 where
  pub messages : map (numbered (λ m. m)) forked.messages ≡ map (numbered (λ m. m)) parent.messages
  pub origins : map origin forked.messages ≡ map own_id parent.messages
  pub call_origins : map origin forked.tool_calls ≡ map own_id parent.tool_calls
  pub run_origins : map origin forked.retrieval_runs ≡ map own_id parent.retrieval_runs
  pub tool_calls :
      map (numbered call_alone) forked.tool_calls ≡ map (numbered call_alone) parent.tool_calls
  pub retrieval_runs :
      map (numbered run_alone) forked.retrieval_runs
      ≡ map (numbered run_alone) parent.retrieval_runs
  pub call_references :
      map (λ c. c.body.message_id) forked.tool_calls
      ≡ map (λ c. moved forked.messages c.body.message_id) parent.tool_calls
  pub run_references :
      map (λ r. run_links r.body) forked.retrieval_runs
      ≡ map (λ r. moved_links forked.messages forked.tool_calls r.body) parent.retrieval_runs
  pub parent_kept : parent_after ≡ parent

module _ {A : Type 0} (fresh : ℕ → Text) (child : SessionParams) (now : ℕ) (f : A → A) where
  pub get_text-copy_of :
      (id : Text) (k : ℕ) (rows : List (Entry A))
      → get_text id (new_ids fresh k rows) ≡ copy_of id (copies fresh child now f k rows)
  unfolding get_text new_ids copies
  get_text-copy_of id k [] = refl
  get_text-copy_of id k (row ∷ rows) =
      ap (λ later. if text_eq row.id id then some (fresh k) else later)
        (get_text-copy_of id (suc k) rows)

  pub get_id-moved :
      (id : Option Text) (rows : List (Entry A))
      → get_id (new_ids fresh 0 rows) id ≡ moved (copies fresh child now f 0 rows) id
  unfolding get_id
  get_id-moved none rows = refl
  get_id-moved (some id) rows = get_text-copy_of id 0 rows

  pub copied_field-moved_field :
      (id : Option Text) (rows : List (Entry A))
      → copied_field (new_ids fresh 0 rows) id ≡ moved_field (copies fresh child now f 0 rows) id
  unfolding copied_field
  copied_field-moved_field none rows = refl
  copied_field-moved_field (some []) rows = refl
  copied_field-moved_field (some (x ∷ id)) rows = get_text-copy_of (x ∷ id) 0 rows

  pub map-bodies :
      {B : Type 0} (view seen : A → B)
      → ((a : A) → view (f a) ≡ seen a)
      → (k : ℕ) (rows : List (Entry A))
      → map (λ e. view e.body) (copies fresh child now f k rows) ≡ map (λ e. seen e.body) rows
  unfolding copies
  map-bodies view seen same k [] = refl
  map-bodies view seen same k (row ∷ rows) =
      rw (same row.body, map-bodies view seen same (suc k) rows) refl
