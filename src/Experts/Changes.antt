-- ===== src/Experts/Changes.antt =====
-- What one call may do to the tables of the sessions, as relations on their rows.
pub mod Calls
pub mod Made
pub mod Governed
pub mod Updated
pub mod Opened
pub mod Within
use exais_vector_store.Auth.Keys.Rows.{any_row}
use exais_vector_store.Experts.{next_sequence, touch_if}
use exais_vector_store.Experts.Forks.{copies}
use exais_vector_store.Experts.Memory.{
  change_if, deleted_event, is_memory_event, is_promotable, promoted_event, tombstone,
}
use exais_vector_store.Experts.Rows.{
  Scope, SessionParams, SessionRow, Entry, MemoryEvent, MemoryStatus, Tables, same_scope,
}
use exais_vector_store.Experts.Sessions.{history}
use exais_vector_store.Prelude.Text.{Text, codes, text_eq}
use exais_vector_store.Interaction.{Json, boolean, str, Fields, end, field}
use exais_vector_store.Experts.Feedback.{fields_of}
use exais_vector_store.Prelude.{
  ℕ, ◌≡◌, Bool, none, some, if◌then◌else◌, true, false, List, [], ◌∷◌, ◌++◌, Option, map,
}

-- the id stands in the table
abbrev pub with_id : Text → SessionRow → Bool
with_id id row = text_eq row.id id

abbrev pub IsKnown : Text → List SessionRow → Type 0
IsKnown id rows = any_row (with_id id) rows ≡ true

abbrev pub IsFresh : Text → List SessionRow → Type 0
IsFresh id rows = any_row (with_id id) rows ≡ false

-- the value of a field of an object
unfoldable pub field_at : Text → Fields → Option Json
field_at key end = none
field_at key (field k v fs) = let rest = field_at key fs in if text_eq k key then some v else rest

-- a payload that has no authority and is not to be cited
unfoldable pub IsInert : Json → Type 0
unfolding field_at
IsInert payload =
    (field_at (codes "authority") (fields_of payload) ≡ some (str (codes "none")))
    × (field_at (codes "citation_eligible") (fields_of payload) ≡ some (boolean false))

module _ (scope : Scope) where
  -- the rows of sessions: some of the scope are touched, or a new one of the scope is added
  pub data SessionChange : List SessionRow → List SessionRow → Type 0 where
    same_sessions : {rows : List SessionRow} → SessionChange rows rows
    touching :
        (test : SessionRow → Bool) (now : ℕ) {rows : List SessionRow}
        → ((row : SessionRow) → test row ≡ true → same_scope row.scope scope ≡ true)
        → SessionChange rows (map (touch_if test now) rows)
    adding :
        (new : SessionRow) {rows : List SessionRow}
        → new.scope ≡ scope
        → IsFresh new.id rows
        → SessionChange rows (rows ++ new ∷ [])

  -- the rows of a history: a session that is known gets its next row, or one that is new gets copies
  -- of another's history
  pub data Grown (old new : List SessionRow) {A : Type 0}
      : List (Entry A) → List (Entry A) → Type 0 where
    unchanged : {rows : List (Entry A)} → Grown old new rows rows
    recorded :
        (row : Entry A) {rows : List (Entry A)}
        → row.owner.scope ≡ scope
        → IsKnown row.owner.session_id old
        → row.sequence_no ≡ next_sequence row.owner rows
        → Grown old new rows (rows ++ row ∷ [])
    copied :
        (fresh : ℕ → Text) (now : ℕ) (f : A → A) (parent child : SessionParams)
        {rows : List (Entry A)}
        → child.scope ≡ scope
        → IsFresh child.session_id old
        → IsKnown child.session_id new
        → Grown old new rows (rows ++ copies fresh child now f 0 (history parent rows))

  -- the memory events: a candidate is added, or those of a session of the scope that have one id are
  -- promoted or deleted
  pub data MemoryChange : List MemoryEvent → List MemoryEvent → Type 0 where
    same_events : {events : List MemoryEvent} → MemoryChange events events
    proposed :
        (event : MemoryEvent) {events : List MemoryEvent}
        → event.owner.scope ≡ scope
        → event.status ≡ MemoryStatus.candidate
        → IsInert event.payload
        → MemoryChange events (events ++ event ∷ [])
    promoting :
        (params : SessionParams) (id : Text) (now : ℕ) {events : List MemoryEvent}
        → params.scope ≡ scope
        → MemoryChange events
            (map (change_if (is_promotable params id) (promoted_event now)) events)
    deleting :
        (params : SessionParams) (id type : Text) (now : ℕ) {events : List MemoryEvent}
        → params.scope ≡ scope
        → MemoryChange events (
            map (change_if (is_memory_event params id) (deleted_event now (tombstone type))) events)

  pub record Change (s t : Tables) : Type 0 where
    pub sessions : SessionChange s.sessions t.sessions
    pub messages : Grown s.sessions t.sessions s.messages t.messages
    pub tool_calls : Grown s.sessions t.sessions s.tool_calls t.tool_calls
    pub retrieval_runs : Grown s.sessions t.sessions s.retrieval_runs t.retrieval_runs
    pub memory_events : MemoryChange s.memory_events t.memory_events
