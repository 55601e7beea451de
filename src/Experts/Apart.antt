-- ===== src/Experts/Apart.antt =====
-- What a caller does to the sessions of another scope: nothing.
pub mod Reads
use exais_vector_store.Auth.Keys.Rows.{first_row}
use exais_vector_store.Experts.{touch_if}
use exais_vector_store.Experts.Changes.{
  touching, adding, same_sessions, same_events, proposed, promoting, deleting, MemoryChange,
  SessionChange,
}
use exais_vector_store.Experts.Forks.{copies}
use exais_vector_store.Experts.Memory.{
  change_if, is_memory_event, is_promotable, promoted_event, deleted_event, tombstone,
}
use exais_vector_store.Experts.Numbered.{rows_of-append, rows_of-copies_other}
use exais_vector_store.Experts.Sessions.{event_of, history}
use exais_vector_store.Experts.Sequence.{same_scope_sound, same_session_sound}
use exais_vector_store.Experts.Rows.{
  Scope, SessionParams, Entry, same_scope, same_session, MemoryEvent, SessionRow, rows_of,
  of_session, is_visible,
}
use exais_vector_store.Experts.Changes.{unchanged, recorded, copied, Grown}
use exais_vector_store.Prelude.Text.{Text, filter_by, filter_by_miss}
use exais_vector_store.Prelude.{
  ℕ, ◌≡◌, false, true, List, ap, Bool, ◌∙◌, arith, map, ◌∷◌, [], Bool-cases, ◌++◌, inl,
  if◌then◌else◌, inr, append_nil, refl, sym, true-ne_false,
}

module _ (mine theirs : Scope) (apart : same_scope mine theirs ≡ false) where
  not_mine : (scope : Scope) → same_scope scope mine ≡ true → same_scope scope theirs ≡ false
  not_mine scope inside = ap (λ c. same_scope c theirs) (same_scope_sound scope mine inside) ∙ apart

  other_session :
      (a b : SessionParams) → a.scope ≡ mine → b.scope ≡ theirs → same_session a b ≡ false
  other_session a b here there =
      let far : same_scope a.scope b.scope ≡ false =
        ap (λ c. same_scope c b.scope) here ∙ ap (same_scope mine) there ∙ apart in
      ground (arith, far)

  module _ {A : Type 0} (old new : List SessionRow) (params : SessionParams)
      (there : params.scope ≡ theirs) where
    pub Grown-kept :
        (rows rows' : List (Entry A))
        → Grown mine old new rows rows'
        → rows_of params rows' ≡ rows_of params rows
    unfolding rows_of
    Grown-kept rows rows' unchanged = refl
    Grown-kept rows rows' (recorded row here known next) =
        rows_of-append params rows (row ∷ [])
        ∙ ap (λ t. rows_of params rows ++ t)
            (filter_by_miss (of_session params) row [] (other_session row.owner params here there))
        ∙ append_nil (rows_of params rows)
    Grown-kept rows rows' (copied fresh now f parent child here new_id known) =
        rows_of-append params rows (copies fresh child now f 0 (history parent rows))
        ∙ ap (λ t. rows_of params rows ++ t)
            (rows_of-copies_other fresh child now f params 0 (history parent rows)
              (other_session child params here there))
        ∙ append_nil (rows_of params rows)

  -- a change of events that are not shown
  changed_owner :
      (test : MemoryEvent → Bool) (change : MemoryEvent → MemoryEvent) (event : MemoryEvent)
      → (change event).owner ≡ event.owner
      → (change_if test change event).owner ≡ event.owner
  changed_owner test change event owned = elim (Bool-cases (test event)) [
    | inl hit ↦ rw (hit, if◌then◌else◌) owned
    | inr miss ↦ rw (miss, if◌then◌else◌) refl
  ]

  hidden-map :
      (params : SessionParams) (test : MemoryEvent → Bool) (change : MemoryEvent → MemoryEvent)
      → ((event : MemoryEvent) → (change event).owner ≡ event.owner)
      → ((event : MemoryEvent) → event_of params event ≡ true → test event ≡ false)
      → (events : List MemoryEvent)
      → filter_by (event_of params) (map (change_if test change) events)
        ≡ filter_by (event_of params) events
  hidden-map params test change owned skip [] = refl
  hidden-map params test change owned skip (event ∷ events) =
      let rest = hidden-map params test change owned skip events in
      let same : event_of params (change_if test change event) ≡ event_of params event =
        ap (λ o. same_session o params) (changed_owner test change event (owned event)) in
      elim (Bool-cases (event_of params event)) [
        | inl shown ↦ rw (shown, skip event shown, if◌then◌else◌, shown) (ap (◌∷◌ event) rest)
        | inr hidden ↦
            filter_by_miss (event_of params) (change_if test change event)
              (map (change_if test change) events) (same ∙ hidden)
            ∙ rest
            ∙ sym (filter_by_miss (event_of params) event events hidden)
      ]

  -- an event of another scope's session is none of a session of this one
  not_mine_event :
      (params own : SessionParams) (id : Text) (event : MemoryEvent)
      → own.scope ≡ mine
      → params.scope ≡ theirs
      → event_of params event ≡ true
      → is_memory_event own id event ≡ false
  not_mine_event params own id event here there shown =
      elim (Bool-cases (is_memory_event own id event)) [
        | inl hit ↦
            let owner = same_session_sound event.owner own (ground (arith, hit)) in
            absurd (
              true-ne_false (
                sym shown
                ∙ other_session event.owner params (ap (λ o. o.scope) owner ∙ here) there))
        | inr miss ↦ miss
      ]

  pub MemoryChange-kept :
      (params : SessionParams) (events events' : List MemoryEvent)
      → params.scope ≡ theirs
      → MemoryChange mine events events'
      → filter_by (event_of params) events' ≡ filter_by (event_of params) events
  MemoryChange-kept params events events' there same_events = refl
  MemoryChange-kept params events events' there (proposed event here status inert) =
      shown-append params events event (other_session event.owner params here there)
    where
      shown-append :
          (params : SessionParams) (events : List MemoryEvent) (event : MemoryEvent)
          → event_of params event ≡ false
          → filter_by (event_of params) (events ++ event ∷ []) ≡ filter_by (event_of params) events
      shown-append params [] event miss = filter_by_miss (event_of params) event [] miss
      shown-append params (e ∷ events) event miss =
          let rest = shown-append params events event miss in
          elim (Bool-cases (event_of params e)) [
            | inl hit ↦ rw (hit, if◌then◌else◌) (ap (◌∷◌ e) rest)
            | inr other ↦ rw (other, if◌then◌else◌) rest
          ]
  MemoryChange-kept params events events' there (promoting own id now here) =
      hidden-map params (is_promotable own id) (promoted_event now) (λ e. refl)
        (λ e shown.
          let miss = not_mine_event params own id e here there shown in ground (arith, miss))
        events
  MemoryChange-kept params events events' there (deleting own id type now here) =
      hidden-map params (is_memory_event own id) (deleted_event now (tombstone type)) (λ e. refl)
        (λ e shown. not_mine_event params own id e here there shown) events

  -- the row of a session that is seen
  touched_visible :
      (test : SessionRow → Bool) (now : ℕ) (id : Text) (row : SessionRow)
      → is_visible theirs id (touch_if test now row) ≡ is_visible theirs id row
  touched_visible test now id row = elim (Bool-cases (test row)) [
    | inl hit ↦ rw (hit, if◌then◌else◌) refl
    | inr miss ↦ rw (miss, if◌then◌else◌) refl
  ]

  pub SessionChange-kept :
      (id : Text) (old new : List SessionRow)
      → SessionChange mine old new
      → first_row (is_visible theirs id) new ≡ first_row (is_visible theirs id) old
  SessionChange-kept id old new same_sessions = refl
  SessionChange-kept id old new (touching test now inside) = each old
    where
      each :
          (rows : List SessionRow)
          → first_row (is_visible theirs id) (map (touch_if test now) rows)
            ≡ first_row (is_visible theirs id) rows
      each [] = refl
      each (row ∷ rows) =
          let rest = each rows in
          let same = touched_visible test now id row in
          elim (Bool-cases (is_visible theirs id row)) [
            | inl hit ↦
                let far : test row ≡ false = elim (Bool-cases (test row)) [
                  | inl own ↦
                      let apart = not_mine row.scope (inside row own) in ground (arith, hit, apart)
                  | inr none_of ↦ none_of
                ] in
                rw (far, if◌then◌else◌) (rw (hit, if◌then◌else◌) refl)
            | inr miss ↦ rw (same, miss, if◌then◌else◌) rest
          ]
  SessionChange-kept id old new (adding row here fresh) = each old
    where
      far : same_scope row.scope theirs ≡ false
      far = ap (λ c. same_scope c theirs) here ∙ apart

      each :
          (rows : List SessionRow)
          → first_row (is_visible theirs id) (rows ++ row ∷ [])
            ≡ first_row (is_visible theirs id) rows
      each [] = ground (arith, far)
      each (x ∷ rows) =
          let rest = each rows in
          elim (Bool-cases (is_visible theirs id x)) [
            | inl hit ↦ rw (hit, if◌then◌else◌) refl
            | inr miss ↦ rw (miss, if◌then◌else◌) rest
          ]
