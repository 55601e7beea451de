-- ===== src/Experts/Remembered.antt =====
-- The life of memory events: how one may change, and how a table of them may.
pub mod Kept
use exais_vector_store.Interaction.{Json}
use exais_vector_store.Experts.Sessions.{Identity}
use exais_vector_store.Experts.Memory.{
  is_candidate, change_if, promoted_event, deleted_event, is_promotable, is_memory_event, tombstone,
}
use exais_vector_store.Experts.Rows.{MemoryEvent, MemoryStatus, candidate, Scope}
use exais_vector_store.Experts.Changes.{
  IsInert, field_at, MemoryChange, proposed, promoting, deleting, same_events,
}
use exais_vector_store.Prelude.{
  Bool, ◌≡◌, List, true, ◌∷◌, All, false, ◌⊎◌, arith, [], inl, ◌++◌, map, ℕ, ◌∙◌, refl, inr,
  Bool-cases, if◌then◌else◌, All-append,
}

-- the abstract life: a candidate is promoted or deleted, what is promoted is deleted, and nothing
-- comes back
unfoldable pub may_become : MemoryStatus → MemoryStatus → Bool
may_become MemoryStatus.candidate MemoryStatus.candidate = true
may_become MemoryStatus.candidate MemoryStatus.promoted = true
may_become MemoryStatus.promoted MemoryStatus.promoted = true
may_become MemoryStatus.rejected MemoryStatus.rejected = true
may_become _ MemoryStatus.deleted = true
may_become _ _ = false

-- One event later on: it is the same memory at a status that it may have by then, and with the payload
-- that it had, unless it is deleted.
pub record HasLived (e later : MemoryEvent) : Type 0 where
  pub id : later.id ≡ e.id
  pub owner : later.owner ≡ e.owner
  pub event_type : later.event_type ≡ e.event_type
  pub confidence : later.confidence ≡ e.confidence
  pub status : may_become e.status later.status ≡ true
  pub payload : (later.payload ≡ e.payload) ⊎ (later.status ≡ MemoryStatus.deleted)

-- each event of the first list has lived on in its place, and behind them there may be others
unfoldable pub HaveLived : List MemoryEvent → List MemoryEvent → Type 0
HaveLived [] later = Unit
HaveLived (e ∷ events) [] = ⊥
HaveLived (e ∷ events) (e' ∷ later) = HasLived e e' × HaveLived events later

abbrev pub AreInert : List MemoryEvent → Type 0
AreInert events = All (λ e. IsInert e.payload) events

may_become_refl : (s : MemoryStatus) → may_become s s ≡ true
unfolding may_become
may_become_refl s = ground arith

may_become_trans :
    (a b c : MemoryStatus) → may_become a b ≡ true → may_become b c ≡ true → may_become a c ≡ true
unfolding may_become
may_become_trans a b c first second = ground (arith, first, second)

stays_deleted :
    (b c : MemoryStatus)
    → b ≡ MemoryStatus.deleted
    → may_become b c ≡ true
    → c ≡ MemoryStatus.deleted
unfolding may_become
stays_deleted b c gone next = ground (arith, gone, next)

HasLived-refl : (e : MemoryEvent) → HasLived e e
HasLived-refl e = record {
  id = refl;
  owner = refl;
  event_type = refl;
  confidence = refl;
  status = may_become_refl e.status;
  payload = inl refl;
}

HasLived-trans : (a b c : MemoryEvent) → HasLived a b → HasLived b c → HasLived a c
HasLived-trans a b c first second = record {
  id = second.id ∙ first.id;
  owner = second.owner ∙ first.owner;
  event_type = second.event_type ∙ first.event_type;
  confidence = second.confidence ∙ first.confidence;
  status = may_become_trans a.status b.status c.status first.status second.status;
  payload = after second.payload first.payload;
}
  where
    after :
        (c.payload ≡ b.payload) ⊎ (c.status ≡ MemoryStatus.deleted)
        → (b.payload ≡ a.payload) ⊎ (b.status ≡ MemoryStatus.deleted)
        → (c.payload ≡ a.payload) ⊎ (c.status ≡ MemoryStatus.deleted)
    after (inl same) (inl before) = inl (same ∙ before)
    after (inl same) (inr gone) = inr (stays_deleted b.status c.status gone second.status)
    after (inr gone) _ = inr gone

pub HaveLived-refl : (events : List MemoryEvent) → HaveLived events events
unfolding HaveLived
HaveLived-refl [] = tt
HaveLived-refl (e ∷ events) = (HasLived-refl e, HaveLived-refl events)

pub HaveLived-trans : (a b c : List MemoryEvent) → HaveLived a b → HaveLived b c → HaveLived a c
unfolding HaveLived
HaveLived-trans [] b c _ _ = tt
HaveLived-trans (e ∷ a) [] c none_left _ = absurd none_left
HaveLived-trans (e ∷ a) (e' ∷ b) [] _ none_left = absurd none_left
HaveLived-trans (e ∷ a) (e' ∷ b) (e'' ∷ c) (one, more) (two, rest) =
    (HasLived-trans e e' e'' one two, HaveLived-trans a b c more rest)

pub HaveLived-append :
    (events : List MemoryEvent) (e : MemoryEvent) → HaveLived events (events ++ e ∷ [])
unfolding HaveLived
HaveLived-append [] e = tt
HaveLived-append (x ∷ events) e = (HasLived-refl x, HaveLived-append events e)

module _ (test : MemoryEvent → Bool) (change : MemoryEvent → MemoryEvent) where
  -- an update under which each event lives on
  pub HaveLived-map :
      ((e : MemoryEvent) → test e ≡ true → HasLived e (change e))
      → (events : List MemoryEvent) → HaveLived events (map (change_if test change) events)
  unfolding HaveLived
  HaveLived-map lives [] = tt
  HaveLived-map lives (e ∷ events) =
      let rest = HaveLived-map lives events in
      elim (Bool-cases (test e)) [
        | inl hit ↦ rw (hit, if◌then◌else◌) (lives e hit, rest)
        | inr miss ↦ rw (miss, if◌then◌else◌) (HasLived-refl e, rest)
      ]

  pub AreInert-map :
      ((e : MemoryEvent) → IsInert e.payload → IsInert (change e).payload)
      → (events : List MemoryEvent) → AreInert events
      → AreInert (map (change_if test change) events)
  AreInert-map keeps [] inert = tt
  AreInert-map keeps (e ∷ events) (first, inert) =
      let rest = AreInert-map keeps events inert in
      elim (Bool-cases (test e)) [
        | inl hit ↦ rw (hit, if◌then◌else◌) (keeps e first, rest)
        | inr miss ↦ rw (miss, if◌then◌else◌) (first, rest)
      ]
