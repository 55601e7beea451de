-- ===== src/Experts/Remembered/Kept.antt =====
-- The life of memory events under any calls.
use exais_vector_store.Experts.Changes.Within.{Call-Changed}
use exais_vector_store.Interaction.Guards.{Rule}
use exais_vector_store.Interaction.{Json}
use exais_vector_store.Experts.Sessions.{Identity}
use exais_vector_store.Experts.Memory.{
  is_candidate, promoted_event, deleted_event, tombstone, is_promotable, is_memory_event,
}
use exais_vector_store.Experts.Rows.{MemoryEvent, MemoryStatus, Tables, Scope}
use exais_vector_store.Experts.Changes.{
  same_events, proposed, promoting, deleting, IsInert, MemoryChange, field_at,
}
use exais_vector_store.Experts.Changes.Calls.{Calls, here, then_call}
use exais_vector_store.Experts.Remembered.{
  HasLived, may_become, HaveLived, AreInert, HaveLived-refl, HaveLived-append, HaveLived-trans,
  HaveLived-map, AreInert-map,
}
use exais_vector_store.Prelude.Text.{Text}
use exais_vector_store.Prelude.{
  ℕ, List, ◌≡◌, true, Bool, arith, All-append, refl, inl, inr, ◌∷◌, [],
}

candidate-promoted :
    (now : ℕ) (e : MemoryEvent)
    → e.status ≡ MemoryStatus.candidate
    → HasLived e (promoted_event now e)
unfolding may_become
candidate-promoted now e is = record {
  id = refl;
  owner = refl;
  event_type = refl;
  confidence = refl;
  status = ground (arith, is);
  payload = inl refl;
}

any-deleted :
    (now : ℕ) (payload : Json) (e : MemoryEvent) → HasLived e (deleted_event now payload e)
unfolding may_become
any-deleted now payload e = record {
  id = refl;
  owner = refl;
  event_type = refl;
  confidence = refl;
  status = ground arith;
  payload = inr refl;
}

is_candidate-candidate : (s : MemoryStatus) → is_candidate s ≡ true → s ≡ MemoryStatus.candidate
is_candidate-candidate s is = ground (arith, is)

MemoryChange-HaveLived :
    (scope : Scope) (old new : List MemoryEvent) → MemoryChange scope old new → HaveLived old new
MemoryChange-HaveLived scope old new same_events = HaveLived-refl old
MemoryChange-HaveLived scope old new (proposed e mine status inert) = HaveLived-append old e
MemoryChange-HaveLived scope old new (promoting params id now mine) =
    HaveLived-map (is_promotable params id) (promoted_event now)
      (λ e hit. candidate-promoted now e (is_candidate-candidate e.status (ground (arith, hit))))
      old
MemoryChange-HaveLived scope old new (deleting params id type now mine) =
    HaveLived-map (is_memory_event params id) (deleted_event now (tombstone type))
      (λ e hit. any-deleted now (tombstone type) e) old

tombstone-IsInert : (type : Text) → IsInert (tombstone type)
unfolding IsInert field_at
tombstone-IsInert type = (refl, refl)

MemoryChange-AreInert :
    (scope : Scope) (old new : List MemoryEvent)
    → MemoryChange scope old new
    → AreInert old
    → AreInert new
MemoryChange-AreInert scope old new same_events inert = inert
MemoryChange-AreInert scope old new (proposed e mine status new_one) inert =
    All-append (λ e. IsInert e.payload) old (e ∷ []) inert (new_one, tt)
MemoryChange-AreInert scope old new (promoting params id now mine) inert =
    AreInert-map (is_promotable params id) (promoted_event now) (λ e kept. kept) old inert
MemoryChange-AreInert scope old new (deleting params id type now mine) inert =
    AreInert-map (is_memory_event params id) (deleted_event now (tombstone type))
      (λ e kept. tombstone-IsInert type) old inert

module _ (digest : Identity → Text) (rules : List Rule) (assignment : Text → Text × ℕ)
    (is_cited : Text → Bool) (dumps : Json → Text) where
  -- The table of memory events refines the abstract life of a memory, in which a candidate is promoted
  -- or deleted, what is promoted is deleted, and nothing comes back: whatever calls return, each
  -- event is in its place still, with its id, its session, its type and its confidence, at a status
  -- that it may have by then, and with its payload unless it is deleted.
  pub Calls-HaveLived :
      (s t : Tables)
      → Calls digest rules assignment is_cited dumps s t
      → HaveLived s.memory_events t.memory_events
  Calls-HaveLived s t here = HaveLived-refl s.memory_events
  Calls-HaveLived s t (then_call p {t = u} calls call) =
      let (scope, _, change) = Call-Changed digest rules assignment is_cited dumps p u t call in
      HaveLived-trans s.memory_events u.memory_events t.memory_events (Calls-HaveLived s u calls)
        (MemoryChange-HaveLived scope u.memory_events t.memory_events change.memory_events)

  -- No memory is an authority: whatever calls return and whatever their payloads say, each stored
  -- memory event has the authority `none` and is not eligible for citation, if those before had.
  pub Calls-AreInert :
      (s t : Tables)
      → Calls digest rules assignment is_cited dumps s t
      → AreInert s.memory_events
      → AreInert t.memory_events
  Calls-AreInert s t here inert = inert
  Calls-AreInert s t (then_call p {t = u} calls call) inert =
      let (scope, _, change) = Call-Changed digest rules assignment is_cited dumps p u t call in
      MemoryChange-AreInert scope u.memory_events t.memory_events change.memory_events
        (Calls-AreInert s u calls inert)
