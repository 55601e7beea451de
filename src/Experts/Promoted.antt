-- ===== src/Experts/Promoted.antt =====
-- What a promotion needs, and what it gives.
use exais_vector_store.Prelude.Int.{ℤ, pos, negsuc}
use exais_vector_store.Experts.Changes.Made.{or_raise-ok}
use exais_vector_store.Experts.{or_raise, require_session, required}
use exais_vector_store.Prelude.Result.{ok, past_guard, branch_ok, ok-inj, ◌>>=◌, both_ok}
use exais_vector_store.Auth.Keys.Rows.{first_row, Principal}
use exais_vector_store.Experts.Memory.{
  MemoryPolicy, is_promoted, promote_row, update_events, is_below, is_memory_event, is_candidate,
  is_promotable, promote, require_event, event_not_found,
}
use exais_vector_store.Experts.Rows.{
  MemoryEvent, MemoryStatus, Tables, SessionParams, session_params,
}
use exais_vector_store.Prelude.Text.{Text, contains, text_eq_sound, text_eq_refl, text_eq, codes}
use exais_vector_store.Prelude.{
  ℕ, Bool, ◌≡◌, not, true, false, List, arith, some, ◌∷◌, Bool-cases, inl, ap, subst, ◌∙◌,
  if◌then◌else◌, inr, [], sym, refl, ◌&&◌, some-inj, Option, true-ne_false, ◌≤◌, none,
}

-- the first row that passes one test is the first that passes a narrower one, if it does
first_row-narrower :
    {A : Type 0} (wide narrow : A → Bool)
    → ((a : A) → narrow a ≡ true → wide a ≡ true)
    → (rows : List A) (row : A) → first_row wide rows ≡ some row
    → narrow row ≡ true
    → first_row narrow rows ≡ some row
first_row-narrower wide narrow within [] row found fits = cc
first_row-narrower wide narrow within (x ∷ rows) row found fits =
    let later = first_row-narrower wide narrow within rows row in
    elim (Bool-cases (wide x)) [
      | inl hit ↦
          let same : x ≡ row = ground (arith, hit, found) in
          let mine : narrow x ≡ true = ap narrow same ∙ fits in
          rw (mine, if◌then◌else◌) (ap some same)
      | inr miss ↦
          let out : narrow x ≡ false = elim (Bool-cases (narrow x)) [
            | inl in_both ↦ let both = within x in_both in ground (arith, both, miss)
            | inr outside ↦ outside
          ] in
          let rest = later (ground (arith, miss, found)) fits in rw (out, if◌then◌else◌) rest
    ]

-- the confidence is a number, and no less than the minimum
abbrev pub IsConfident : ℕ → Option ℤ → Type 0
IsConfident minimum none = ⊥
IsConfident minimum (some (pos n)) = minimum ≤ n
IsConfident minimum (some (negsuc n)) = ⊥

is_below-IsConfident :
    (minimum : ℕ) (confidence : Option ℤ)
    → is_below minimum confidence ≡ false
    → IsConfident minimum confidence
is_below-IsConfident minimum none sure = absurd (true-ne_false sure)
is_below-IsConfident minimum (some (pos n)) sure = ground (arith, sure)
is_below-IsConfident minimum (some (negsuc n)) sure = absurd (true-ne_false sure)

-- what a policy asks of an event
pub record IsAllowed (policy : MemoryPolicy) (e : MemoryEvent) : Type 0 where
  pub allowed_type : contains policy.allowed_memory_types e.event_type ≡ true
  pub confident : IsConfident policy.minimum_promotion_confidence e.confidence
  pub status : e.status ≡ MemoryStatus.promoted

is_promoted-promoted : (s : MemoryStatus) → is_promoted s ≡ true → s ≡ MemoryStatus.promoted
is_promoted-promoted s is = ground (arith, is)

needed : (b : Bool) → not b ≡ false → b ≡ true
needed b is = ground (arith, is)

first_row-hit :
    {A : Type 0} (test : A → Bool) (rows : List A) (row : A)
    → first_row test rows ≡ some row
    → test row ≡ true
first_row-hit test [] row found = cc
first_row-hit test (x ∷ rows) row found = elim (Bool-cases (test x)) [
  | inl hit ↦ let same : x ≡ row = ground (arith, hit, found) in ap test (sym same) ∙ hit
  | inr miss ↦ first_row-hit test rows row (ground (arith, miss, found))
]

-- a candidate that was read is the first row that its update finds
promotable-first :
    (params : SessionParams) (id : Text) (row : MemoryEvent) (s : Tables)
    → first_row (is_memory_event params id) s.memory_events ≡ some row
    → is_candidate row.status ≡ true
    → (first_row (is_promotable params row.id) s.memory_events ≡ some row)
      × (is_promotable params row.id row ≡ true)
promotable-first params id row s found candidate_row =
    let hit = first_row-hit (is_memory_event params id) s.memory_events row found in
    let same = text_eq_sound row.id id (ground (arith, hit)) in
    let own = text_eq_refl row.id in
    let fits : is_promotable params row.id row ≡ true = ground (arith, hit, own, candidate_row) in
    (
      first_row-narrower (is_memory_event params id) (is_promotable params row.id)
          (λ a narrow.
            let moved : text_eq a.id row.id ≡ text_eq a.id id = ap (text_eq a.id) same in
            ground (arith, narrow, moved))
          s.memory_events row found fits,
      fits,
    )

-- what an update returns, once it is recorded
updated-first :
    (test : MemoryEvent → Bool) (change : MemoryEvent → MemoryEvent) (s : Tables)
    (row : MemoryEvent) (left : MemoryEvent × Tables → MemoryEvent × Tables)
    → ((u : MemoryEvent × Tables) → (left u).0 ≡ u.0)
    → first_row test s.memory_events ≡ some row
    → {r : MemoryEvent × Tables} → (update_events test change s >>= λ u. ok (left u)) ≡ ok r
    → r.0 ≡ change row
unfolding update_events
updated-first test change s row left kept first is =
    let (updated, done, result) = both_ok _ (update_events test change s) is in
    let (old, read, found) =
      both_ok _ (or_raise event_not_found (first_row test s.memory_events)) done in
    let old_row = or_raise-ok event_not_found (first_row test s.memory_events) read in
    let same : old ≡ row = some-inj (sym old_row ∙ first) in
    sym (ap (λ u. u.0) (ok-inj result))
    ∙ kept updated
    ∙ sym (ap (λ u. u.0) (ok-inj found))
    ∙ ap change same

promote_row-IsAllowed :
    (audit_id : Text) (now : ℕ) (params : SessionParams) (policy : MemoryPolicy) (id : Text)
    (row : MemoryEvent) (s : Tables) {r : MemoryEvent × Tables}
    → first_row (is_memory_event params id) s.memory_events ≡ some row
    → promote_row audit_id now params policy row s ≡ ok r
    → IsAllowed policy r.0
unfolding promote_row update_events
promote_row-IsAllowed audit_id now params policy id row s found is =
    let (typed, one) =
      past_guard (not (contains policy.allowed_memory_types row.event_type)) _ _ is in
    let (sure, two) =
      past_guard (is_below policy.minimum_promotion_confidence row.confidence) _ _ one in
    elim (branch_ok (is_promoted row.status) _ _ two) [
      | inl (done, same) ↦
          subst (λ r. IsAllowed policy r.0) (ok-inj same)
            (record {
              allowed_type = needed (contains policy.allowed_memory_types row.event_type) typed;
              confident =
                  is_below-IsConfident policy.minimum_promotion_confidence row.confidence sure;
              status = is_promoted-promoted row.status done;
            })
      | inr (_, three) ↦
          let (fit, four) = past_guard (not (is_candidate row.status)) _ _ three in
          let (first, hit) =
            promotable-first params id row s found (needed (is_candidate row.status) fit) in
          let same = updated-first _ _ s row _ (λ u. refl) first four in
          subst (IsAllowed policy) (sym same) (record {
            allowed_type = needed (contains policy.allowed_memory_types row.event_type) typed;
            confident =
                is_below-IsConfident policy.minimum_promotion_confidence row.confidence sure;
            status = refl;
          })
    ]

-- A promotion returns a promoted event, and only where the policy is enabled, the caller has opted in
-- if the policy asks for that, the policy allows the type of the event, and its confidence is known
-- and not below the policy's minimum.
pub promote-IsAllowed :
    (audit_id : Text) (now : ℕ) (p : Principal) (session_id event_id : Text) (policy : MemoryPolicy)
    (opt_in : Bool) (s : Tables) {r : MemoryEvent × Tables}
    → promote audit_id now p session_id event_id policy opt_in s ≡ ok r
    → (policy.enabled ≡ true)
      × (policy.promotion_requires_explicit_opt_in && not opt_in ≡ false)
      × IsAllowed policy r.0
unfolding promote require_event
promote-IsAllowed audit_id now p session_id event_id policy opt_in s is =
    let (on, one) = past_guard (not policy.enabled) _ _ is in
    let (asked, two) =
      past_guard (policy.promotion_requires_explicit_opt_in && not opt_in) _ _ one in
    let (found, read, three) = both_ok _ (require_session p session_id s) two in
    let params = session_params found.0 found.1 in
    let (row, event, result) = both_ok _ (require_event params event_id s) three in
    let (id, _, here) = both_ok _ (required event_id (codes "memory_event_id")) event in
    (
      needed policy.enabled on,
      asked,
      promote_row-IsAllowed audit_id now params policy id row s
          (or_raise-ok event_not_found (first_row (is_memory_event params id) s.memory_events) here)
          result,
    )
