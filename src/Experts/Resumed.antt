-- ===== src/Experts/Resumed.antt =====
-- A session that is created again is resumed.
use exais_vector_store.Prelude.Result.{ok, past_guard, ok-inj, branch_ok, ◌>>=◌, both_ok}
use exais_vector_store.Experts.{touch_if, touched, principal_scope, required, optional, Expert}
use exais_vector_store.Auth.Keys.Rows.{first_row, any_row, Principal}
use exais_vector_store.Experts.Sessions.{
  upsert_at, same_key, is_resumed, has_session_id, resumed, upsert_session, hydrate, Session,
  create_or_resume, Identity, expert_session_key,
}
use exais_vector_store.Experts.Rows.{Scope, SessionRow, SessionStatus, Tables, not_deleted}
use exais_vector_store.Auth.Keys.Authority.{opt_eq_refl}
use exais_vector_store.Interaction.{Json}
use exais_vector_store.Prelude.Text.{Text, text_eq_refl, codes}
use exais_vector_store.Prelude.{
  ℕ, Option, Bool, ◌≡◌, List, true, none, Bool-cases, some, inl, map, ◌++◌, if◌then◌else◌, ◌∷◌, [],
  inr, arith, ap, some-inj, refl, ◌∙◌, sym, subst,
}

-- the same session, asked for again under another id, at another time and with other words
abbrev again : Text → ℕ → Option Text → Json → SessionRow → SessionRow
again id now label metadata new = record new {
  id = id;
  label = label;
  metadata = metadata;
  created_at = now;
  updated_at = now;
  last_active_at = now;
}

first_row-append :
    {A : Type 0} (test : A → Bool) (rows : List A) (a : A)
    → first_row test rows ≡ none
    → test a ≡ true
    → first_row test (rows ++ a ∷ []) ≡ some a
first_row-append test [] a missed hit = rw (hit, if◌then◌else◌) refl
first_row-append test (x ∷ rows) a missed hit = elim (Bool-cases (test x)) [
  | inl found ↦ ground (arith, missed, found)
  | inr miss ↦
      let rest = first_row-append test rows a (ground (arith, missed, miss)) hit in
      rw (miss, if◌then◌else◌) rest
]

is_resumed_refl : (new : SessionRow) → not_deleted new.status ≡ true → is_resumed new new ≡ true
is_resumed_refl new live =
    let tenant = text_eq_refl new.scope.tenant_id in
    let biz = text_eq_refl new.scope.biz_id in
    let key = text_eq_refl new.session_key in
    let api_key = opt_eq_refl new.scope.api_key_id in
    let user = opt_eq_refl new.scope.user_id in
    let expert = text_eq_refl new.expert_id in
    let external = opt_eq_refl new.external_user_id in
    let conversation = opt_eq_refl new.conversation_id in
    ground (arith, tenant, biz, key, api_key, user, expert, external, conversation, live)

module _ (new : SessionRow) (test : SessionRow → Bool) (now : ℕ) where
  touched_key : (row : SessionRow) → same_key new (touch_if test now row) ≡ same_key new row
  touched_key row = elim (Bool-cases (test row)) [
    | inl hit ↦ rw (hit, if◌then◌else◌) refl
    | inr miss ↦ rw (miss, if◌then◌else◌) refl
  ]

  first_row-touched :
      (rows : List SessionRow) (old : SessionRow)
      → first_row (same_key new) rows ≡ some old
      → test old ≡ true
      → first_row (same_key new) (map (touch_if test now) rows) ≡ some (touched now old)
  first_row-touched [] old found hit = cc
  first_row-touched (row ∷ rows) old found hit =
      let same = touched_key row in
      elim (Bool-cases (same_key new row)) [
        | inl first ↦
            let here : row ≡ old = ground (arith, found, first) in
            let own : test row ≡ true = ap test here ∙ hit in
            rw (same, first, own, if◌then◌else◌) (ap (λ r. some (touched now r)) here)
        | inr other ↦
            let rest = first_row-touched rows old (ground (arith, found, other)) hit in
            rw (same, other, if◌then◌else◌) rest
      ]

-- the row that a session's creation returns is the first with its key, and one that is resumed
upsert_at-first :
    (now : ℕ) (new : SessionRow) (s : Tables) (old : Option SessionRow)
    → not_deleted new.status ≡ true
    → first_row (same_key new) s.sessions ≡ old
    → {row : SessionRow} {t : Tables} → upsert_at now new s old ≡ ok (some row, t)
    → (first_row (same_key new) t.sessions ≡ some row) × (is_resumed new row ≡ true)
unfolding upsert_at
upsert_at-first now new s none live found is =
    let (_, result) = past_guard (any_row (has_session_id new) s.sessions) _ _ is in
    let mine = is_resumed_refl new live in
    let row = some-inj (ap (λ r. r.0) (ok-inj result)) in
    let table = ap (λ r. r.1.sessions) (ok-inj result) in
    let first = first_row-append (same_key new) s.sessions new found (ground (arith, mine)) in
    (
      ap (first_row (same_key new)) (sym table) ∙ first ∙ ap some row,
      ap (is_resumed new) (sym row) ∙ mine,
    )
upsert_at-first now new s (some old) live found is = elim (branch_ok (is_resumed new old) _ _ is) [
  | inl (mine, result) ↦
      let row = some-inj (ap (λ r. r.0) (ok-inj result)) in
      let table = ap (λ r. r.1.sessions) (ok-inj result) in
      let first = first_row-touched new (is_resumed new) now s.sessions old found mine in
      (
        ap (first_row (same_key new)) (sym table) ∙ first ∙ ap some row,
        ap (is_resumed new) (sym row) ∙ mine,
      )
  | inr (_, result) ↦ absurd cc
]

resumed-row :
    (scope : Scope) (found : Option SessionRow) (t : Tables) {r : Session × Tables}
    → resumed scope (found, t) ≡ ok r
    → (found ≡ some r.0.row) × (t ≡ r.1) × (r.0 ≡ hydrate scope r.0.row r.1)
unfolding resumed hydrate
resumed-row scope none t is = cc
resumed-row scope (some row) t is =
    let same = ok-inj is in
    (
      ap (λ r. some r.0.row) same,
      ap (λ r. r.1) same,
      subst (λ r. r.0 ≡ hydrate scope r.0.row r.1) same refl,
    )

upsert_again :
    (now now' : ℕ) (id : Text) (label : Option Text) (metadata : Json) (scope : Scope)
    (new : SessionRow) (s t : Tables) (session : Session)
    → not_deleted new.status ≡ true
    → (upsert_session now new s >>= resumed scope) ≡ ok (session, t)
    → (later : Session) × (t' : Tables) × ((upsert_session now' (again id now' label metadata new) t
          >>= resumed scope)
        ≡ ok (later, t'))
      × (later.row ≡ touched now' session.row)
      × (later.messages ≡ session.messages)
unfolding upsert_session upsert_at resumed hydrate
upsert_again now now' id label metadata scope new s t session live is =
    let old = first_row (same_key new) s.sessions in
    let (found, upserted, rest) = both_ok _ (upsert_at now new s old) is in
    let (row, table, read) = resumed-row scope found.0 found.1 rest in
    let done : upsert_at now new s old ≡ ok (some session.row, t) = upserted ∙ cc in
    let (first, mine) = upsert_at-first now new s old live refl done in
    let same = again id now' label metadata new in
    let t' = record t { sessions = map (touch_if (is_resumed same) now') t.sessions } in
    (
      hydrate scope (touched now' session.row) t',
      t',
      rw (first, mine, if◌then◌else◌) refl,
      refl,
      sym (ap (λ v. v.messages) read),
    )

bind_ok :
    {A B : Type 0} (m : Expert A) (f : A → Expert B) {a : A} {b : B}
    → m ≡ ok a
    → f a ≡ ok b
    → (m >>= f) ≡ ok b
bind_ok m f is next = ap (λ x. x >>= f) is ∙ next

resumed_once :
    (digest : Identity → Text) (id : Text) (now : ℕ) (p : Principal) (expert : Text)
    (external conversation label : Option Text) (metadata : Json) (t : Tables) (scope : Scope)
    (expert_id key : Text) (new : SessionRow) {r : Session × Tables}
    → principal_scope p ≡ ok scope
    → required expert (codes "expert_id") ≡ ok expert_id
    → expert_session_key digest p expert_id (optional external) (optional conversation) ≡ ok key
    → new ≡ record {
      id = id;
      scope = scope;
      expert_id = expert_id;
      external_user_id = optional external;
      conversation_id = optional conversation;
      session_key = key;
      label = optional label;
      parent_session_id = none;
      status = SessionStatus.active;
      metadata = metadata;
      created_at = now;
      updated_at = now;
      last_active_at = now;
    }
    → (upsert_session now new t >>= resumed scope) ≡ ok r
    → create_or_resume digest id now p expert external conversation label metadata t ≡ ok r
unfolding create_or_resume
resumed_once digest id now p expert external conversation label metadata t scope expert_id key new
      mine named keyed same is =
    bind_ok (principal_scope p) _ mine (
      bind_ok (required expert (codes "expert_id")) _ named (
        bind_ok (expert_session_key digest p expert_id (optional external) (optional conversation))
          _ keyed (ap (λ n. upsert_session now n t >>= resumed scope) (sym same) ∙ is)))

-- To create a session again is to resume it: where a creation has returned, a creation by the same
-- principal with the same expert, user and conversation returns too, whatever the new id, the time,
-- the label and the metadata, and it gives the same row, touched at that time, and the same messages.
pub create_or_resume-again :
    (digest : Identity → Text) (id id' : Text) (now now' : ℕ) (p : Principal) (expert : Text)
    (external conversation label label' : Option Text) (metadata metadata' : Json) (s t : Tables)
    (session : Session)
    → create_or_resume digest id now p expert external conversation label metadata s
      ≡ ok (session, t)
    → (later : Session) × (t' : Tables) × (create_or_resume digest id' now' p expert external
          conversation label' metadata' t
        ≡ ok (later, t'))
      × (later.row ≡ touched now' session.row)
      × (later.messages ≡ session.messages)
unfolding create_or_resume
create_or_resume-again digest id id' now now' p expert external conversation label label' metadata
      metadata' s t session is =
    let (scope, mine, one) = both_ok _ (principal_scope p) is in
    let (expert_id, named, two) = both_ok _ (required expert (codes "expert_id")) one in
    let (key, keyed, three) =
      both_ok _ (expert_session_key digest p expert_id (optional external) (optional conversation))
        two in
    let (later, t', returned, row, messages) =
      upsert_again now now' id' (optional label') metadata' scope _ s t session refl three in
    (
      later,
      t',
      resumed_once digest id' now' p expert external conversation label' metadata' t scope expert_id
          key _ mine named keyed refl returned,
      row,
      messages,
    )
