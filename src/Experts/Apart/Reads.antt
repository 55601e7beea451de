-- ===== src/Experts/Apart/Reads.antt =====
-- What a caller reads after another's call.
use exais_vector_store.Experts.Changes.Within.{Call-Changed}
use exais_vector_store.Experts.Apart.{Grown-kept, MemoryChange-kept, SessionChange-kept}
use exais_vector_store.Auth.Keys.Rows.{Principal, first_row}
use exais_vector_store.Interaction.{Json}
use exais_vector_store.Experts.Changes.{Change}
use exais_vector_store.Prelude.Result.{◌>>=◌, ok, err, ok-inj}
use exais_vector_store.Interaction.Guards.{Rule}
use exais_vector_store.Experts.Sessions.{
  Identity, hydrate, get_session, history, memory_rows, hydrate_if, Session,
}
use exais_vector_store.Experts.{Expert, ◌>>=◌, session_row, principal_scope, required}
use exais_vector_store.Experts.Rows.{
  Scope, Tables, SessionRow, same_scope, session_params, is_visible,
}
use exais_vector_store.Experts.Changes.Calls.{Call}
use exais_vector_store.Prelude.Text.{Text, codes}
use exais_vector_store.Prelude.{
  ℕ, ◌≡◌, List, false, Bool, Option, refl, some, ap, none, ◌∙◌, sym, subst,
}

module _ (mine theirs : Scope) (apart : same_scope mine theirs ≡ false) (s t : Tables) where
  hydrate-kept : Change mine s t → (row : SessionRow) → hydrate theirs row t ≡ hydrate theirs row s
  unfolding hydrate history memory_rows
  hydrate-kept c row =
      let params = session_params theirs row in
      let messages =
        Grown-kept mine theirs apart s.sessions t.sessions params refl _ _ c.messages in
      let tool_calls =
        Grown-kept mine theirs apart s.sessions t.sessions params refl _ _ c.tool_calls in
      let retrieval_runs =
        Grown-kept mine theirs apart s.sessions t.sessions params refl _ _ c.retrieval_runs in
      let events = MemoryChange-kept mine theirs apart params _ _ refl c.memory_events in
      rw (messages, tool_calls, retrieval_runs, events) refl

  hydrate_if-kept :
      Change mine s t
      → (found : Option SessionRow) → hydrate_if theirs t found ≡ hydrate_if theirs s found
  hydrate_if-kept c none = refl
  hydrate_if-kept c (some row) = ap some (hydrate-kept c row)

  abbrev seen : Tables → Text → Expert (Scope × Option SessionRow)
  seen u id = ok (theirs, first_row (is_visible theirs id) u.sessions)

  abbrev shown : Tables → Scope × Option SessionRow → Expert (Option Session)
  shown u found = ok (hydrate_if found.0 u found.1)

  read-kept :
      Change mine s t
      → (id : Expert Text) → ((id >>= seen t) >>= shown t) ≡ ((id >>= seen s) >>= shown s)
  read-kept c (ok id) = ap ok (
      hydrate_if-kept c (first_row (is_visible theirs id) t.sessions)
      ∙ ap (hydrate_if theirs s)
          (SessionChange-kept mine theirs apart id s.sessions t.sessions c.sessions))
  read-kept c (err problem) = refl

  get_session-kept :
      (q : Principal) (session_id : Text)
      → principal_scope q ≡ ok theirs
      → Change mine s t
      → get_session q session_id t ≡ get_session q session_id s
  unfolding get_session session_row
  get_session-kept q session_id scoped c =
      rw (scoped) (read-kept c (required session_id (codes "session_id")))

module _ (digest : Identity → Text) (rules : List Rule) (assignment : Text → Text × ℕ)
    (is_cited : Text → Bool) (dumps : Json → Text) where
  -- A caller's sessions are its own: when a call of one principal returns, any session that a
  -- principal of another scope (tenant, instance, API key and user) reads is what it was before, with
  -- its messages, tool calls, retrieval runs and memory events, or is as absent as before.
  pub get_session-Call :
      (p q : Principal) (mine theirs : Scope) (session_id : Text) (s t : Tables)
      → principal_scope p ≡ ok mine
      → principal_scope q ≡ ok theirs
      → same_scope mine theirs ≡ false
      → Call digest rules assignment is_cited dumps p s t
      → get_session q session_id t ≡ get_session q session_id s
  get_session-Call p q mine theirs session_id s t caller reader apart call =
      let (scope, own, change) = Call-Changed digest rules assignment is_cited dumps p s t call in
      let same = ok-inj (sym own ∙ caller) in
      get_session-kept mine theirs apart s t q session_id reader
        (subst (λ c. Change c s t) same change)
