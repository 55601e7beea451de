-- ===== src/Experts/Copied.antt =====
-- What a fork reads like, and what it leaves of the parent.
pub mod Links
pub mod Forked
pub mod Examples
use exais_vector_store.Experts.Sequence.{same_session_sound, same_scope_refl, same_session_refl}
use exais_vector_store.Experts.Forks.{copies}
use exais_vector_store.Auth.Keys.Rows.{first_row, any_row}
use exais_vector_store.Experts.Numbered.{
  AreKnown, IsNumbered, history-IsNumbered, copied-IsNumbered, rows_of-append, rows_of-fresh,
  rows_of-copies_other, rows_of-copies,
}
use exais_vector_store.Experts.Sessions.{history, sort_by, stands_first}
use exais_vector_store.Experts.Changes.{IsKnown, IsFresh, with_id}
use exais_vector_store.Experts.Rows.{
  Scope, SessionParams, SessionRow, Entry, same_session, not_deleted, is_visible, rows_of,
  same_scope,
}
use exais_vector_store.Prelude.Text.{Text, text_eq_refl, text_eq}
use exais_vector_store.Prelude.{
  ℕ, List, ◌≡◌, false, true, Bool-cases, ◌++◌, inl, ap, ◌∷◌, [], true-ne_false, ◌∙◌, some, sym, inr,
  append_nil, arith,
}

-- a session that is new is the first with its id
pub last-first_row :
    (scope : Scope) (child : SessionRow) (rows : List SessionRow)
    → child.scope ≡ scope
    → not_deleted child.status ≡ true
    → IsFresh child.id rows
    → first_row (is_visible scope child.id) (rows ++ child ∷ []) ≡ some child
last-first_row scope child [] same live fresh =
    let own = text_eq_refl child.id in
    let mine : same_scope child.scope scope ≡ true =
      ap (same_scope child.scope) (sym same) ∙ same_scope_refl child.scope in
    ground (arith, own, mine, live)
last-first_row scope child (row ∷ rows) same live fresh =
    let rest = last-first_row scope child rows same live (ground (arith, fresh)) in
    let other : text_eq row.id child.id ≡ false = ground (arith, fresh) in
    ground (arith, rest, other)

-- a session that is known is not the one that is new
pub apart_from_known :
    (old new : SessionParams) (sessions : List SessionRow)
    → IsKnown old.session_id sessions
    → IsFresh new.session_id sessions
    → same_session new old ≡ false
apart_from_known old new sessions known fresh = elim (Bool-cases (same_session new old)) [
  | inl hit ↦
      let same = ap (λ o. o.session_id) (same_session_sound new old hit) in
      absurd
        (true-ne_false (sym known ∙ ap (λ id. any_row (with_id id) sessions) (sym same) ∙ fresh))
  | inr miss ↦ miss
]

module _ {A : Type 0} (sessions : List SessionRow) (parent child : SessionParams) where
  -- the copies are what the child's history reads like
  pub history-copied :
      (fresh : ℕ → Text) (now : ℕ) (f : A → A) (rows : List (Entry A))
      → IsFresh child.session_id sessions
      → AreKnown sessions rows
      → IsNumbered rows
      → history child (rows ++ copies fresh child now f 0 (history parent rows))
        ≡ copies fresh child now f 0 (history parent rows)
  history-copied fresh now f rows new known all =
      let copied = copies fresh child now f 0 (history parent rows) in
      history-IsNumbered child (rows ++ copied)
        (copied-IsNumbered fresh now f parent child sessions rows new known all)
      ∙ rows_of-append child rows copied
      ∙ ap (λ t. t ++ rows_of child copied) (rows_of-fresh child sessions rows new known)
      ∙ rows_of-copies fresh child now f child 0 (history parent rows) (same_session_refl child)

  -- and the parent's is what it was
  pub history-parent :
      (fresh : ℕ → Text) (now : ℕ) (f : A → A) (rows : List (Entry A))
      → same_session child parent ≡ false
      → history parent (rows ++ copies fresh child now f 0 (history parent rows))
        ≡ history parent rows
  unfolding history
  history-parent fresh now f rows apart =
      let copied = copies fresh child now f 0 (history parent rows) in
      ap (sort_by stands_first) (
        rows_of-append parent rows copied
        ∙ ap (λ t. rows_of parent rows ++ t)
            (rows_of-copies_other fresh child now f parent 0 (history parent rows) apart)
        ∙ append_nil (rows_of parent rows))
