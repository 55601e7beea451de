-- ===== src/Experts/Numbered.antt =====
-- The numbers of the rows of a session's histories.
use exais_vector_store.Experts.Forks.{copies}
use exais_vector_store.Experts.Sessions.{stands_first, sort_by, history}
use exais_vector_store.Experts.Sequence.{same_session_sound}
use exais_vector_store.Experts.Changes.{IsKnown, IsFresh, with_id}
use exais_vector_store.Experts.Rows.{
  rows_of, Entry, SessionRow, SessionParams, same_session, of_session,
}
use exais_vector_store.Experts.{max_sequence, next_sequence, ◌∷◌, one_more, Text, any_row}
use exais_vector_store.Prelude.Text.{filter_by_hit, filter_by_miss}
use exais_vector_store.Prelude.{
  ℕ, List, All, ◌≡◌, ◌+◌, ◌∷◌, ◌++◌, suc, length, some, Bool-cases, [], subst, ap, arith, ◌∙◌, inl,
  if◌then◌else◌, refl, inr, sym, append_nil, false, true-ne_false, true,
}

module _ {A : Type 0} where
  -- the rows have the numbers n, n + 1, and so on
  abbrev pub From : ℕ → List (Entry A) → Type 0
  From n [] = Unit
  From n (row ∷ rows) = (row.sequence_no ≡ n) × From (suc n) rows

  -- In each session, the rows have the numbers 0, 1, and so on.
  abbrev pub IsNumbered : List (Entry A) → Type 0
  IsNumbered rows = (params : SessionParams) → From 0 (rows_of params rows)

  -- the session of each row is in the table
  abbrev pub AreKnown : List SessionRow → List (Entry A) → Type 0
  AreKnown sessions rows = All (λ row. IsKnown row.owner.session_id sessions) rows

  pub From-append :
      (n : ℕ) (rows more : List (Entry A))
      → From n rows
      → From (n + length rows) more
      → From n (rows ++ more)
  From-append n [] more _ rest = subst (λ m. From m more) (omega arith) rest
  From-append n (row ∷ rows) more (first, all) rest =
      (first, From-append (suc n) rows more all (subst (λ m. From m more) (omega arith) rest))

  max_sequence-From :
      (n : ℕ) (row : Entry A) (rows : List (Entry A))
      → From n (row ∷ rows)
      → max_sequence (row ∷ rows) ≡ some (n + length rows)
  unfolding max_sequence
  max_sequence-From n row [] (first, rest) = ap some (omega (arith, first))
  max_sequence-From n row (next ∷ rows) (first, rest) =
      let later = max_sequence-From (suc n) next rows rest in
      rw (later) (ap some (omega (arith, first)))

  one_more-max_sequence :
      (rows : List (Entry A)) → From 0 rows → one_more (max_sequence rows) ≡ length rows
  unfolding max_sequence
  one_more-max_sequence [] _ = refl
  one_more-max_sequence (row ∷ rows) all =
      ap one_more (max_sequence-From 0 row rows all) ∙ omega arith

  pub rows_of-append :
      (params : SessionParams) (rows more : List (Entry A))
      → rows_of params (rows ++ more) ≡ rows_of params rows ++ rows_of params more
  unfolding rows_of
  rows_of-append params [] more = refl
  rows_of-append params (row ∷ rows) more =
      let rest = rows_of-append params rows more in
      elim (Bool-cases (same_session row.owner params)) [
        | inl hit ↦ rw (hit, if◌then◌else◌) (ap (◌∷◌ row) rest)
        | inr miss ↦ rw (miss, if◌then◌else◌) rest
      ]

  -- a row with the next number keeps the numbering
  pub recorded-IsNumbered :
      (row : Entry A) (rows : List (Entry A))
      → row.sequence_no ≡ next_sequence row.owner rows
      → IsNumbered rows
      → IsNumbered (rows ++ row ∷ [])
  unfolding next_sequence rows_of
  recorded-IsNumbered row rows next all params = elim (Bool-cases (same_session row.owner params)) [
    | inl hit ↦
        let same = same_session_sound row.owner params hit in
        let number : row.sequence_no ≡ length (rows_of params rows) =
          next
          ∙ ap (λ o. one_more (max_sequence (rows_of o rows))) same
          ∙ one_more-max_sequence (rows_of params rows) (all params) in
        subst (From 0)
          (sym (
            rows_of-append params rows (row ∷ [])
            ∙ ap (λ t. rows_of params rows ++ t) (filter_by_hit (of_session params) row [] hit)))
          (From-append 0 (rows_of params rows) (row ∷ []) (all params) (number ∙ omega arith, tt))
    | inr miss ↦
        subst (From 0)
          (sym (
            rows_of-append params rows (row ∷ [])
            ∙ ap (λ t. rows_of params rows ++ t) (filter_by_miss (of_session params) row [] miss)
            ∙ append_nil (rows_of params rows)))
          (all params)
  ]

  stands_after :
      (n : ℕ) (row next : Entry A)
      → row.sequence_no ≡ n
      → next.sequence_no ≡ suc n
      → stands_first next row ≡ false
  unfolding stands_first
  stands_after n row next first second = ground (arith, first, second)

  sort_by-From : (n : ℕ) (rows : List (Entry A)) → From n rows → sort_by stands_first rows ≡ rows
  unfolding sort_by
  sort_by-From n [] _ = refl
  sort_by-From n (row ∷ []) _ = refl
  sort_by-From n (row ∷ next ∷ rows) (first, (second, rest)) =
      rw
        (
          sort_by-From (suc n) (next ∷ rows) (second, rest),
          stands_after n row next first second,
          if◌then◌else◌,
        )
        refl

  -- a numbered history is read in the order in which it was written
  pub history-IsNumbered :
      (params : SessionParams) (rows : List (Entry A))
      → IsNumbered rows
      → history params rows ≡ rows_of params rows
  unfolding history
  history-IsNumbered params rows all = sort_by-From 0 (rows_of params rows) (all params)

  module _ (fresh : ℕ → Text) (child : SessionParams) (now : ℕ) (f : A → A) where
    copies-From :
        (n k : ℕ) (rows : List (Entry A)) → From n rows → From n (copies fresh child now f k rows)
    unfolding copies
    copies-From n k [] _ = tt
    copies-From n k (row ∷ rows) (first, rest) = (first, copies-From (suc n) (suc k) rows rest)

    pub rows_of-copies :
        (params : SessionParams) (k : ℕ) (rows : List (Entry A))
        → same_session child params ≡ true
        → rows_of params (copies fresh child now f k rows) ≡ copies fresh child now f k rows
    unfolding copies rows_of
    rows_of-copies params k [] hit = refl
    rows_of-copies params k (row ∷ rows) hit =
        rw (hit, rows_of-copies params (suc k) rows hit, if◌then◌else◌) refl

    pub rows_of-copies_other :
        (params : SessionParams) (k : ℕ) (rows : List (Entry A))
        → same_session child params ≡ false
        → rows_of params (copies fresh child now f k rows) ≡ []
    unfolding copies rows_of
    rows_of-copies_other params k [] miss = refl
    rows_of-copies_other params k (row ∷ rows) miss =
        rw (miss, rows_of-copies_other params (suc k) rows miss, if◌then◌else◌) refl

    pub copies-AreKnown :
        (sessions : List SessionRow) (k : ℕ) (rows : List (Entry A))
        → IsKnown child.session_id sessions
        → AreKnown sessions (copies fresh child now f k rows)
    unfolding copies
    copies-AreKnown sessions k [] known = tt
    copies-AreKnown sessions k (row ∷ rows) known =
        (known, copies-AreKnown sessions (suc k) rows known)

  -- a session whose id is new has no rows
  pub rows_of-fresh :
      (child : SessionParams) (sessions : List SessionRow) (rows : List (Entry A))
      → IsFresh child.session_id sessions
      → AreKnown sessions rows
      → rows_of child rows ≡ []
  unfolding rows_of
  rows_of-fresh child sessions [] new _ = refl
  rows_of-fresh child sessions (row ∷ rows) new (known, rest) =
      elim (Bool-cases (same_session row.owner child)) [
        | inl hit ↦
            let same = ap (λ o. o.session_id) (same_session_sound row.owner child hit) in
            absurd (true-ne_false (sym known ∙ ap (λ id. any_row (with_id id) sessions) same ∙ new))
        | inr miss ↦ rw (miss, rows_of-fresh child sessions rows new rest, if◌then◌else◌) refl
      ]

  -- copies for a session that is new are numbered like the history that they copy
  pub copied-IsNumbered :
      (fresh : ℕ → Text) (now : ℕ) (f : A → A) (parent child : SessionParams)
      (sessions : List SessionRow) (rows : List (Entry A))
      → IsFresh child.session_id sessions
      → AreKnown sessions rows
      → IsNumbered rows
      → IsNumbered (rows ++ copies fresh child now f 0 (history parent rows))
  copied-IsNumbered fresh now f parent child sessions rows new known all params =
      let copied = copies fresh child now f 0 (history parent rows) in
      let read = sym (history-IsNumbered parent rows all) in
      let numbers : From 0 copied =
        copies-From fresh child now f 0 0 (history parent rows)
          (subst (From 0) read (all parent)) in
      elim (Bool-cases (same_session child params)) [
        | inl hit ↦
            let same = same_session_sound child params hit in
            let none_yet =
              ap (λ o. rows_of o rows) (sym same) ∙ rows_of-fresh child sessions rows new known in
            let mine = rows_of-copies fresh child now f params 0 (history parent rows) hit in
            subst (From 0)
              (sym (
                rows_of-append params rows copied
                ∙ ap (λ t. t ++ rows_of params copied) none_yet
                ∙ mine))
              numbers
        | inr miss ↦
            let others =
              rows_of-copies_other fresh child now f params 0 (history parent rows) miss in
            subst (From 0)
              (sym (
                rows_of-append params rows copied
                ∙ ap (λ t. rows_of params rows ++ t) others
                ∙ append_nil (rows_of params rows)))
              (all params)
      ]
