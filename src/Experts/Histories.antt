-- ===== src/Experts/Histories.antt =====
-- The invariant of the histories under any calls.
use exais_vector_store.Experts.Changes.Within.{Call-Changed}
use exais_vector_store.Experts.Changes.Calls.{Calls, then_call, here}
use exais_vector_store.Interaction.{Json}
use exais_vector_store.Interaction.Guards.{Rule}
use exais_vector_store.Experts.Sessions.{history, Identity}
use exais_vector_store.Experts.Forks.{copies}
use exais_vector_store.Experts.Changes.{
  SessionChange, IsKnown, Grown, touching, recorded, copied, adding, same_sessions, unchanged,
  Change,
}
use exais_vector_store.Experts.{touch_if, ◌∷◌}
use exais_vector_store.Experts.Numbered.{
  IsNumbered, AreKnown, recorded-IsNumbered, copied-IsNumbered, copies-AreKnown,
}
use exais_vector_store.Experts.Rows.{SessionRow, Tables, Scope, Entry, rows_of, empty}
use exais_vector_store.Prelude.Text.{Text, text_eq}
use exais_vector_store.Prelude.{
  ℕ, Bool, List, ◌≡◌, Bool-cases, inl, All-mono, if◌then◌else◌, map, All-append, inr, ◌∷◌, ap, [],
  refl, arith, ◌++◌,
}

-- each session's histories are numbered, and each of their rows belongs to a session that is known
pub record IsWellFormed (s : Tables) : Type 0 where
  pub messages : IsNumbered s.messages
  pub tool_calls : IsNumbered s.tool_calls
  pub retrieval_runs : IsNumbered s.retrieval_runs
  pub messages_known : AreKnown s.sessions s.messages
  pub tool_calls_known : AreKnown s.sessions s.tool_calls
  pub retrieval_runs_known : AreKnown s.sessions s.retrieval_runs

touched_id :
    (test : SessionRow → Bool) (now : ℕ) (row : SessionRow) → (touch_if test now row).id ≡ row.id
touched_id test now row = elim (Bool-cases (test row)) [
  | inl hit ↦ rw (hit, if◌then◌else◌) refl
  | inr miss ↦ rw (miss, if◌then◌else◌) refl
]

-- an id that is known stays so
SessionChange-IsKnown :
    (scope : Scope) (id : Text) (old new : List SessionRow)
    → SessionChange scope old new
    → IsKnown id old
    → IsKnown id new
SessionChange-IsKnown scope id old new same_sessions known = known
SessionChange-IsKnown scope id old new (touching test now inside) known = each old known
  where
    each : (rows : List SessionRow) → IsKnown id rows → IsKnown id (map (touch_if test now) rows)
    each [] known = known
    each (row ∷ rows) known =
        let same = ap (λ t. text_eq t id) (touched_id test now row) in
        let rest = each rows in
        elim (Bool-cases (text_eq row.id id)) [
          | inl hit ↦ ground (arith, hit, same)
          | inr miss ↦ let later = rest (ground (arith, known, miss)) in ground (arith, later)
        ]
SessionChange-IsKnown scope id old new (adding row same fresh) known = each old known
  where
    each : (rows : List SessionRow) → IsKnown id rows → IsKnown id (rows ++ row ∷ [])
    each [] known = cc
    each (x ∷ rows) known =
        let rest = each rows in
        elim (Bool-cases (text_eq x.id id)) [
          | inl hit ↦ ground (arith, hit)
          | inr miss ↦ let later = rest (ground (arith, known, miss)) in ground (arith, later)
        ]

module _ {A : Type 0} (scope : Scope) (old new : List SessionRow) where
  Grown-IsNumbered :
      (rows rows' : List (Entry A))
      → Grown scope old new rows rows'
      → AreKnown old rows
      → IsNumbered rows
      → IsNumbered rows'
  Grown-IsNumbered rows rows' unchanged known all = all
  Grown-IsNumbered rows rows' (recorded row same in_table next) known all =
      recorded-IsNumbered row rows next all
  Grown-IsNumbered rows rows' (copied fresh now f parent child same new_id in_table) known all =
      copied-IsNumbered fresh now f parent child old rows new_id known all

  Grown-AreKnown :
      (rows rows' : List (Entry A))
      → SessionChange scope old new
      → Grown scope old new rows rows'
      → AreKnown old rows
      → AreKnown new rows'
  Grown-AreKnown rows rows' change unchanged known =
      All-mono _ _ (λ row. SessionChange-IsKnown scope row.owner.session_id old new change) rows
        known
  Grown-AreKnown rows rows' change (recorded row same in_table next) known =
      let still = SessionChange-IsKnown scope row.owner.session_id old new change in
      All-append _ rows (row ∷ [])
        (All-mono _ _ (λ row. SessionChange-IsKnown scope row.owner.session_id old new change) rows
          known)
        (still in_table, tt)
  Grown-AreKnown rows rows' change (copied fresh now f parent child same new_id in_table) known =
      All-append _ rows (copies fresh child now f 0 (history parent rows))
        (All-mono _ _ (λ row. SessionChange-IsKnown scope row.owner.session_id old new change) rows
          known)
        (copies-AreKnown fresh child now f new 0 (history parent rows) in_table)

Change-IsWellFormed :
    (scope : Scope) (s t : Tables) → Change scope s t → IsWellFormed s → IsWellFormed t
Change-IsWellFormed scope s t c w = record {
  messages =
      Grown-IsNumbered scope s.sessions t.sessions _ _ c.messages w.messages_known w.messages;
  tool_calls =
      Grown-IsNumbered scope s.sessions t.sessions _ _ c.tool_calls w.tool_calls_known w.tool_calls;
  retrieval_runs =
      Grown-IsNumbered scope s.sessions t.sessions _ _ c.retrieval_runs w.retrieval_runs_known
        w.retrieval_runs;
  messages_known =
      Grown-AreKnown scope s.sessions t.sessions _ _ c.sessions c.messages w.messages_known;
  tool_calls_known =
      Grown-AreKnown scope s.sessions t.sessions _ _ c.sessions c.tool_calls w.tool_calls_known;
  retrieval_runs_known =
      Grown-AreKnown scope s.sessions t.sessions _ _ c.sessions c.retrieval_runs
        w.retrieval_runs_known;
}

module _ (digest : Identity → Text) (rules : List Rule) (assignment : Text → Text × ℕ)
    (is_cited : Text → Bool) (dumps : Json → Text) where
  -- Whatever calls return, in any order and from any callers, the messages of each session are
  -- numbered 0, 1, 2 and so on in the order in which they were written, and so are its tool calls
  -- and its retrieval runs, in a fork too; each of those rows belongs to a session in the table.
  pub Calls-IsWellFormed :
      (s t : Tables)
      → Calls digest rules assignment is_cited dumps s t
      → IsWellFormed s
      → IsWellFormed t
  Calls-IsWellFormed s t here w = w
  Calls-IsWellFormed s t (then_call p {t = u} calls call) w =
      let (scope, _, change) = Call-Changed digest rules assignment is_cited dumps p u t call in
      Change-IsWellFormed scope u t change (Calls-IsWellFormed s u calls w)

pub empty-IsWellFormed : IsWellFormed empty
unfolding rows_of
empty-IsWellFormed = record {
  messages = λ params. tt;
  tool_calls = λ params. tt;
  retrieval_runs = λ params. tt;
  messages_known = tt;
  tool_calls_known = tt;
  retrieval_runs_known = tt;
}
