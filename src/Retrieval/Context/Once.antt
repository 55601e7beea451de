-- ===== src/Retrieval/Context/Once.antt =====
-- Each chunk is added once: what `seen` and `expanded` keep in step.
use exais_vector_store.Prelude.{
  ◌≡◌, refl, sym, ap, ◌∙◌, inl, inr, Bool, true, false, ◌&&◌, ◌||◌, not, List, [], ◌∷◌, ◌++◌, map,
  Option, none, some, arith, if◌then◌else◌, Bool-cases, All,
}
use exais_vector_store.Prelude.Text.{text_eq_sym, Text, text_eq_refl, contains}
use exais_vector_store.Retrieval.Chunk.{ChunkRecord}
use exais_vector_store.Retrieval.Context.{Expansion, nothing_yet, add_unseen}

abbrev pub ids : List ChunkRecord → List Text
ids chunks = map (λ (c : ChunkRecord). c.id) chunks

-- no text is listed twice
abbrev pub distinct : List Text → Bool
distinct [] = true
distinct (t ∷ texts) = not (contains texts t) && distinct texts

pub contains-append :
    (xs ys : List Text) (t : Text) → contains (xs ++ ys) t ≡ (contains xs t || contains ys t)
contains-append [] ys t = refl
contains-append (x ∷ xs) ys t = ground (arith, contains-append xs ys t)

distinct-snoc :
    (xs : List Text) (t : Text)
    → distinct xs ≡ true
    → contains xs t ≡ false
    → distinct (xs ++ t ∷ []) ≡ true
distinct-snoc [] t d fresh = refl
distinct-snoc (x ∷ xs) t d fresh =
    ground (arith, distinct-snoc xs t, contains-append xs (t ∷ []) x, text_eq_sym x t)

ids-snoc :
    (chunks : List ChunkRecord) (c : ChunkRecord) → ids (chunks ++ c ∷ []) ≡ ids chunks ++ c.id ∷ []
ids-snoc [] c = refl
ids-snoc (d ∷ chunks) c = ap (◌∷◌ d.id) (ids-snoc chunks c)

module _ (Q : ChunkRecord → Type 0) where
  All-snoc :
      (chunks : List ChunkRecord) (c : ChunkRecord) → All Q chunks → Q c → All Q (chunks ++ c ∷ [])
  All-snoc [] c a q = (q, tt)
  All-snoc (d ∷ chunks) c (p, a) q = (p, All-snoc chunks c a q)

  -- `seen` holds the ids of `expanded`, which are distinct, and each chunk added satisfies `Q`
  pub record IsKept (s : Expansion) : Type 0 where
    pub in_step : (t : Text) → contains s.seen t ≡ contains (ids s.expanded) t
    pub no_repeat : distinct (ids s.expanded) ≡ true
    pub each : All Q s.expanded

  pub nothing_yet-IsKept : IsKept nothing_yet
  nothing_yet-IsKept = record { in_step = λ t. refl; no_repeat = refl; each = tt }

  pub add_unseen-IsKept :
      (candidate : Option ChunkRecord) (view : ChunkRecord → ChunkRecord) (s : Expansion)
      → ((c : ChunkRecord) → candidate ≡ some c → ((view c).id ≡ c.id) × Q (view c))
      → IsKept s
      → IsKept (add_unseen candidate view s)
  unfolding add_unseen
  add_unseen-IsKept none view s good kept = kept
  add_unseen-IsKept (some c) view s good kept = elim (Bool-cases (contains s.seen c.id)) [
    | inl old ↦ rw (old, if◌then◌else◌) kept
    | inr fresh ↦
        let (same, q) = good c refl in
        let listed : ids (s.expanded ++ view c ∷ []) ≡ ids s.expanded ++ c.id ∷ [] =
          ids-snoc s.expanded (view c) ∙ ap (λ t. ids s.expanded ++ t ∷ []) same in
        rw (fresh, if◌then◌else◌)
          (record {
            in_step = λ t.
                rw (listed, contains-append (ids s.expanded) (c.id ∷ []) t, kept.in_step t)
                  (ground arith);
            no_repeat = rw listed (
                distinct-snoc (ids s.expanded) c.id kept.no_repeat
                  (sym (kept.in_step c.id) ∙ fresh));
            each = All-snoc s.expanded (view c) kept.each q;
          })
  ]

-- what was seen stays seen
pub add_unseen-keeps :
    (candidate : Option ChunkRecord) (view : ChunkRecord → ChunkRecord) (s : Expansion) (t : Text)
    → contains s.seen t ≡ true
    → contains (add_unseen candidate view s).seen t ≡ true
unfolding add_unseen
add_unseen-keeps none view s t h = h
add_unseen-keeps (some c) view s t h = elim (Bool-cases (contains s.seen c.id)) [
  | inl old ↦ rw (old, if◌then◌else◌) h
  | inr fresh ↦ rw (fresh, if◌then◌else◌) (ground arith)
]

pub add_unseen-adds :
    (c : ChunkRecord) (view : ChunkRecord → ChunkRecord) (s : Expansion)
    → contains (add_unseen (some c) view s).seen c.id ≡ true
unfolding add_unseen
add_unseen-adds c view s = elim (Bool-cases (contains s.seen c.id)) [
  | inl old ↦ rw (old, if◌then◌else◌) old
  | inr fresh ↦ rw (fresh, if◌then◌else◌) (ground (arith, text_eq_refl c.id))
]
