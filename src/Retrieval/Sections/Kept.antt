-- ===== src/Retrieval/Sections/Kept.antt =====
-- What the visit of one section keeps.
use mathlib.Core.List.{Memᴰ}
use exais_vector_store.Prelude.{
  some-inj, ◌≡◌, refl, sym, subst, inl, inr, true, List, [], ◌∷◌, Option, none, some, arith,
  if◌then◌else◌, Bool-cases, All, length, take, ◌⊎◌,
}
use exais_vector_store.Prelude.Int.{pos}
use exais_vector_store.Prelude.Text.{Text, text_eq_sound, contains}
use exais_vector_store.Retrieval.Chunk.{ChunkRecord, RetrievalScope, chunk_allowed_by_scope, direct}
use exais_vector_store.Retrieval.Context.{Expansion, contextualize_chunk}
use exais_vector_store.Retrieval.Context.Once.{IsKept, add_unseen-IsKept, add_unseen-adds}
use exais_vector_store.Retrieval.Context.Candidates.{IsViewOf, none-ne_some}
use exais_vector_store.Retrieval.Sections.{
  prefix_of, sort_chunks, insert_chunk, comes_before, headings_eq, in_section, relation_to,
  difference, visit_section,
}

-- a row that the scope allows
abbrev pub IsAllowedRow : RetrievalScope → List ChunkRecord → ChunkRecord → Type 0
IsAllowedRow scope rows c = Memᴰ c rows × (chunk_allowed_by_scope c scope ≡ true)

-- of the hit's document, below the heading that the hits' table gives for the hit
abbrev pub IsSectionOf : List ChunkRecord → ChunkRecord → ChunkRecord → Type 0
IsSectionOf hits hit c =
    (prefix : List Text) × (prefix_of hits hit.id ≡ some prefix)
    × (c.document_id ≡ hit.document_id)
    × (take (length prefix) c.heading_path ≡ prefix)

-- a hit, or a row of a hit's section
abbrev pub Explained : RetrievalScope → List ChunkRecord → List ChunkRecord → ChunkRecord → Type 0
Explained scope rows hits e =
    (hit : ChunkRecord) × (c : ChunkRecord) × Memᴰ hit hits
    × IsViewOf e c
    × ((c ≡ hit) ⊎ (IsAllowedRow scope rows c × IsSectionOf hits hit c))

module _ (P : ChunkRecord → Type 0) where
  insert-All :
      (c : ChunkRecord) (cs : List ChunkRecord) → P c → All P cs → All P (insert_chunk c cs)
  insert-All c [] p a = (p, tt)
  insert-All c (d ∷ ds) p (q, a) = elim (Bool-cases (comes_before d c)) [
    | inl first ↦ rw (first, if◌then◌else◌) (q, insert-All c ds p a)
    | inr second ↦ rw (second, if◌then◌else◌) (p, (q, a))
  ]

  pub sort-All : (cs : List ChunkRecord) → All P cs → All P (sort_chunks cs)
  unfolding sort_chunks
  sort-All [] a = tt
  sort-All (c ∷ cs) (p, a) = insert-All c (sort_chunks cs) p (sort-All cs a)

headings_eq_sound : (xs ys : List Text) → headings_eq xs ys ≡ true → xs ≡ ys
headings_eq_sound [] [] e = refl
headings_eq_sound [] (y ∷ ys) e = cc
headings_eq_sound (x ∷ xs) [] e = cc
headings_eq_sound (x ∷ xs) (y ∷ ys) e =
    let head : x ≡ y = text_eq_sound x y (ground arith) in
    let tail : xs ≡ ys = headings_eq_sound xs ys (ground arith) in cc

-- what a candidate that passed the tests of the section is
in_section-is :
    (hit c d : ChunkRecord) (prefix : List Text)
    → (if in_section hit prefix c then some c else none) ≡ some d
    → (c ≡ d) × (d.document_id ≡ hit.document_id) × (take (length prefix) d.heading_path ≡ prefix)
in_section-is hit c d prefix found = elim (Bool-cases (in_section hit prefix c)) [
  | inl inside ↦
      let same : c ≡ d =
        some-inj (subst (λ b. (if b then some c else none) ≡ some d) inside found) in
      (
        same,
        subst (λ (x : ChunkRecord). x.document_id ≡ hit.document_id) same
            (text_eq_sound c.document_id hit.document_id (ground arith)),
        subst (λ (x : ChunkRecord). take (length prefix) x.heading_path ≡ prefix) same
            (headings_eq_sound (take (length prefix) c.heading_path) prefix (ground arith)),
      )
  | inr outside ↦
      absurd (none-ne_some (subst (λ b. (if b then some c else none) ≡ some d) outside found))
]

-- the hit itself, and a row of its section, as they are listed
abbrev pub as_hit : ChunkRecord → Option (List Text) → ChunkRecord → ChunkRecord
as_hit hit extra c = contextualize_chunk c direct hit (pos 0) extra

abbrev pub as_row : ChunkRecord → List Text → ChunkRecord → ChunkRecord
as_row hit prefix d =
    contextualize_chunk d (relation_to hit d) hit (difference d.ordinal hit.ordinal) (some prefix)

module _ (scope : RetrievalScope) (rows hits : List ChunkRecord) where
  abbrev pub IsGood : Expansion → Type 0
  IsGood s = IsKept (Explained scope rows hits) s

  pub visit_section-IsGood :
      (hit : ChunkRecord) (prefix : List Text) (pool : List ChunkRecord) (s : Expansion)
      → Memᴰ hit hits
      → prefix_of hits hit.id ≡ some prefix
      → All (IsAllowedRow scope rows) pool
      → IsGood s
      → IsGood (visit_section hit prefix pool s)
        × (contains (visit_section hit prefix pool s).seen hit.id ≡ true)
  unfolding visit_section contextualize_chunk
  visit_section-IsGood hit prefix [] s here known a good = (
    add_unseen-IsKept (Explained scope rows hits) (some hit) (as_hit hit (some prefix)) s
        (λ c found. (refl, (hit, c, here, refl, inl (sym (some-inj found))))) good,
    add_unseen-adds hit (as_hit hit (some prefix)) s,
  )
  visit_section-IsGood hit prefix (c ∷ pool) s here known (row, a) good =
      visit_section-IsGood hit prefix pool _ here known a (
        add_unseen-IsKept (Explained scope rows hits)
          (if in_section hit prefix c then some c else none) (as_row hit prefix) s
          (λ d found.
            let (same, document, below) = in_section-is hit c d prefix found in
            (
              refl,
              (
                hit,
                d,
                here,
                refl,
                inr (subst (IsAllowedRow scope rows) same row, (prefix, known, document, below)),
              ),
            ))
          good)
