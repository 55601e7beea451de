-- ===== src/Retrieval/Context/Candidates.antt =====
-- Where a candidate for the context of a hit comes from.
use mathlib.Core.List.{Memᴰ}
use mathlib.Core.List.Memᴰ
use exais_vector_store.Prelude.{
  some-inj, ℕ, zero, suc, ◌≡◌, ◌≢◌, ◌≤◌, ◌<◌, ◌+◌, ◌-◌, sym, ap, ◌∙◌, subst, inl, inr, Bool, true,
  ◌&&◌, List, [], ◌∷◌, ◌++◌, Option, none, some, arith, if◌then◌else◌, Bool-cases, Option-cases,
  All, ◌==◌, leb, ◌⊎◌,
}
use exais_vector_store.Prelude.Int.{ℤ, pos, negsuc}
use exais_vector_store.Prelude.Text.{Text, text_eq, text_eq_sound, filter_by}
use exais_vector_store.Retrieval.Chunk.{ChunkRecord, RetrievalScope, chunk_allowed_by_scope}
use exais_vector_store.Retrieval.Context.{
  or_before, by_doc_ordinal, offsets_before, offsets_after, offsets, candidate_at,
}

-- `e` is `c` but for the source and the citation
abbrev pub IsViewOf : ChunkRecord → ChunkRecord → Type 0
IsViewOf e c = e ≡ record c { source = e.source; citation = e.citation }

-- a row that the scope allows, of the hit's document, and at most so far before or after the hit
abbrev pub IsNeighbor :
    RetrievalScope → List ChunkRecord → ℕ → ℕ → ChunkRecord → ChunkRecord → Type 0
IsNeighbor scope rows before after hit c =
    Memᴰ c rows
    × (chunk_allowed_by_scope c scope ≡ true)
    × (c.document_id ≡ hit.document_id)
    × (hit.ordinal ≤ c.ordinal + before)
    × (c.ordinal ≤ hit.ordinal + after)

-- a hit, or a neighbour of one
abbrev pub Explained :
    RetrievalScope → List ChunkRecord → ℕ → ℕ → List ChunkRecord → ChunkRecord → Type 0
Explained scope rows before after hits e =
    (hit : ChunkRecord) × (c : ChunkRecord) × Memᴰ hit hits
    × IsViewOf e c
    × ((c ≡ hit) ⊎ IsNeighbor scope rows before after hit c)

abbrev no_chunk : Option ChunkRecord
no_chunk = none

pub none-ne_some : {c : ChunkRecord} → no_chunk ≢ some c
none-ne_some e = cc

by_doc_ordinal_sound :
    (rows : List ChunkRecord) (document : Text) (at : ℕ) (c : ChunkRecord)
    → by_doc_ordinal rows document at ≡ some c
    → Memᴰ c rows × (c.document_id ≡ document) × (c.ordinal ≡ at)
unfolding by_doc_ordinal
by_doc_ordinal_sound [] document at c found = cc
by_doc_ordinal_sound (r ∷ rows) document at c found =
    let hit = text_eq r.document_id document && (r.ordinal == at) in
    let this : Option ChunkRecord = if hit then some r else none in
    elim (Option-cases (by_doc_ordinal rows document at)) [
      | inr (later, e) ↦
          let same : some later ≡ some c = subst (λ o. or_before o this ≡ some c) e found in
          let (member, d, o) = by_doc_ordinal_sound rows document at c (e ∙ same) in
          (Memᴰ.tail member, d, o)
      | inl absent ↦
          let only : this ≡ some c = subst (λ o. or_before o this ≡ some c) absent found in
          elim (Bool-cases hit) [
            | inl matches ↦
                let same : r ≡ c =
                  some-inj (subst (λ b. (if b then some r else none) ≡ some c) matches only) in
                (
                  Memᴰ.head (sym same),
                  subst (λ (k : ChunkRecord). k.document_id ≡ document) same
                      (text_eq_sound r.document_id document (ground arith)),
                  subst (λ (k : ChunkRecord). k.ordinal ≡ at) same (ground arith),
                )
            | inr other ↦
                absurd
                  (none-ne_some (subst (λ b. (if b then some r else none) ≡ some c) other only))
          ]
    ]

pub filter_by_sound :
    (p : ChunkRecord → Bool) (rows : List ChunkRecord) (c : ChunkRecord)
    → Memᴰ c (filter_by p rows)
    → Memᴰ c rows × (p c ≡ true)
filter_by_sound p [] c m = elim m [ ]
filter_by_sound p (r ∷ rows) c m = elim (Bool-cases (p r)) [
  | inl keep ↦
      elim (Memᴰ.cases_cons
        (subst (λ b. Memᴰ c (if b then r ∷ filter_by p rows else filter_by p rows)) keep m)) [
          | inl same ↦ (Memᴰ.head same, ap p same ∙ keep)
          | inr later ↦
              let (member, passes) = filter_by_sound p rows c later in (Memᴰ.tail member, passes)
        ]
  | inr skip ↦
      let (member, passes) =
        filter_by_sound p rows c
          (subst (λ b. Memᴰ c (if b then r ∷ filter_by p rows else filter_by p rows)) skip m) in
      (Memᴰ.tail member, passes)
]

-- how far an offset reaches
abbrev pub InRange : ℕ → ℕ → ℤ → Type 0
InRange before after (negsuc n) = n < before
InRange before after (pos n) = n ≤ after

before-InRange : (n before after : ℕ) → n ≤ before → All (InRange before after) (offsets_before n)
before-InRange zero before after h = tt
before-InRange (suc n) before after h = (omega arith, before-InRange n before after (omega arith))

after-InRange :
    (count from before after : ℕ)
    → from + count ≤ after + 1
    → All (InRange before after) (offsets_after count from)
after-InRange zero from before after h = tt
after-InRange (suc count) from before after h =
    (omega arith, after-InRange count (from + 1) before after (omega arith))

All-append : {A : Type 0} (P : A → Type 0) (xs ys : List A) → All P xs → All P ys → All P (xs ++ ys)
All-append P [] ys a b = b
All-append P (x ∷ xs) ys (p, a) b = (p, All-append P xs ys a b)

pub offsets-InRange : (before after : ℕ) → All (InRange before after) (offsets before after)
offsets-InRange before after =
    All-append (InRange before after) (offsets_before before) (offsets_after (suc after) 0)
      (before-InRange before before after (omega arith))
      (after-InRange (suc after) 0 before after (omega arith))

module _ (scope : RetrievalScope) (rows : List ChunkRecord) (before after : ℕ) where
  -- the rows that the scope allows
  abbrev pub allowed : List ChunkRecord
  allowed = filter_by (λ c. chunk_allowed_by_scope c scope) rows

  pub candidate-IsNeighbor :
      (hit : ChunkRecord) (offset : ℤ) (c : ChunkRecord)
      → InRange before after offset
      → candidate_at allowed hit offset ≡ some c
      → (c ≡ hit) ⊎ IsNeighbor scope rows before after hit c
  unfolding candidate_at
  candidate-IsNeighbor hit (negsuc n) c near found = elim (Bool-cases (leb (n + 1) hit.ordinal)) [
    | inl reaches ↦
        let at_row : by_doc_ordinal allowed hit.document_id (hit.ordinal - (n + 1)) ≡ some c =
          subst
            (λ b.
              (if b then by_doc_ordinal allowed hit.document_id (hit.ordinal - (n + 1)) else none)
              ≡ some c)
            reaches found in
        let (member, d, o) =
          by_doc_ordinal_sound allowed hit.document_id (hit.ordinal - (n + 1)) c at_row in
        let (row, allows) = filter_by_sound _ rows c member in
        inr (row, allows, d, ground arith, ground arith)
    | inr falls_short ↦ absurd (
        none-ne_some (
          subst
            (λ b.
              (if b then by_doc_ordinal allowed hit.document_id (hit.ordinal - (n + 1)) else none)
              ≡ some c)
            falls_short found))
  ]
  candidate-IsNeighbor hit (pos zero) c near found = inl (sym (some-inj found))
  candidate-IsNeighbor hit (pos (suc n)) c near found =
      let (member, d, o) =
        by_doc_ordinal_sound allowed hit.document_id (hit.ordinal + suc n) c found in
      let (row, allows) = filter_by_sound _ rows c member in
      inr (row, allows, d, omega arith, omega arith)
