-- ===== src/Retrieval/Context/Neighbors.antt =====
-- The neighbours of the hits: nothing twice, no hit lost, and nothing that the scope does not allow.
use mathlib.Core.List.{Memᴰ}
use exais_vector_store.Prelude.{
  ℕ, ◌≡◌, refl, sym, ◌∙◌, subst, inl, inr, true, ◌&&◌, List, [], ◌∷◌, none, arith, if◌then◌else◌,
  Bool-cases, All, ◌==◌,
}
use exais_vector_store.Prelude.Int.{ℤ, pos}
use exais_vector_store.Prelude.Text.{Text, text_eq, text_eq_sound, contains}
use exais_vector_store.Retrieval.Chunk.{ChunkRecord, RetrievalScope}
use exais_vector_store.Retrieval.Context.{
  Expansion, nothing_yet, add_unseen, contextualize_chunk, offsets_before, offsets, candidate_at,
  relation_at, visit_offsets, visit_hits, expand_context_neighbors,
}
use exais_vector_store.Retrieval.Context.Once.{
  ids, distinct, IsKept, nothing_yet-IsKept, add_unseen-IsKept, add_unseen-keeps, add_unseen-adds,
}
use exais_vector_store.Retrieval.Context.Candidates.{
  Explained, InRange, offsets-InRange, allowed, candidate-IsNeighbor,
}
use mathlib.Core.List.Memᴰ

module _ (scope : RetrievalScope) (rows : List ChunkRecord) (before after : ℕ)
    (hits : List ChunkRecord) where
  abbrev IsGood : Expansion → Type 0
  IsGood s = IsKept (Explained scope rows before after hits) s

  visit_offsets-IsGood :
      (hit : ChunkRecord) (range : List ℤ) (s : Expansion)
      → Memᴰ hit hits
      → All (InRange before after) range
      → IsGood s
      → IsGood (visit_offsets (allowed scope rows before after) hit range s)
  unfolding visit_offsets contextualize_chunk
  visit_offsets-IsGood hit [] s here near good = good
  visit_offsets-IsGood hit (offset ∷ range) s here (n, near) good =
      visit_offsets-IsGood hit range _ here near (
        add_unseen-IsKept (Explained scope rows before after hits)
          (candidate_at (allowed scope rows before after) hit offset)
          (λ c. contextualize_chunk c (relation_at offset) hit offset none) s
          (λ c found. (
            refl,
            (hit, c, here, refl, candidate-IsNeighbor scope rows before after hit offset c n found),
          ))
          good)

  visit_hits-IsGood :
      (rest : List ChunkRecord) (s : Expansion)
      → All (λ hit. Memᴰ hit hits) rest
      → IsGood s
      → IsGood (visit_hits (allowed scope rows before after) (offsets before after) rest s)
  unfolding visit_hits
  visit_hits-IsGood [] s here good = good
  visit_hits-IsGood (hit ∷ rest) s (member, here) good =
      visit_hits-IsGood rest _ here (
        visit_offsets-IsGood hit (offsets before after) s member (offsets-InRange before after)
          good)

visit_offsets-keeps :
    (pool : List ChunkRecord) (hit : ChunkRecord) (range : List ℤ) (s : Expansion) (t : Text)
    → contains s.seen t ≡ true
    → contains (visit_offsets pool hit range s).seen t ≡ true
unfolding visit_offsets contextualize_chunk
visit_offsets-keeps pool hit [] s t h = h
visit_offsets-keeps pool hit (offset ∷ range) s t h = visit_offsets-keeps pool hit range _ t (
    add_unseen-keeps (candidate_at pool hit offset)
      (λ c. contextualize_chunk c (relation_at offset) hit offset none) s t h)

visit_offsets-adds :
    (pool : List ChunkRecord) (hit : ChunkRecord) (range : List ℤ) (s : Expansion)
    → Memᴰ (pos 0) range
    → contains (visit_offsets pool hit range s).seen hit.id ≡ true
unfolding visit_offsets candidate_at contextualize_chunk
visit_offsets-adds pool hit [] s m = elim m [ ]
visit_offsets-adds pool hit (offset ∷ range) s (Memᴰ.head e) =
    let added : ℤ → Expansion = λ o.
      add_unseen (candidate_at pool hit o) (λ c. contextualize_chunk c (relation_at o) hit o none)
        s in
    visit_offsets-keeps pool hit range _ hit.id (
      subst (λ o. contains (added o).seen hit.id ≡ true) e
        (add_unseen-adds hit (λ c. contextualize_chunk c (relation_at (pos 0)) hit (pos 0) none) s))
visit_offsets-adds pool hit (offset ∷ range) s (Memᴰ.tail m) = visit_offsets-adds pool hit range _ m

visit_hits-keeps :
    (pool : List ChunkRecord) (range : List ℤ) (rest : List ChunkRecord) (s : Expansion) (t : Text)
    → contains s.seen t ≡ true
    → contains (visit_hits pool range rest s).seen t ≡ true
unfolding visit_hits
visit_hits-keeps pool range [] s t h = h
visit_hits-keeps pool range (hit ∷ rest) s t h =
    visit_hits-keeps pool range rest _ t (visit_offsets-keeps pool hit range s t h)

visit_hits-adds :
    (pool : List ChunkRecord) (range : List ℤ) (rest : List ChunkRecord) (s : Expansion) (t : Text)
    → Memᴰ (pos 0) range
    → contains (ids rest) t ≡ true
    → contains (visit_hits pool range rest s).seen t ≡ true
unfolding visit_hits
visit_hits-adds pool range [] s t m h = cc
visit_hits-adds pool range (hit ∷ rest) s t m h = elim (Bool-cases (text_eq hit.id t)) [
  | inl same ↦ visit_hits-keeps pool range rest _ t (
      subst (λ u. contains (visit_offsets pool hit range s).seen u ≡ true)
        (text_eq_sound hit.id t same) (visit_offsets-adds pool hit range s m))
  | inr other ↦ visit_hits-adds pool range rest _ t m (ground arith)
]

pub All-intro : {A : Type 0} (P : A → Type 0) (xs : List A) → ((x : A) → Memᴰ x xs → P x) → All P xs
All-intro P [] f = tt
All-intro P (x ∷ xs) f = (f x (Memᴰ.head refl), All-intro P xs (λ y m. f y (Memᴰ.tail m)))

module _ (scope : RetrievalScope) (rows : List ChunkRecord) (before after : ℕ) where
  -- Where the hits have distinct ids, the expansion by neighbours lists no chunk twice, keeps every
  -- hit, and each chunk that it lists is a hit or a row that the scope allows, of a hit's document and
  -- within the window of the hit.
  pub expand_context_neighbors-Explained :
      (hits : List ChunkRecord)
      → distinct (ids hits) ≡ true
      → let expanded = expand_context_neighbors scope rows before after hits in
        (distinct (ids expanded) ≡ true)
        × ((t : Text) → contains (ids hits) t ≡ true → contains (ids expanded) t ≡ true)
        × All (Explained scope rows before after hits) expanded
  unfolding expand_context_neighbors
  expand_context_neighbors-Explained [] d = (refl, (λ t h. h), tt)
  expand_context_neighbors-Explained (hit ∷ hits) d =
      elim (Bool-cases ((before == 0) && (after == 0))) [
        | inl off ↦
            rw (off, if◌then◌else◌)
              (d, (λ t h. h), All-intro _ (hit ∷ hits) (λ e m. (e, e, m, refl, inl refl)))
        | inr on ↦
            let kept =
              visit_hits-IsGood scope rows before after (hit ∷ hits) (hit ∷ hits) nothing_yet
                (All-intro _ (hit ∷ hits) (λ h m. m)) (nothing_yet-IsKept _) in
            rw (on, if◌then◌else◌)
              (
                kept.no_repeat,
                (λ t h.
                    sym (kept.in_step t)
                    ∙ visit_hits-adds (allowed scope rows before after) (offsets before after)
                        (hit ∷ hits) nothing_yet t
                        (Memᴰ.append_right (offsets_before before) (Memᴰ.head refl)) h),
                kept.each,
              )
      ]
