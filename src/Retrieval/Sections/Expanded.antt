-- ===== src/Retrieval/Sections/Expanded.antt =====
-- The sections: nothing twice, no hit lost, and nothing that the scope does not allow.
use mathlib.Core.List.{Memᴰ}
use exais_vector_store.Prelude.{
  some-inj, ◌≡◌, refl, sym, ◌∙◌, subst, inl, inr, Bool, true, ◌||◌, not, List, [], ◌∷◌, Option,
  none, some, arith, if◌then◌else◌, Bool-cases, All,
}
use exais_vector_store.Prelude.Text.{Text, text_eq, text_eq_sound, contains, filter_by}
use exais_vector_store.Retrieval.Chunk.{ChunkRecord, RetrievalScope, chunk_allowed_by_scope}
use exais_vector_store.Retrieval.Context.{Expansion, nothing_yet, contextualize_chunk}
use exais_vector_store.Retrieval.Context.Once.{
  ids, distinct, nothing_yet-IsKept, add_unseen-IsKept, add_unseen-keeps, add_unseen-adds,
}
use exais_vector_store.Retrieval.Context.Candidates.{filter_by_sound}
use exais_vector_store.Retrieval.Context.Neighbors.{All-intro}
use exais_vector_store.Retrieval.Sections.{
  prefix_of, sort_chunks, in_section, visit_section, visit_hit, visit_sections, no_prefix,
  expand_context_parent_sections,
}
use exais_vector_store.Retrieval.Sections.Kept.{
  IsAllowedRow, Explained, IsGood, as_hit, as_row, sort-All, visit_section-IsGood,
}

visit_section-keeps :
    (hit : ChunkRecord) (prefix : List Text) (pool : List ChunkRecord) (s : Expansion) (t : Text)
    → contains s.seen t ≡ true
    → contains (visit_section hit prefix pool s).seen t ≡ true
unfolding visit_section
visit_section-keeps hit prefix [] s t h =
    add_unseen-keeps (some hit) (as_hit hit (some prefix)) s t h
visit_section-keeps hit prefix (c ∷ pool) s t h =
    visit_section-keeps hit prefix pool _ t (
      add_unseen-keeps (if in_section hit prefix c then some c else none) (as_row hit prefix) s t h)

visit_hit-keeps :
    (pool : List ChunkRecord) (prefix : Option (List Text)) (hit : ChunkRecord) (s : Expansion)
    (t : Text)
    → contains s.seen t ≡ true
    → contains (visit_hit pool prefix hit s).seen t ≡ true
unfolding visit_hit
visit_hit-keeps pool none hit s t h = add_unseen-keeps (some hit) (as_hit hit none) s t h
visit_hit-keeps pool (some prefix) hit s t h = visit_section-keeps hit prefix pool s t h

visit_sections-keeps :
    (pool : List ChunkRecord) (prefixes : Text → Option (List Text)) (hits : List ChunkRecord)
    (s : Expansion) (t : Text)
    → contains s.seen t ≡ true
    → contains (visit_sections pool prefixes hits s).seen t ≡ true
unfolding visit_sections
visit_sections-keeps pool prefixes [] s t h = h
visit_sections-keeps pool prefixes (hit ∷ hits) s t h =
    visit_sections-keeps pool prefixes hits _ t (visit_hit-keeps pool (prefixes hit.id) hit s t h)

module _ (scope : RetrievalScope) (rows hits : List ChunkRecord) where
  visit_hit-IsGood :
      (hit : ChunkRecord) (prefix : Option (List Text)) (pool : List ChunkRecord) (s : Expansion)
      → Memᴰ hit hits
      → prefix_of hits hit.id ≡ prefix
      → All (IsAllowedRow scope rows) pool
      → IsGood scope rows hits s
      → IsGood scope rows hits (visit_hit pool prefix hit s)
        × (contains (visit_hit pool prefix hit s).seen hit.id ≡ true)
  unfolding visit_hit contextualize_chunk
  visit_hit-IsGood hit none pool s here known a good = (
    add_unseen-IsKept (Explained scope rows hits) (some hit) (as_hit hit none) s
        (λ c found. (refl, (hit, c, here, refl, inl (sym (some-inj found))))) good,
    add_unseen-adds hit (as_hit hit none) s,
  )
  visit_hit-IsGood hit (some prefix) pool s here known a good =
      visit_section-IsGood scope rows hits hit prefix pool s here known a good

  visit_sections-IsGood :
      (pool rest : List ChunkRecord) (s : Expansion)
      → All (IsAllowedRow scope rows) pool
      → All (λ hit. Memᴰ hit hits) rest
      → IsGood scope rows hits s
      → IsGood scope rows hits (visit_sections pool (prefix_of hits) rest s)
        × ((t : Text)
            → contains (ids rest) t ≡ true
            → contains (visit_sections pool (prefix_of hits) rest s).seen t ≡ true)
  unfolding visit_sections
  visit_sections-IsGood pool [] s a here good = (good, λ t h. cc)
  visit_sections-IsGood pool (hit ∷ rest) s a (member, here) good =
      let (better, added) =
        visit_hit-IsGood hit (prefix_of hits hit.id) pool s member refl a good in
      let (best, all) = visit_sections-IsGood pool rest _ a here better in
      (
        best,
        λ t h. elim (Bool-cases (text_eq hit.id t)) [
          | inl same ↦ visit_sections-keeps pool (prefix_of hits) rest _ t (
              subst (λ u. contains (visit_hit pool (prefix_of hits hit.id) hit s).seen u ≡ true)
                (text_eq_sound hit.id t same) added)
          | inr other ↦ all t (ground arith)
        ],
      )

  -- Where the hits have distinct ids, the expansion by parent sections lists no chunk twice, keeps
  -- every hit, and each chunk that it lists is a hit or a row that the scope allows, of a hit's
  -- document and below the parent heading of the hit.
  pub expand_context_parent_sections-Explained :
      (enabled : Bool)
      → distinct (ids hits) ≡ true
      → let expanded = expand_context_parent_sections scope rows enabled hits in
        (distinct (ids expanded) ≡ true)
        × ((t : Text) → contains (ids hits) t ≡ true → contains (ids expanded) t ≡ true)
        × All (Explained scope rows hits) expanded
  unfolding expand_context_parent_sections
  expand_context_parent_sections-Explained enabled d =
      elim (Bool-cases (not enabled || no_prefix hits)) [
        | inl off ↦
            rw (off, if◌then◌else◌)
              (d, (λ t h. h), All-intro _ hits (λ e m. (e, e, m, refl, inl refl)))
        | inr on ↦
            let pool = filter_by (λ c. chunk_allowed_by_scope c scope) rows in
            let allowed =
              sort-All (IsAllowedRow scope rows) pool
                (All-intro _ pool (λ c m. filter_by_sound _ rows c m)) in
            let (kept, all) =
              visit_sections-IsGood (sort_chunks pool) hits nothing_yet allowed
                (All-intro _ hits (λ h m. m)) (nothing_yet-IsKept _) in
            rw (on, if◌then◌else◌)
              (kept.no_repeat, (λ t h. sym (kept.in_step t) ∙ all t h), kept.each)
      ]
