-- ===== src/Retrieval/Context.antt =====
-- The context around the hits: neighbours and parent sections. The rows that the query returned are
-- an argument, whatever they are.
pub mod Once
pub mod Candidates
pub mod Neighbors
use exais_vector_store.Prelude.{
  ℕ, zero, suc, Bool, true, false, ◌&&◌, ◌||◌, not, List, [], ◌∷◌, ◌++◌, map, Option, none, some,
  ◌+◌, ◌-◌, leb, ltb, ◌==◌, if◌then◌else◌,
}
use exais_vector_store.Prelude.Int.{ℤ, pos, negsuc}
use exais_vector_store.Prelude.Text.{Text, codes, text_eq, contains, filter_by}
use exais_vector_store.Retrieval.Chunk.{
  ChunkRecord, Citation, Relation, direct, neighbor_before, neighbor_after, parent_section,
  RetrievalScope, chunk_allowed_by_scope,
}

-- `expanded` and `seen`
pub record Expansion : Type 0 where
  pub expanded : List ChunkRecord
  pub seen : List Text

abbrev pub nothing_yet : Expansion
nothing_yet = record { expanded = []; seen = [] }

-- the source after the change of the relation
abbrev pub source_of : Relation → Option Text → Option Text
source_of direct source = source
source_of neighbor_before source = some (codes "context_neighbor")
source_of neighbor_after source = some (codes "context_neighbor")
source_of parent_section source = some (codes "context_parent_section")

-- `contextual.citation or chunk_file_citation(contextual)`
abbrev pub citation_or_new : Option Citation → Citation
citation_or_new (some citation) = citation
citation_or_new none = record {
  context_relation = none;
  source_chunk_id = none;
  neighbor_offset = none;
  parent_heading_path = none;
}

-- the first, or what stood there before
abbrev pub or_before : {A : Type 0} → Option A → Option A → Option A
or_before none before = before
or_before (some a) before = some a

unfoldable pub contextualize_chunk :
    ChunkRecord → Relation → ChunkRecord → ℤ → Option (List Text) → ChunkRecord
contextualize_chunk chunk relation hit offset extra =
    let citation = citation_or_new chunk.citation in
    record chunk {
      source = source_of relation chunk.source;
      citation = some (record {
        context_relation = some relation;
        source_chunk_id = some hit.id;
        neighbor_offset = some offset;
        parent_heading_path = or_before extra citation.parent_heading_path;
      });
    }

-- skips a missing candidate and one that was seen
unfoldable pub add_unseen : Option ChunkRecord → (ChunkRecord → ChunkRecord) → Expansion → Expansion
add_unseen none view s = s
add_unseen (some c) view s =
    if contains s.seen c.id
    then s
    else record { expanded = s.expanded ++ view c ∷ []; seen = c.id ∷ s.seen }

-- the last row at the key wins
unfoldable pub by_doc_ordinal : List ChunkRecord → Text → ℕ → Option ChunkRecord
by_doc_ordinal [] document at = none
by_doc_ordinal (c ∷ rows) document at =
    or_before (by_doc_ordinal rows document at)
      (if text_eq c.document_id document && (c.ordinal == at) then some c else none)

-- `range(-before, 0)`
abbrev pub offsets_before : ℕ → List ℤ
offsets_before zero = []
offsets_before (suc n) = negsuc n ∷ offsets_before n

-- `count` offsets up from `from`
abbrev pub offsets_after : ℕ → ℕ → List ℤ
offsets_after zero from = []
offsets_after (suc count) from = pos from ∷ offsets_after count (from + 1)

-- `range(-before, after + 1)`
abbrev pub offsets : ℕ → ℕ → List ℤ
offsets before after = offsets_before before ++ offsets_after (suc after) 0

abbrev pub relation_at : ℤ → Relation
relation_at (negsuc n) = neighbor_before
relation_at (pos zero) = direct
relation_at (pos (suc n)) = neighbor_after

-- no row stands at a negative ordinal
unfoldable pub candidate_at : List ChunkRecord → ChunkRecord → ℤ → Option ChunkRecord
unfolding by_doc_ordinal
candidate_at rows hit (negsuc n) =
    if leb (n + 1) hit.ordinal
    then by_doc_ordinal rows hit.document_id (hit.ordinal - (n + 1))
    else none
candidate_at rows hit (pos zero) = some hit
candidate_at rows hit (pos (suc n)) = by_doc_ordinal rows hit.document_id (hit.ordinal + suc n)

unfoldable pub visit_offsets : List ChunkRecord → ChunkRecord → List ℤ → Expansion → Expansion
unfolding candidate_at contextualize_chunk add_unseen
visit_offsets rows hit [] s = s
visit_offsets rows hit (offset ∷ rest) s = visit_offsets rows hit rest (
    add_unseen (candidate_at rows hit offset)
      (λ c. contextualize_chunk c (relation_at offset) hit offset none) s)

unfoldable pub visit_hits : List ChunkRecord → List ℤ → List ChunkRecord → Expansion → Expansion
unfolding visit_offsets
visit_hits rows range [] s = s
visit_hits rows range (hit ∷ hits) s = visit_hits rows range hits (visit_offsets rows hit range s)

-- `rows` are the chunks of the rows that the query returned
unfoldable pub expand_context_neighbors :
    RetrievalScope → List ChunkRecord → ℕ → ℕ → List ChunkRecord → List ChunkRecord
unfolding visit_hits chunk_allowed_by_scope
expand_context_neighbors scope rows before after [] = []
expand_context_neighbors scope rows before after (hit ∷ hits) =
    if (before == 0) && (after == 0)
    then hit ∷ hits
    else (visit_hits (filter_by (λ c. chunk_allowed_by_scope c scope) rows) (offsets before after)
        (hit ∷ hits) nothing_yet).expanded
