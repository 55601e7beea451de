-- ===== src/Retrieval/Sections.antt =====
-- The sections around the hits: the chunks below the heading that a hit stands under. The rows that
-- the query returned are an argument, whatever they are.
pub mod Kept
pub mod Expanded
use exais_vector_store.Prelude.{
  ℕ, zero, suc, Bool, true, false, ◌&&◌, ◌||◌, not, List, [], ◌∷◌, Option, none, some, ◌-◌, leb,
  ltb, ◌==◌, if◌then◌else◌, length, take,
}
use exais_vector_store.Prelude.Int.{ℤ, pos, negsuc}
use exais_vector_store.Prelude.Text.{Text, text_eq, filter_by}
use exais_vector_store.Retrieval.Chunk.{
  ChunkRecord, direct, Relation, parent_section, RetrievalScope, chunk_allowed_by_scope,
}
use exais_vector_store.Retrieval.Context.{
  Expansion, nothing_yet, add_unseen, contextualize_chunk, or_before,
}

-- `xs[:-1]`
abbrev pub without_last : List Text → List Text
without_last [] = []
without_last (x ∷ []) = []
without_last (x ∷ y ∷ xs) = x ∷ without_last (y ∷ xs)

unfoldable pub parent_heading_prefix : List Text → List Text
parent_heading_prefix heading = if leb (length heading) 1 then heading else without_last heading

abbrev pub nonempty : List Text → Option (List Text)
nonempty [] = none
nonempty (x ∷ xs) = some (x ∷ xs)

-- `prefix_by_chunk_id.get(chunk_id)`; the last chunk with the id and a prefix wins
unfoldable pub prefix_of : List ChunkRecord → Text → Option (List Text)
unfolding parent_heading_prefix
prefix_of [] chunk_id = none
prefix_of (c ∷ chunks) chunk_id =
    or_before (prefix_of chunks chunk_id)
      (if text_eq c.id chunk_id then nonempty (parent_heading_prefix c.heading_path) else none)

-- the order of strings
abbrev pub text_lt : Text → Text → Bool
text_lt [] [] = false
text_lt [] (y ∷ t) = true
text_lt (x ∷ s) [] = false
text_lt (x ∷ s) (y ∷ t) = ltb x y || ((x == y) && text_lt s t)

-- by document and ordinal
abbrev pub comes_before : ChunkRecord → ChunkRecord → Bool
comes_before c d =
    text_lt c.document_id d.document_id
    || (text_eq c.document_id d.document_id && ltb c.ordinal d.ordinal)

abbrev pub insert_chunk : ChunkRecord → List ChunkRecord → List ChunkRecord
insert_chunk c [] = c ∷ []
insert_chunk c (d ∷ ds) =
    let rest = insert_chunk c ds in if comes_before d c then d ∷ rest else c ∷ d ∷ ds

unfoldable pub sort_chunks : List ChunkRecord → List ChunkRecord
sort_chunks [] = []
sort_chunks (c ∷ cs) = insert_chunk c (sort_chunks cs)

abbrev pub headings_eq : List Text → List Text → Bool
headings_eq [] [] = true
headings_eq [] (y ∷ ys) = false
headings_eq (x ∷ xs) [] = false
headings_eq (x ∷ xs) (y ∷ ys) = text_eq x y && headings_eq xs ys

abbrev pub difference : ℕ → ℕ → ℤ
difference m n = if leb n m then pos (m - n) else negsuc (n - m - 1)

-- of the hit's document, and under the prefix
abbrev pub in_section : ChunkRecord → List Text → ChunkRecord → Bool
in_section hit prefix c =
    text_eq c.document_id hit.document_id
    && headings_eq (take (length prefix) c.heading_path) prefix

abbrev pub relation_to : ChunkRecord → ChunkRecord → Relation
relation_to hit c = if text_eq c.id hit.id then direct else parent_section

unfoldable pub visit_section : ChunkRecord → List Text → List ChunkRecord → Expansion → Expansion
unfolding add_unseen contextualize_chunk
visit_section hit prefix [] s =
    add_unseen (some hit) (λ c. contextualize_chunk c direct hit (pos 0) (some prefix)) s
visit_section hit prefix (c ∷ cs) s = visit_section hit prefix cs (
    add_unseen (if in_section hit prefix c then some c else none)
      (λ d.
        contextualize_chunk d (relation_to hit d) hit (difference d.ordinal hit.ordinal)
          (some prefix))
      s)

unfoldable pub visit_hit :
    List ChunkRecord → Option (List Text) → ChunkRecord → Expansion → Expansion
unfolding visit_section
visit_hit pool none hit s =
    add_unseen (some hit) (λ c. contextualize_chunk c direct hit (pos 0) none) s
visit_hit pool (some prefix) hit s = visit_section hit prefix pool s

unfoldable pub visit_sections :
    List ChunkRecord → (Text → Option (List Text)) → List ChunkRecord → Expansion → Expansion
unfolding visit_hit
visit_sections pool prefixes [] s = s
visit_sections pool prefixes (hit ∷ hits) s =
    visit_sections pool prefixes hits (visit_hit pool (prefixes hit.id) hit s)

abbrev pub is_missing : Option (List Text) → Bool
is_missing none = true
is_missing (some prefix) = false

-- `parent_specs` is empty, as it is where there is no chunk
abbrev pub no_prefix : List ChunkRecord → Bool
no_prefix [] = true
no_prefix (c ∷ chunks) =
    is_missing (nonempty (parent_heading_prefix c.heading_path)) && no_prefix chunks

unfoldable pub expand_context_parent_sections :
    RetrievalScope → List ChunkRecord → Bool → List ChunkRecord → List ChunkRecord
unfolding visit_sections prefix_of sort_chunks chunk_allowed_by_scope
expand_context_parent_sections scope rows enabled chunks =
    if not enabled || no_prefix chunks
    then chunks
    else (visit_sections (sort_chunks (filter_by (λ c. chunk_allowed_by_scope c scope) rows))
        (prefix_of chunks) chunks nothing_yet).expanded
