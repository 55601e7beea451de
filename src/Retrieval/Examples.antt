-- ===== src/Retrieval/Examples.antt =====
-- Concrete hits and rows.
use exais_vector_store.Prelude.{ℕ, ◌≡◌, refl, true, List, [], ◌∷◌, none, some, All, concat}
use exais_vector_store.Prelude.Text.{Text, codes, contains}
use exais_vector_store.Retrieval.Chunk.{ChunkRecord, RetrievalScope}
use exais_vector_store.Retrieval.Context.{expand_context_neighbors, visit_hits}
use exais_vector_store.Retrieval.Sections.{expand_context_parent_sections}
use exais_vector_store.Retrieval.Merge.{
  merge_context_expansions, IsFrom, merge_context_expansions-IsFrom,
}
use exais_vector_store.Retrieval.Sections.Kept as SectionsKept
use exais_vector_store.Retrieval.Sections.Expanded.{expand_context_parent_sections-Explained}
use exais_vector_store.Retrieval.Context.Once.{ids, distinct}
use exais_vector_store.Retrieval.Context.Candidates.{Explained}
use exais_vector_store.Retrieval.Context.Neighbors.{expand_context_neighbors-Explained}

abbrev chunk_at : Text → ℕ → ℕ → ChunkRecord
chunk_at name at level = record {
  id = name;
  document_id = codes "d";
  ordinal = at;
  heading_path = [];
  security_level = level;
  allowed_groups = [];
  allowed_roles = codes "editor" ∷ [];
  source = some (codes "hybrid");
  citation = none;
}

abbrev editor : RetrievalScope
editor = record { groups = []; roles = codes "editor" ∷ []; max_security_level = 2 }

abbrev two_hits : List ChunkRecord
two_hits = chunk_at (codes "c") 3 1 ∷ chunk_at (codes "b") 2 1 ∷ []

-- the last row is above the level of the scope
abbrev four_rows : List ChunkRecord
four_rows =
    chunk_at (codes "b") 2 1
    ∷ chunk_at (codes "c") 3 1
    ∷ chunk_at (codes "a") 1 2
    ∷ chunk_at (codes "z") 4 3
    ∷ []

expanded_ids :
    ids (expand_context_neighbors editor four_rows 1 1 two_hits)
    ≡ codes "b" ∷ codes "c" ∷ codes "a" ∷ []
unfolding expand_context_neighbors visit_hits
expanded_ids = refl

expand_context_neighbors-Explained_example :
    let expanded = expand_context_neighbors editor four_rows 1 1 two_hits in
    (distinct (ids expanded) ≡ true)
    × ((t : Text) → contains (ids two_hits) t ≡ true → contains (ids expanded) t ≡ true)
    × All (Explained editor four_rows 1 1 two_hits) expanded
expand_context_neighbors-Explained_example =
    expand_context_neighbors-Explained editor four_rows 1 1 two_hits refl

abbrev below : Text → ℕ → ChunkRecord
below name at = record (chunk_at name at 1) { heading_path = codes "H" ∷ name ∷ [] }

abbrev one_hit : List ChunkRecord
one_hit = below (codes "b") 2 ∷ []

-- the last row stands under another heading
abbrev three_rows : List ChunkRecord
three_rows =
    below (codes "c") 3
    ∷ below (codes "b") 2
    ∷ record (below (codes "x") 1) { heading_path = codes "I" ∷ [] }
    ∷ []

section_ids :
    ids (expand_context_parent_sections editor three_rows true one_hit) ≡ codes "b" ∷ codes "c" ∷ []
unfolding expand_context_parent_sections
section_ids = refl

expand_context_parent_sections-Explained_example :
    let expanded = expand_context_parent_sections editor three_rows true one_hit in
    (distinct (ids expanded) ≡ true)
    × ((t : Text) → contains (ids one_hit) t ≡ true → contains (ids expanded) t ≡ true)
    × All (SectionsKept.Explained editor three_rows one_hit) expanded
expand_context_parent_sections-Explained_example =
    expand_context_parent_sections-Explained editor three_rows one_hit true refl

-- the neighbours and the sections of the same hits
abbrev expansions : List (List ChunkRecord)
expansions =
    expand_context_neighbors editor four_rows 1 1 two_hits
    ∷ expand_context_parent_sections editor three_rows true one_hit
    ∷ []

merged_ids :
    ids (merge_context_expansions two_hits expansions) ≡ codes "b" ∷ codes "c" ∷ codes "a" ∷ []
unfolding merge_context_expansions expand_context_neighbors expand_context_parent_sections
merged_ids = refl

merge_context_expansions-IsFrom_example :
    let merged = merge_context_expansions two_hits expansions in
    (distinct (ids merged) ≡ true) × All (IsFrom two_hits (concat expansions)) merged
merge_context_expansions-IsFrom_example = merge_context_expansions-IsFrom two_hits expansions
