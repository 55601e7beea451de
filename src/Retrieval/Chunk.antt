-- ===== src/Retrieval/Chunk.antt =====
-- A retrieved chunk and the scope that it is checked against, packages/svs_common/svs_common/schemas.py
-- and security.py. The fields that only travel with a chunk, and the keys of a citation that do not
-- tell why the chunk is there, are left out.
use exais_vector_store.Prelude.{
  ℕ, Bool, false, not, ◌||◌, List, [], ◌∷◌, Option, ltb, if◌then◌else◌,
}
use exais_vector_store.Prelude.Int.{ℤ}
use exais_vector_store.Prelude.Text.{Text, contains}

pub data Relation : Type 0 where
  direct : Relation
  neighbor_before : Relation
  neighbor_after : Relation
  parent_section : Relation

pub record Citation : Type 0 where
  pub context_relation : Option Relation
  pub source_chunk_id : Option Text
  pub neighbor_offset : Option ℤ
  pub parent_heading_path : Option (List Text)

pub record ChunkRecord : Type 0 where
  pub id : Text
  pub document_id : Text
  pub ordinal : ℕ
  pub heading_path : List Text
  pub security_level : ℕ
  pub allowed_groups : List Text
  pub allowed_roles : List Text
  pub source : Option Text
  pub citation : Option Citation

pub record RetrievalScope : Type 0 where
  pub groups : List Text
  pub roles : List Text
  pub max_security_level : ℕ

-- `set(xs).intersection(ys)` is not empty
abbrev pub intersects : List Text → List Text → Bool
intersects [] ys = false
intersects (x ∷ xs) ys = contains ys x || intersects xs ys

-- a restriction that is there and that no membership meets
abbrev pub excluded : List Text → List Text → Bool
excluded [] held = false
excluded (x ∷ xs) held = not (intersects (x ∷ xs) held)

unfoldable pub chunk_allowed_by_scope : ChunkRecord → RetrievalScope → Bool
chunk_allowed_by_scope chunk scope =
    if ltb scope.max_security_level chunk.security_level
    then false
    else if excluded chunk.allowed_roles scope.roles
    then false
    else not (excluded chunk.allowed_groups scope.groups)
