-- ===== src/IndexCleanup/Scoped.antt =====
-- What a cleanup asks the indexes to delete is the caller's.
use exais_vector_store.Prelude.Result.{ok}
use exais_vector_store.IndexCleanup.Deletes.{delete_selected, if_given, scopes_of, base_scope}
use exais_vector_store.IndexCleanup.Requests.{delete_selected-IsChosen}
use exais_vector_store.Auth.Keys.Rows.{opt_eq}
use exais_vector_store.Prelude.{
  All-mono, ◌≡◌, inl, inr, Bool, true, List, [], ◌∷◌, Option, some, All, Bool-cases, arith, ◌&&◌,
  none, false, map, ap, ◌||◌, refl,
}
use exais_vector_store.Prelude.Text.{Text, text_eq, contains, text_eq_refl}
use exais_vector_store.Auth.Keys.Rows.{Principal}
use exais_vector_store.VectorStores.Rows.{ChunkRow, EmbeddingRow, StoreTables}
use exais_vector_store.IndexCleanup.{
  Deletion, points, documents, StoreTables, Indexes, Deleted, ok, is_selected, Scope, matches,
  matches_opt, no_ids,
}
use exais_vector_store.IndexCleanup.Points.{holds_point, IsWithin, any_of, is_point}

-- an id that is named; a blank one names nothing
abbrev pub named : Option Text → Option Text
named none = none
named (some []) = none
named (some (x ∷ id)) = some (x ∷ id)

-- the id is the one that is named, if one is
abbrev pub is_named : Option Text → Option Text → Bool
is_named none id = true
is_named (some []) id = true
is_named (some (x ∷ wanted)) none = false
is_named (some (x ∷ wanted)) (some id) = text_eq id (x ∷ wanted)

-- the version is one of those that are named, if any is
abbrev pub is_one_of : List Text → Text → Bool
is_one_of [] version = true
is_one_of (v ∷ versions) version = any_of (λ w. text_eq w version) (v ∷ versions)

-- a chunk of the caller's, of the document, the vector store and one of the versions that are named
abbrev pub is_in_scope : Principal → Option Text → Option Text → List Text → ChunkRow → Bool
is_in_scope p document_id vector_store_id versions c =
    text_eq c.tenant_id p.tenant_id
    && opt_eq (some c.business_instance_id) p.business_instance_id
    && is_named document_id (some c.document_id)
    && is_named vector_store_id c.vector_store_id
    && is_one_of versions c.document_version_id

-- what a query names besides the tenant and the instance
abbrev pub NamesScope : Option Text → Option Text → List Text → Scope → Type 0
NamesScope document_id vector_store_id [] scope =
    (scope.document_id ≡ named document_id) × (scope.vector_store_id ≡ named vector_store_id)
NamesScope document_id vector_store_id (v ∷ versions) scope =
    (version : Text) × (scope.document_version_id ≡ some version)
    × (is_one_of (v ∷ versions) version ≡ true)

-- a query of the caller's tenant and instance, for what is named
abbrev pub MayAsk : Principal → Option Text → Option Text → List Text → Scope → Type 0
MayAsk p document_id vector_store_id versions scope =
    (scope.tenant_id ≡ p.tenant_id)
    × (scope.business_instance_id ≡ p.business_instance_id)
    × NamesScope document_id vector_store_id versions scope

if_given-named : (id : Option Text) → if_given id ≡ named id
if_given-named none = refl
if_given-named (some []) = refl
if_given-named (some (x ∷ id)) = refl

matches-is_named :
    (wanted : Option Text) (id : Text) → matches wanted id ≡ is_named wanted (some id)
matches-is_named none id = refl
matches-is_named (some []) id = refl
matches-is_named (some (x ∷ wanted)) id = refl

matches_opt-is_named : (wanted id : Option Text) → matches_opt wanted id ≡ is_named wanted id
matches_opt-is_named none none = refl
matches_opt-is_named none (some id) = refl
matches_opt-is_named (some []) none = refl
matches_opt-is_named (some []) (some id) = refl
matches_opt-is_named (some (x ∷ wanted)) none = refl
matches_opt-is_named (some (x ∷ wanted)) (some id) = refl

contains-any_of :
    (versions : List Text) (version : Text)
    → contains versions version ≡ any_of (λ w. text_eq w version) versions
contains-any_of [] version = refl
contains-any_of (v ∷ versions) version =
    ap (λ found. text_eq v version || found) (contains-any_of versions version)

versions-is_one_of :
    (versions : List Text) (version : Text)
    → (no_ids versions || contains versions version) ≡ is_one_of versions version
versions-is_one_of [] version = refl
versions-is_one_of (v ∷ versions) version = contains-any_of (v ∷ versions) version

selected_in_scope :
    (p : Principal) (document_id vector_store_id : Option Text) (versions : List Text)
    (c : ChunkRow)
    → is_selected p document_id vector_store_id versions c ≡ true
    → is_in_scope p document_id vector_store_id versions c ≡ true
unfolding is_selected
selected_in_scope p document_id vector_store_id versions c selected = ground (
  arith,
  selected,
  matches-is_named document_id c.document_id,
  matches_opt-is_named vector_store_id c.vector_store_id,
  versions-is_one_of versions c.document_version_id,
)

-- the queries for versions, each one of those that are named
versions-MayAsk :
    (p : Principal) (document_id vector_store_id : Option Text) (v : Text)
    (versions later : List Text)
    → All (λ w. is_one_of (v ∷ versions) w ≡ true) later
    → All
        (MayAsk p document_id vector_store_id (v ∷ versions))
        (map (λ w. record (base_scope p) { document_version_id = some w }) later)
versions-MayAsk p document_id vector_store_id v versions [] all = tt
versions-MayAsk p document_id vector_store_id v versions (w ∷ later) (first, rest) = (
  (refl, refl, (w, refl, first)),
  versions-MayAsk p document_id vector_store_id v versions later rest,
)

any_of_self : (versions : List Text) → All (λ w. any_of (λ v. text_eq v w) versions ≡ true) versions
any_of_self [] = tt
any_of_self (v ∷ versions) = (
  ground (arith, text_eq_refl v),
  All-mono (λ w. any_of (λ u. text_eq u w) versions ≡ true)
      (λ w. any_of (λ u. text_eq u w) (v ∷ versions) ≡ true) (λ w held. ground (arith, held))
      versions (any_of_self versions),
)

scopes_of-MayAsk :
    (p : Principal) (document_id vector_store_id : Option Text) (versions : List Text)
    → All
        (MayAsk p document_id vector_store_id versions)
        (scopes_of p document_id vector_store_id versions)
scopes_of-MayAsk p document_id vector_store_id [] =
    ((refl, refl, (if_given-named document_id, if_given-named vector_store_id)), tt)
scopes_of-MayAsk p document_id vector_store_id (v ∷ versions) =
    versions-MayAsk p document_id vector_store_id v versions (v ∷ versions)
      (any_of_self (v ∷ versions))

module _ (test wider : ChunkRow → Bool)
    (implied : (c : ChunkRow) → test c ≡ true → wider c ≡ true) where
  holds_point_mono :
      (chunks : List ChunkRow) (embeddings : List EmbeddingRow) (collection point : Text)
      → holds_point test chunks embeddings collection point ≡ true
      → holds_point wider chunks embeddings collection point ≡ true
  holds_point_mono [] embeddings collection point held = cc
  holds_point_mono (c ∷ chunks) embeddings collection point held =
      elim (Bool-cases (test c && any_of (is_point c collection point) embeddings)) [
        | inl here ↦ let wide = implied c (ground (arith, here)) in ground (arith, here, wide)
        | inr there ↦
            let later =
              holds_point_mono chunks embeddings collection point (ground (arith, held, there)) in
            ground (arith, later)
      ]

  IsWithin-mono :
      (May : Scope → Type 0) (chunks : List ChunkRow) (embeddings : List EmbeddingRow)
      (d : Deletion)
      → IsWithin May test chunks embeddings d
      → IsWithin May wider chunks embeddings d
  IsWithin-mono May chunks embeddings (points collection ids) within =
      All-mono (λ id. holds_point test chunks embeddings collection id ≡ true)
        (λ id. holds_point wider chunks embeddings collection id ≡ true)
        (holds_point_mono chunks embeddings collection) ids within
  IsWithin-mono May chunks embeddings (documents scope) within = within

-- A cleanup stays within its tenant and its scope. Each point that it asks Qdrant to delete is that of
-- an embedding of a chunk of the caller's tenant and instance, of the document and the vector store
-- that are given, where they are, and of one of the versions that are given, where any is. Each query
-- that it sends to OpenSearch names that tenant and instance, and one of the versions, or, where no
-- version is given, the document and the vector store that are.
pub delete_selected-IsWithin :
    {E : Type 0} (indexes : Indexes E) (p : Principal) (document_id vector_store_id : Option Text)
    (versions : List Text) (t : StoreTables) (result : Deleted)
    → delete_selected indexes p document_id vector_store_id versions t ≡ ok result
    → All
        (IsWithin
          (MayAsk p document_id vector_store_id versions)
          (is_in_scope p document_id vector_store_id versions)
          t.chunks
          t.embeddings)
        result.requests
delete_selected-IsWithin indexes p document_id vector_store_id versions t result is =
    let test : ChunkRow → Bool = is_selected p document_id vector_store_id versions in
    let wider : ChunkRow → Bool = is_in_scope p document_id vector_store_id versions in
    let May : Scope → Type 0 = MayAsk p document_id vector_store_id versions in
    All-mono (IsWithin May test t.chunks t.embeddings) (IsWithin May wider t.chunks t.embeddings)
      (IsWithin-mono test wider (selected_in_scope p document_id vector_store_id versions) May
        t.chunks t.embeddings)
      result.requests
      (delete_selected-IsChosen indexes May p document_id vector_store_id versions t result
        (scopes_of-MayAsk p document_id vector_store_id versions) is)
