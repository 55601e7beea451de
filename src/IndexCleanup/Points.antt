-- ===== src/IndexCleanup/Points.antt =====
-- The points that a cleanup selects are those of chunks that pass its test.
use exais_vector_store.Prelude.{
  ◌≡◌, sym, subst, inl, inr, Bool, true, false, ◌&&◌, ◌||◌, List, [], ◌∷◌, Option, none, some, All,
  All-mono, map-All, All-append, arith, if◌then◌else◌, Bool-cases,
}
use exais_vector_store.Prelude.Text.{
  Text, text_eq, text_eq_refl, filter_by, filter_by_hit, filter_by_miss,
}
use exais_vector_store.VectorStores.Rows.{ChunkRow, EmbeddingRow}
use exais_vector_store.IndexCleanup.{
  Deletion, points, documents, IndexRow, join, joined, embeddings_of, Scope,
}

module _ {A : Type 0} where
  abbrev pub any_of : (A → Bool) → List A → Bool
  any_of test [] = false
  any_of test (x ∷ xs) = test x || any_of test xs

  -- what holds of each element that passes a test holds of each that a filter keeps
  filter_by-All : (test : A → Bool) (xs : List A) → All (λ x. test x ≡ true) (filter_by test xs)
  filter_by-All test [] = tt
  filter_by-All test (x ∷ xs) = elim (Bool-cases (test x)) [
    | inl hit ↦ rw (hit, if◌then◌else◌) (hit, filter_by-All test xs)
    | inr miss ↦ rw (miss, if◌then◌else◌) (filter_by-All test xs)
  ]

-- the point of an embedding of the chunk
abbrev pub is_point : ChunkRow → Text → Text → EmbeddingRow → Bool
is_point c collection point e =
    text_eq e.chunk_id c.id
    && text_eq e.vector_collection collection
    && text_eq e.vector_point_id point

-- a chunk that passes the test has an embedding with that point
abbrev pub holds_point : (ChunkRow → Bool) → List ChunkRow → List EmbeddingRow → Text → Text → Bool
holds_point test chunks embeddings collection point =
    any_of (λ c. test c && any_of (is_point c collection point) embeddings) chunks

-- the points are those of chunks that pass the test; a query asks for no more than it may
abbrev pub IsWithin :
    (Scope → Type 0) → (ChunkRow → Bool) → List ChunkRow → List EmbeddingRow → Deletion → Type 0
IsWithin MayAsk test chunks embeddings (points collection ids) =
    All (λ id. holds_point test chunks embeddings collection id ≡ true) ids
IsWithin MayAsk test chunks embeddings (documents scope) = MayAsk scope

module _ (test : ChunkRow → Bool) where
  -- the row's point is one of those
  abbrev pub HasPoint : List ChunkRow → List EmbeddingRow → Option EmbeddingRow → Type 0
  HasPoint chunks embeddings none = Unit
  HasPoint chunks embeddings (some e) =
      holds_point test chunks embeddings e.vector_collection e.vector_point_id ≡ true

  any_own :
      (c : ChunkRow) (embeddings : List EmbeddingRow)
      → All
          (λ e. any_of (is_point c e.vector_collection e.vector_point_id) embeddings ≡ true)
          (embeddings_of c embeddings)
  any_own c [] = tt
  any_own c (e ∷ embeddings) =
      let Held : EmbeddingRow → Type 0 =
        λ r. any_of (is_point c r.vector_collection r.vector_point_id) (e ∷ embeddings) ≡ true in
      let rest : All Held (embeddings_of c embeddings) =
        All-mono (λ r. any_of (is_point c r.vector_collection r.vector_point_id) embeddings ≡ true)
          Held (λ r held. ground (arith, held)) (embeddings_of c embeddings)
          (any_own c embeddings) in
      elim (Bool-cases (text_eq e.chunk_id c.id)) [
        | inl hit ↦
            subst (All Held) (sym (filter_by_hit (λ r. text_eq r.chunk_id c.id) e embeddings hit)) (
              ground (arith, hit, text_eq_refl e.vector_collection, text_eq_refl e.vector_point_id),
              rest,
            )
        | inr miss ↦
            subst (All Held) (sym (filter_by_miss (λ r. text_eq r.chunk_id c.id) e embeddings miss))
              rest
      ]

  joined-HasPoint :
      (c : ChunkRow) (chunks : List ChunkRow) (embeddings mine : List EmbeddingRow)
      → test c ≡ true
      → All (λ e. any_of (is_point c e.vector_collection e.vector_point_id) embeddings ≡ true) mine
      → All (λ r. HasPoint (c ∷ chunks) embeddings r.embedding) (joined c mine)
  joined-HasPoint c chunks embeddings [] passed held = (tt, tt)
  joined-HasPoint c chunks embeddings (e ∷ mine) passed held =
      map-All (λ e. any_of (is_point c e.vector_collection e.vector_point_id) embeddings ≡ true)
        (λ r. HasPoint (c ∷ chunks) embeddings r.embedding)
        (λ e. record { chunk = c; embedding = some e }) (λ e held. ground (arith, passed, held))
        (e ∷ mine) held

  HasPoint-mono :
      (c : ChunkRow) (chunks : List ChunkRow) (embeddings : List EmbeddingRow)
      (e : Option EmbeddingRow)
      → HasPoint chunks embeddings e
      → HasPoint (c ∷ chunks) embeddings e
  HasPoint-mono c chunks embeddings none held = tt
  HasPoint-mono c chunks embeddings (some e) held = ground (arith, held)

  pub join-HasPoint :
      (chunks : List ChunkRow) (embeddings : List EmbeddingRow)
      → All (λ r. HasPoint chunks embeddings r.embedding) (join (filter_by test chunks) embeddings)
  unfolding join
  join-HasPoint [] embeddings = tt
  join-HasPoint (c ∷ chunks) embeddings =
      let Held : IndexRow → Type 0 = λ r. HasPoint (c ∷ chunks) embeddings r.embedding in
      let rest : All Held (join (filter_by test chunks) embeddings) =
        All-mono (λ r. HasPoint chunks embeddings r.embedding) Held
          (λ r. HasPoint-mono c chunks embeddings r.embedding)
          (join (filter_by test chunks) embeddings) (join-HasPoint chunks embeddings) in
      elim (Bool-cases (test c)) [
        | inl hit ↦
            subst (λ cs. All Held (join cs embeddings)) (sym (filter_by_hit test c chunks hit))
              (All-append Held (joined c (embeddings_of c embeddings))
                (join (filter_by test chunks) embeddings)
                (joined-HasPoint c chunks embeddings (embeddings_of c embeddings) hit
                  (any_own c embeddings))
                rest)
        | inr miss ↦
            subst (λ cs. All Held (join cs embeddings)) (sym (filter_by_miss test c chunks miss))
              rest
      ]
