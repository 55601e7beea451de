-- ===== src/Retrieval/Merge.antt =====
-- The merge of the expansions, hit by hit: `_merge_context_expansions`.
use mathlib.Core.List.{Memᴰ}
use exais_vector_store.Prelude.{
  some-inj, ◌≡◌, refl, subst, inl, inr, Bool, true, false, not, ◌&&◌, List, [], ◌∷◌, concat, Option,
  none, some, if◌then◌else◌, All, ◌⊎◌,
}
use exais_vector_store.Prelude.Text.{Text, text_eq, contains, filter_by}
use exais_vector_store.Retrieval.Chunk.{ChunkRecord, Citation}
use exais_vector_store.Retrieval.Context.{Expansion, nothing_yet, add_unseen}
use exais_vector_store.Retrieval.Context.Once.{
  ids, distinct, IsKept, nothing_yet-IsKept, add_unseen-IsKept,
}
use exais_vector_store.Retrieval.Context.Candidates.{filter_by_sound}
use exais_vector_store.Retrieval.Context.Neighbors.{All-intro}

-- `(chunk.citation or {}).get("source_chunk_id")`
abbrev pub cited_source : Option Citation → Option Text
cited_source none = none
cited_source (some citation) = citation.source_chunk_id

abbrev pub is_listed : List Text → Option Text → Bool
is_listed texts none = false
is_listed texts (some t) = contains texts t

abbrev pub is_id : Text → Option Text → Bool
is_id t none = false
is_id t (some s) = text_eq s t

-- the hit that a chunk is listed for; a chunk with another source stands for the hit of its own id
unfoldable pub bucket_id : List Text → ChunkRecord → Option Text
bucket_id direct_ids c =
    let source = cited_source c.citation in
    if not (is_listed direct_ids source) && contains direct_ids c.id then some c.id else source

-- the bucket of a hit's id, in the order of the expansions
unfoldable pub bucket : List Text → List ChunkRecord → Text → List ChunkRecord
unfolding bucket_id
bucket direct_ids listed hit_id = filter_by (λ c. is_id hit_id (bucket_id direct_ids c)) listed

-- `buckets.get(direct.id) or [direct]`
abbrev pub or_hit : List ChunkRecord → ChunkRecord → List ChunkRecord
or_hit [] hit = hit ∷ []
or_hit (c ∷ cs) hit = c ∷ cs

unfoldable pub add_all : List ChunkRecord → Expansion → Expansion
unfolding add_unseen
add_all [] s = s
add_all (c ∷ cs) s = add_all cs (add_unseen (some c) (λ d. d) s)

unfoldable pub merge_hits : List Text → List ChunkRecord → List ChunkRecord → Expansion → Expansion
unfolding bucket add_all
merge_hits direct_ids listed [] s = s
merge_hits direct_ids listed (hit ∷ hits) s =
    merge_hits direct_ids listed hits (add_all (or_hit (bucket direct_ids listed hit.id) hit) s)

unfoldable pub merge_context_expansions :
    List ChunkRecord → List (List ChunkRecord) → List ChunkRecord
unfolding merge_hits
merge_context_expansions hits expansions =
    (merge_hits (ids hits) (concat expansions) hits nothing_yet).expanded

module _ (hits : List ChunkRecord) (listed : List ChunkRecord) where
  -- a hit without a bucket, or a listed chunk whose bucket is that of a hit
  abbrev pub IsFrom : ChunkRecord → Type 0
  IsFrom c =
      (hit : ChunkRecord) × Memᴰ hit hits
      × ((c ≡ hit) ⊎ (Memᴰ c listed × (is_id hit.id (bucket_id (ids hits) c) ≡ true)))

  add_all-IsKept :
      (cs : List ChunkRecord) (s : Expansion)
      → All IsFrom cs
      → IsKept IsFrom s
      → IsKept IsFrom (add_all cs s)
  unfolding add_all
  add_all-IsKept [] s a kept = kept
  add_all-IsKept (c ∷ cs) s (from_hit, a) kept = add_all-IsKept cs _ a (
      add_unseen-IsKept IsFrom (some c) (λ d. d) s
        (λ d found. (refl, subst IsFrom (some-inj found) from_hit)) kept)

  or_hit-IsFrom :
      (hit : ChunkRecord) (cs : List ChunkRecord)
      → Memᴰ hit hits
      → All IsFrom cs
      → All IsFrom (or_hit cs hit)
  or_hit-IsFrom hit [] here a = ((hit, here, inl refl), tt)
  or_hit-IsFrom hit (c ∷ cs) here a = a

  merge_hits-IsKept :
      (rest : List ChunkRecord) (s : Expansion)
      → All (λ hit. Memᴰ hit hits) rest
      → IsKept IsFrom s
      → IsKept IsFrom (merge_hits (ids hits) listed rest s)
  unfolding merge_hits bucket
  merge_hits-IsKept [] s here kept = kept
  merge_hits-IsKept (hit ∷ rest) s (member, here) kept =
      let mine = bucket (ids hits) listed hit.id in
      let each : All IsFrom mine = All-intro IsFrom mine (λ c m. (
        hit,
        member,
        inr (filter_by_sound (λ d. is_id hit.id (bucket_id (ids hits) d)) listed c m),
      )) in
      merge_hits-IsKept rest _ here
        (add_all-IsKept (or_hit mine hit) s (or_hit-IsFrom hit mine member each) kept)

-- The merge lists no chunk twice, whatever the expansions list, and each chunk that it lists is a hit
-- or a chunk of an expansion that is listed for a hit.
pub merge_context_expansions-IsFrom :
    (hits : List ChunkRecord) (expansions : List (List ChunkRecord))
    → let merged = merge_context_expansions hits expansions in
      (distinct (ids merged) ≡ true) × All (IsFrom hits (concat expansions)) merged
unfolding merge_context_expansions
merge_context_expansions-IsFrom hits expansions =
    let kept =
      merge_hits-IsKept hits (concat expansions) hits nothing_yet (All-intro _ hits (λ h m. m))
        (nothing_yet-IsKept _) in
    (kept.no_repeat, kept.each)
