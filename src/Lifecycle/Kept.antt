-- ===== src/Lifecycle/Kept.antt =====
-- A deletion and a sweep retire the chunks of the stores that they end.
use exais_vector_store.VectorStores.Changes.{delete_found, delete_store, drop_chunk}
use exais_vector_store.Maintenance.{
  enqueue_each, retire_stores, is_expiring, expiring_ids, expire_store, retire_chunk,
}
use exais_vector_store.IndexCleanup.{enqueue_purge_stale_vectors, no_ids, given_ids, is_given}
use exais_vector_store.Prelude.{
  ℕ, ◌≡◌, refl, ◌∙◌, inl, inr, not, ◌&&◌, List, [], ◌∷◌, Option, none, some, map, if◌then◌else◌,
  Bool-cases, All, false, arith, ap, All-mono, subst, sym,
}
use exais_vector_store.Prelude.Text.{Text, codes, contains, text_eq_refl}
use exais_vector_store.Auth.Keys.Rows.{Principal}
use exais_vector_store.VectorStores.Rows.{StoreTables, VectorStore}
use exais_vector_store.Lifecycle.Apart.{
  AreApart, drop_chunk-IsApart, AreApart-map, All-trivial, retire_chunk-IsApart,
}

-- no chunk that is searched is of a store that is gone
abbrev pub IsRetired : StoreTables → Type 0
IsRetired t = AreApart t.chunks t.stores

-- the jobs aside, the tables are as they were
abbrev pub IsQueuing : StoreTables → StoreTables → Type 0
IsQueuing t t2 = (t2.chunks ≡ t.chunks) × (t2.stores ≡ t.stores)

pub enqueue-IsQueuing :
    (job_id : Text) (now : ℕ) (p : Principal) (versions : List Text)
    (document_id vector_store_id : Option Text) (reason : Text) (t : StoreTables)
    → IsQueuing t
        (enqueue_purge_stale_vectors job_id now p versions document_id vector_store_id reason t).1
unfolding enqueue_purge_stale_vectors
enqueue-IsQueuing job_id now p versions document_id vector_store_id reason t =
    elim (Bool-cases (
      no_ids (given_ids versions)
      && not (is_given document_id)
      && not (is_given vector_store_id))) [
        | inl nothing ↦ rw (nothing, if◌then◌else◌) (refl, refl)
        | inr something ↦ rw (something, if◌then◌else◌) (refl, refl)
      ]

pub enqueue_each-IsQueuing :
    (job_id : Text → Text) (now : ℕ) (p : Principal) (ids : List Text) (t : StoreTables)
    → IsQueuing t (enqueue_each job_id now p ids t).1
unfolding enqueue_each
enqueue_each-IsQueuing job_id now p [] t = (refl, refl)
enqueue_each-IsQueuing job_id now p (vs_id ∷ ids) t =
    let t2 : StoreTables =
      (enqueue_purge_stale_vectors (job_id vs_id) now p [] none (some vs_id)
        (codes "vector_store_expired") t).1 in
    let (chunks, stores) = enqueue_each-IsQueuing job_id now p ids t2 in
    let (chunks1, stores1) =
      enqueue-IsQueuing (job_id vs_id) now p [] none (some vs_id) (codes "vector_store_expired")
        t in
    (chunks ∙ chunks1, stores ∙ stores1)

IsRetired-IsQueuing : (t t2 : StoreTables) → IsQueuing t t2 → IsRetired t → IsRetired t2
IsRetired-IsQueuing t t2 (chunks, stores) retired = rw (chunks, stores) retired

pub delete-IsRetired :
    (job_id : Text) (now : ℕ) (p : Principal) (id : Text) (found : Option VectorStore)
    (t : StoreTables)
    → IsRetired t
    → IsRetired (delete_found job_id now p id found t).1
unfolding delete_found
delete-IsRetired job_id now p id none t retired = retired
delete-IsRetired job_id now p id (some s) t retired =
    let gone : StoreTables = record t {
      stores = map (delete_store now p id) t.stores;
      chunks = map (drop_chunk now p id) t.chunks;
    } in
    IsRetired-IsQueuing gone
      (enqueue_purge_stale_vectors job_id now p [] none (some id) (codes "vector_store_deleted")
        gone).1
      (enqueue-IsQueuing job_id now p [] none (some id) (codes "vector_store_deleted") gone)
      (AreApart-map (λ s. Unit) (delete_store now p id) (drop_chunk now p id)
        (λ c s _. drop_chunk-IsApart now p id c s) t.chunks t.stores (All-trivial t.stores) retired)

-- a store that expires is among the ids
abbrev pub IsListed : ℕ → Principal → List Text → VectorStore → Type 0
IsListed now p ids s = (is_expiring now p s && not (contains ids s.id)) ≡ false

pub expiring_ids-IsListed :
    (now : ℕ) (p : Principal) (stores : List VectorStore)
    → All (IsListed now p (expiring_ids now p stores)) stores
expiring_ids-IsListed now p [] = tt
expiring_ids-IsListed now p (s ∷ stores) =
    let rest = expiring_ids-IsListed now p stores in
    elim (Bool-cases (is_expiring now p s)) [
      | inl hit ↦
          let more : expiring_ids now p (s ∷ stores) ≡ s.id ∷ expiring_ids now p stores =
            rw (hit, if◌then◌else◌) refl in
          subst (λ ids. All (IsListed now p ids) (s ∷ stores)) (sym more)
            (
              ground (arith, text_eq_refl s.id),
              All-mono (IsListed now p (expiring_ids now p stores))
                  (IsListed now p (s.id ∷ expiring_ids now p stores))
                  (λ r listed. ground (arith, listed)) stores rest,
            )
      | inr miss ↦
          let same : expiring_ids now p (s ∷ stores) ≡ expiring_ids now p stores =
            rw (miss, if◌then◌else◌) refl in
          subst (λ ids. All (IsListed now p ids) (s ∷ stores)) (sym same)
            (ground (arith, miss), rest)
    ]

expire_none :
    (now : ℕ) (p : Principal) (stores : List VectorStore)
    → All (IsListed now p []) stores
    → map (expire_store now p) stores ≡ stores
unfolding expire_store
expire_none now p [] none_listed = refl
expire_none now p (s ∷ stores) (first, rest) =
    let idle : is_expiring now p s ≡ false = ground (arith, first) in
    rw (idle, if◌then◌else◌) (ap (◌∷◌ s) (expire_none now p stores rest))

pub retire_stores-IsRetired :
    (job_id : Text → Text) (now : ℕ) (p : Principal) (ids : List Text) (t : StoreTables)
    → All (IsListed now p ids) t.stores
    → IsRetired t
    → IsRetired
        (retire_stores job_id now p ids record t { stores = map (expire_store now p) t.stores })
unfolding retire_stores
retire_stores-IsRetired job_id now p [] t listed retired =
    rw (expire_none now p t.stores listed) retired
retire_stores-IsRetired job_id now p (x ∷ ids) t listed retired =
    let swept_tables : StoreTables = record t {
      stores = map (expire_store now p) t.stores;
      chunks = map (retire_chunk now p (x ∷ ids)) t.chunks;
    } in
    IsRetired-IsQueuing swept_tables (enqueue_each job_id now p (x ∷ ids) swept_tables).1
      (enqueue_each-IsQueuing job_id now p (x ∷ ids) swept_tables)
      (AreApart-map (IsListed now p (x ∷ ids)) (expire_store now p) (retire_chunk now p (x ∷ ids))
        (retire_chunk-IsApart now p (x ∷ ids)) t.chunks t.stores listed retired)

pub retire_stores-same :
    (job_id : Text → Text) (now : ℕ) (q : Principal) (ids : List Text) (t : StoreTables)
    → (retire_stores job_id now q ids t).stores ≡ t.stores
unfolding retire_stores
retire_stores-same job_id now q [] t = refl
retire_stores-same job_id now q (x ∷ ids) t =
    (enqueue_each-IsQueuing job_id now q (x ∷ ids)
      record t { chunks = map (retire_chunk now q (x ∷ ids)) t.chunks }).1
