-- ===== src/Lifecycle/Apart.antt =====
-- A chunk that is searched belongs to no vector store that is deleted or expired.
use exais_vector_store.VectorStores.Policy.{Casts, ExpiryPolicy}
use exais_vector_store.Maintenance.{
  retire_chunk, expire_store, is_expiring, in_ids, mark_deleted, is_delete_queued,
}
use exais_vector_store.Prelude.{
  ℕ, ◌≡◌, refl, ap, subst, inl, inr, Bool, true, false, ◌&&◌, ◌||◌, List, Option, none, some, All,
  arith, if◌then◌else◌, Bool-cases, ◌∷◌, map, map-All, All-mono, [], not,
}
use exais_vector_store.Prelude.Text.{Text, text_eq, text_eq_sound, contains}
use exais_vector_store.Auth.Keys.Rows.{Principal, opt_eq}
use exais_vector_store.VectorStores.Rows.{VectorStore, ChunkRow, owns, is_store, Attribute}
use exais_vector_store.VectorStores.{is_deleted, is_expired, refresh_store, is_refreshable}
use exais_vector_store.VectorStores.Changes.{
  delete_store, drop_chunk, patch_store, Patch, set_expiry, name_kept,
}

-- the chunk is of that store
abbrev pub is_of : ChunkRow → VectorStore → Bool
is_of c s =
    opt_eq c.vector_store_id (some s.id)
    && text_eq c.tenant_id s.tenant_id
    && text_eq c.business_instance_id s.business_instance_id

abbrev pub is_gone : VectorStore → Bool
is_gone s = is_deleted s.status || is_expired s.status

-- not an active chunk of a store that is gone
abbrev pub IsApart : ChunkRow → VectorStore → Type 0
IsApart c s = c.active && (is_of c s && is_gone s) ≡ false

abbrev pub AreApart : List ChunkRow → List VectorStore → Type 0
AreApart chunks stores = All (λ c. All (IsApart c) stores) chunks

opt_eq_sound : (o : Option Text) (t : Text) → opt_eq o (some t) ≡ true → o ≡ some t
opt_eq_sound none t is = cc
opt_eq_sound (some s) t is = ap some (text_eq_sound s t is)

-- what is owned of a store is owned of its chunks
owns-is_of :
    (p : Principal) (c : ChunkRow) (s : VectorStore)
    → is_of c s ≡ true
    → owns p s.tenant_id s.business_instance_id ≡ true
    → owns p c.tenant_id c.business_instance_id ≡ true
owns-is_of p c s of_s owned =
    let tenant = text_eq_sound c.tenant_id s.tenant_id (ground (arith, of_s)) in
    let biz = text_eq_sound c.business_instance_id s.business_instance_id (ground (arith, of_s)) in
    rw (tenant, biz) owned

-- the chunks of a store that is deleted are dropped with it
pub drop_chunk-IsApart :
    (now : ℕ) (p : Principal) (id : Text) (c : ChunkRow) (s : VectorStore)
    → IsApart c s
    → IsApart (drop_chunk now p id c) (delete_store now p id s)
unfolding drop_chunk delete_store
drop_chunk-IsApart now p id c s apart =
    elim (Bool-cases
      (owns p c.tenant_id c.business_instance_id && opt_eq c.vector_store_id (some id))) [
        | inl dropped ↦ rw (dropped, if◌then◌else◌) refl
        | inr kept ↦
            rw (kept, if◌then◌else◌)
              (elim (Bool-cases (is_store p id s)) [
                | inl mine ↦
                    rw (mine, if◌then◌else◌)
                      (elim (Bool-cases (is_of c s)) [
                        | inl of_s ↦
                            let owned = owns-is_of p c s of_s (ground (arith, mine)) in
                            let same = text_eq_sound s.id id (ground (arith, mine)) in
                            let linked : opt_eq c.vector_store_id (some id) ≡ true =
                              subst (λ i. opt_eq c.vector_store_id (some i) ≡ true) same
                                (ground (arith, of_s)) in
                            absurd (ground (arith, kept, owned, linked))
                        | inr other ↦ ground (arith, other)
                      ])
                | inr other ↦ rw (other, if◌then◌else◌) apart
              ])
      ]

-- the chunks of a store that expires are retired with it
pub retire_chunk-IsApart :
    (now : ℕ) (p : Principal) (ids : List Text) (c : ChunkRow) (s : VectorStore)
    → (is_expiring now p s && not (contains ids s.id)) ≡ false
    → IsApart c s
    → IsApart (retire_chunk now p ids c) (expire_store now p s)
unfolding retire_chunk expire_store
retire_chunk-IsApart now p ids c s listed apart =
    elim (Bool-cases
      (owns p c.tenant_id c.business_instance_id && in_ids ids c.vector_store_id && c.active)) [
        | inl dropped ↦ rw (dropped, if◌then◌else◌) refl
        | inr kept ↦
            rw (kept, if◌then◌else◌)
              (elim (Bool-cases (is_expiring now p s)) [
                | inl mine ↦
                    rw (mine, if◌then◌else◌)
                      (elim (Bool-cases (is_of c s)) [
                        | inl of_s ↦
                            let owned = owns-is_of p c s of_s (ground (arith, mine)) in
                            let same = opt_eq_sound c.vector_store_id s.id (ground (arith, of_s)) in
                            let inside : contains ids s.id ≡ true = ground (arith, listed, mine) in
                            let linked : in_ids ids c.vector_store_id ≡ true = rw same inside in
                            ground (arith, kept, owned, linked)
                        | inr other ↦ ground (arith, other)
                      ])
                | inr other ↦ rw (other, if◌then◌else◌) apart
              ])
      ]

All-both :
    {A : Type 0} (P Q : A → Type 0) (xs : List A) → All P xs → All Q xs → All (λ x. P x × Q x) xs
All-both P Q [] ps qs = tt
All-both P Q (x ∷ xs) (p, ps) (q, qs) = ((p, q), All-both P Q xs ps qs)

-- a change of the stores and one of the chunks together
pub AreApart-map :
    (Q : VectorStore → Type 0) (f : VectorStore → VectorStore) (g : ChunkRow → ChunkRow)
    → ((c : ChunkRow) (s : VectorStore) → Q s → IsApart c s → IsApart (g c) (f s))
    → (chunks : List ChunkRow) (stores : List VectorStore) → All Q stores
    → AreApart chunks stores
    → AreApart (map g chunks) (map f stores)
AreApart-map Q f g step chunks stores listed apart =
    map-All (λ c. All (IsApart c) stores) (λ c. All (IsApart c) (map f stores)) g
      (λ c row.
        map-All (λ s. Q s × IsApart c s) (IsApart (g c)) f (λ s (q, a). step c s q a) stores
          (All-both Q (IsApart c) stores listed row))
      chunks apart

pub All-trivial : {A : Type 0} (xs : List A) → All {0, 0} (λ x. Unit) xs
All-trivial [] = tt
All-trivial (x ∷ xs) = (tt, All-trivial xs)

-- a change of the stores alone that keeps their ids and does not bring them back or let them go
pub AreApart-stores :
    (f : VectorStore → VectorStore)
    → ((c : ChunkRow) (s : VectorStore) → IsApart c s → IsApart c (f s))
    → (chunks : List ChunkRow) (stores : List VectorStore) → AreApart chunks stores
    → AreApart chunks (map f stores)
AreApart-stores f step chunks stores apart =
    All-mono (λ c. All (IsApart c) stores) (λ c. All (IsApart c) (map f stores))
      (λ c. map-All (IsApart c) (IsApart c) f (step c) stores) chunks apart

-- a change of the chunks alone
pub AreApart-chunks :
    (g : ChunkRow → ChunkRow)
    → ((c : ChunkRow) (s : VectorStore) → IsApart c s → IsApart (g c) s)
    → (chunks : List ChunkRow) (stores : List VectorStore) → AreApart chunks stores
    → AreApart (map g chunks) stores
AreApart-chunks g step chunks stores apart =
    map-All (λ c. All (IsApart c) stores) (λ c. All (IsApart c) stores) g
      (λ c. All-mono (IsApart c) (IsApart (g c)) (step c) stores) chunks apart

-- a purge leaves the chunk active or not
pub mark_deleted-IsApart :
    (now : ℕ) (p : Principal) (in_scope : ChunkRow → Bool) (c : ChunkRow) (s : VectorStore)
    → IsApart c s
    → IsApart (mark_deleted now p in_scope c) s
unfolding mark_deleted
mark_deleted-IsApart now p in_scope c s apart =
    elim (Bool-cases (
      owns p c.tenant_id c.business_instance_id
      && in_scope c
      && not c.active
      && (is_delete_queued c.dense_index_status || is_delete_queued c.sparse_index_status))) [
        | inl hit ↦ rw (hit, if◌then◌else◌) apart
        | inr miss ↦ rw (miss, if◌then◌else◌) apart
      ]

pub refresh_store-IsApart :
    (casts : Casts) (now : ℕ) (p : Principal) (id : Text) (delta : ℕ) (c : ChunkRow)
    (s : VectorStore)
    → IsApart c s
    → IsApart c (refresh_store casts now p id delta s)
unfolding refresh_store
refresh_store-IsApart casts now p id delta c s apart =
    elim (Bool-cases (is_refreshable now p id s)) [
      | inl hit ↦ rw (hit, if◌then◌else◌) apart
      | inr miss ↦ rw (miss, if◌then◌else◌) apart
    ]

set_expiry-IsApart :
    (casts : Casts) (now : ℕ) (expiry : Option (Option ExpiryPolicy)) (c : ChunkRow)
    (s : VectorStore)
    → IsApart c s
    → IsApart c (set_expiry casts now expiry s)
unfolding set_expiry
set_expiry-IsApart casts now none c s apart = apart
set_expiry-IsApart casts now (some policy) c s apart = apart

pub patch_store-IsApart :
    (casts : Casts) (now : ℕ) (p : Principal) (id : Text) (patch : Patch)
    (attrs : List (Text × Attribute)) (c : ChunkRow) (s : VectorStore)
    → IsApart c s
    → IsApart c (patch_store casts now p id patch attrs s)
unfolding patch_store
patch_store-IsApart casts now p id patch attrs c s apart = elim (Bool-cases (is_store p id s)) [
  | inl hit ↦
      rw (hit, if◌then◌else◌)
        (set_expiry-IsApart casts now patch.expires_after c
          (record s { name = name_kept patch.name s.name; attributes = attrs }) apart)
  | inr miss ↦ rw (miss, if◌then◌else◌) apart
]
