-- ===== src/Lifecycle/Moved.antt =====
-- The abstract life of a vector store: it is live, then expired or deleted, and at last deleted; and
-- what each call does to the status of a row.
use exais_vector_store.Prelude.{
  ℕ, ◌≡◌, refl, inl, inr, Bool, true, false, List, [], ◌∷◌, ◌++◌, Option, none, some, map, All,
  arith, if◌then◌else◌, Bool-cases,
}
use exais_vector_store.Prelude.Text.{Text}
use exais_vector_store.Auth.Keys.Rows.{Principal}
use exais_vector_store.VectorStores.Rows.{VectorStore, StoreStatus, Attribute, is_store}
use exais_vector_store.VectorStores.Policy.{Casts, ExpiryPolicy}
use exais_vector_store.VectorStores.{is_refreshable, refresh_store}
use exais_vector_store.VectorStores.Changes.{
  Patch, name_kept, set_expiry, patch_store, delete_store,
}
use exais_vector_store.Maintenance.{is_sweepable, is_expiring, expire_store}

-- the life of one store, by any number of changes
abbrev pub may_become : StoreStatus → StoreStatus → Bool
may_become StoreStatus.active StoreStatus.active = true
may_become StoreStatus.active StoreStatus.completed = false
may_become StoreStatus.active StoreStatus.expired = true
may_become StoreStatus.active StoreStatus.deleted = true
may_become StoreStatus.completed StoreStatus.active = false
may_become StoreStatus.completed StoreStatus.completed = true
may_become StoreStatus.completed StoreStatus.expired = true
may_become StoreStatus.completed StoreStatus.deleted = true
may_become StoreStatus.expired StoreStatus.active = false
may_become StoreStatus.expired StoreStatus.completed = false
may_become StoreStatus.expired StoreStatus.expired = true
may_become StoreStatus.expired StoreStatus.deleted = true
may_become StoreStatus.deleted StoreStatus.active = false
may_become StoreStatus.deleted StoreStatus.completed = false
may_become StoreStatus.deleted StoreStatus.expired = false
may_become StoreStatus.deleted StoreStatus.deleted = true

may_become_refl : (a : StoreStatus) → may_become a a ≡ true
may_become_refl StoreStatus.active = refl
may_become_refl StoreStatus.completed = refl
may_become_refl StoreStatus.expired = refl
may_become_refl StoreStatus.deleted = refl

may_become-deleted : (a : StoreStatus) → may_become a StoreStatus.deleted ≡ true
may_become-deleted StoreStatus.active = refl
may_become-deleted StoreStatus.completed = refl
may_become-deleted StoreStatus.expired = refl
may_become-deleted StoreStatus.deleted = refl

sweepable_expires :
    (a : StoreStatus) → is_sweepable a ≡ true → may_become a StoreStatus.expired ≡ true
sweepable_expires StoreStatus.active h = refl
sweepable_expires StoreStatus.completed h = refl
sweepable_expires StoreStatus.expired h = refl
sweepable_expires StoreStatus.deleted h = cc

-- the same store, later
abbrev pub IsLater : VectorStore → VectorStore → Type 0
IsLater s r =
    (r.id ≡ s.id)
    × (r.tenant_id ≡ s.tenant_id)
    × (r.business_instance_id ≡ s.business_instance_id)
    × (may_become s.status r.status ≡ true)

-- a store that was created since
abbrev pub IsNew : VectorStore → Type 0
IsNew s = may_become StoreStatus.completed s.status ≡ true

-- each store is there still, later, in its place; behind them are those created since
abbrev pub HaveMoved : List VectorStore → List VectorStore → Type 0
HaveMoved [] new = All IsNew new
HaveMoved (s ∷ stores) [] = false ≡ true
HaveMoved (s ∷ stores) (r ∷ rows) = IsLater s r × HaveMoved stores rows

IsLater-refl : (s : VectorStore) → IsLater s s
IsLater-refl s = (refl, refl, refl, may_become_refl s.status)

pub HaveMoved-map :
    (f : VectorStore → VectorStore)
    → ((s : VectorStore) → IsLater s (f s))
    → (stores : List VectorStore) → HaveMoved stores (map f stores)
HaveMoved-map f later [] = tt
HaveMoved-map f later (s ∷ stores) = (later s, HaveMoved-map f later stores)

pub HaveMoved-append :
    (stores new : List VectorStore) → All IsNew new → HaveMoved stores (stores ++ new)
HaveMoved-append [] new live = live
HaveMoved-append (s ∷ stores) new live = (IsLater-refl s, HaveMoved-append stores new live)

pub HaveMoved-refl : (stores : List VectorStore) → HaveMoved stores stores
HaveMoved-refl [] = tt
HaveMoved-refl (s ∷ stores) = (IsLater-refl s, HaveMoved-refl stores)

pub refresh_store-IsLater :
    (casts : Casts) (now : ℕ) (p : Principal) (id : Text) (delta : ℕ) (s : VectorStore)
    → IsLater s (refresh_store casts now p id delta s)
unfolding refresh_store
refresh_store-IsLater casts now p id delta s = elim (Bool-cases (is_refreshable now p id s)) [
  | inl hit ↦ rw (hit, if◌then◌else◌) (IsLater-refl s)
  | inr miss ↦ rw (miss, if◌then◌else◌) (IsLater-refl s)
]

set_expiry-IsLater :
    (casts : Casts) (now : ℕ) (expiry : Option (Option ExpiryPolicy)) (s : VectorStore)
    → IsLater s (set_expiry casts now expiry s)
unfolding set_expiry
set_expiry-IsLater casts now none s = IsLater-refl s
set_expiry-IsLater casts now (some policy) s = IsLater-refl s

pub patch_store-IsLater :
    (casts : Casts) (now : ℕ) (p : Principal) (id : Text) (patch : Patch)
    (attrs : List (Text × Attribute)) (s : VectorStore)
    → IsLater s (patch_store casts now p id patch attrs s)
unfolding patch_store
patch_store-IsLater casts now p id patch attrs s = elim (Bool-cases (is_store p id s)) [
  | inl hit ↦
      rw (hit, if◌then◌else◌)
        (set_expiry-IsLater casts now patch.expires_after
          (record s { name = name_kept patch.name s.name; attributes = attrs }))
  | inr miss ↦ rw (miss, if◌then◌else◌) (IsLater-refl s)
]

pub delete_store-IsLater :
    (now : ℕ) (p : Principal) (id : Text) (s : VectorStore) → IsLater s (delete_store now p id s)
unfolding delete_store
delete_store-IsLater now p id s = elim (Bool-cases (is_store p id s)) [
  | inl hit ↦ rw (hit, if◌then◌else◌) (refl, refl, refl, may_become-deleted s.status)
  | inr miss ↦ rw (miss, if◌then◌else◌) (IsLater-refl s)
]

pub expire_store-IsLater :
    (now : ℕ) (p : Principal) (s : VectorStore) → IsLater s (expire_store now p s)
unfolding expire_store
expire_store-IsLater now p s = elim (Bool-cases (is_expiring now p s)) [
  | inl hit ↦
      rw (hit, if◌then◌else◌) (refl, refl, refl, sweepable_expires s.status (ground (arith, hit)))
  | inr miss ↦ rw (miss, if◌then◌else◌) (IsLater-refl s)
]
