-- ===== src/Lifecycle/Down.antt =====
-- What each call does to the row of a vector store that is deleted: it stays so.
use exais_vector_store.Prelude.{
  ℕ, ◌≡◌, refl, inl, inr, true, false, not, ◌&&◌, List, Option, none, some, arith, if◌then◌else◌,
  Bool-cases,
}
use exais_vector_store.Prelude.Text.{Text}
use exais_vector_store.Auth.Keys.Rows.{Principal}
use exais_vector_store.VectorStores.Rows.{VectorStore, Attribute, is_store, StoreStatus}
use exais_vector_store.VectorStores.Policy.{Casts, ExpiryPolicy}
use exais_vector_store.VectorStores.{is_deleted, is_refreshable, refresh_store}
use exais_vector_store.VectorStores.Changes.{
  Patch, set_expiry, patch_store, delete_store, name_kept,
}
use exais_vector_store.Maintenance.{is_expiring, expire_store, is_sweepable}

sweepable_there : (status : StoreStatus) → is_sweepable status ≡ true → is_deleted status ≡ false
sweepable_there StoreStatus.active h = refl
sweepable_there StoreStatus.completed h = refl
sweepable_there StoreStatus.expired h = cc
sweepable_there StoreStatus.deleted h = cc

module _ (p : Principal) (id : Text) where
  -- not a store of that id that is there
  abbrev pub IsDown : VectorStore → Type 0
  IsDown s = (is_store p id s && not (is_deleted s.status)) ≡ false

  -- what a call does to a row: its id stays, and a store that is deleted stays so
  abbrev pub KeepsDown : (VectorStore → VectorStore) → Type 0
  KeepsDown f = (s : VectorStore) → (IsDown s → IsDown (f s)) × ((f s).id ≡ s.id)

  pub refresh_store-KeepsDown :
      (casts : Casts) (now : ℕ) (q : Principal) (other : Text) (delta : ℕ)
      → KeepsDown (refresh_store casts now q other delta)
  unfolding refresh_store
  refresh_store-KeepsDown casts now q other delta s =
      elim (Bool-cases (is_refreshable now q other s)) [
        | inl hit ↦ rw (hit, if◌then◌else◌) ((λ down. down), refl)
        | inr miss ↦ rw (miss, if◌then◌else◌) ((λ down. down), refl)
      ]

  set_expiry-KeepsDown :
      (casts : Casts) (now : ℕ) (expiry : Option (Option ExpiryPolicy))
      → KeepsDown (set_expiry casts now expiry)
  unfolding set_expiry
  set_expiry-KeepsDown casts now none s = ((λ down. down), refl)
  set_expiry-KeepsDown casts now (some policy) s = ((λ down. down), refl)

  pub patch_store-KeepsDown :
      (casts : Casts) (now : ℕ) (q : Principal) (other : Text) (patch : Patch)
      (attrs : List (Text × Attribute))
      → KeepsDown (patch_store casts now q other patch attrs)
  unfolding patch_store
  patch_store-KeepsDown casts now q other patch attrs s = elim (Bool-cases (is_store q other s)) [
    | inl hit ↦
        rw (hit, if◌then◌else◌)
          (set_expiry-KeepsDown casts now patch.expires_after
            (record s { name = name_kept patch.name s.name; attributes = attrs }))
    | inr miss ↦ rw (miss, if◌then◌else◌) ((λ down. down), refl)
  ]

  pub delete_store-KeepsDown :
      (now : ℕ) (q : Principal) (other : Text) → KeepsDown (delete_store now q other)
  unfolding delete_store
  delete_store-KeepsDown now q other s = elim (Bool-cases (is_store q other s)) [
    | inl hit ↦ rw (hit, if◌then◌else◌) ((λ down. ground arith), refl)
    | inr miss ↦ rw (miss, if◌then◌else◌) ((λ down. down), refl)
  ]

  pub expire_store-KeepsDown : (now : ℕ) (q : Principal) → KeepsDown (expire_store now q)
  unfolding expire_store
  expire_store-KeepsDown now q s = elim (Bool-cases (is_expiring now q s)) [
    | inl hit ↦
        rw (hit, if◌then◌else◌)
          (
            (λ down.
                let open_status = sweepable_there s.status (ground (arith, hit)) in
                ground (arith, down, open_status)),
            refl,
          )
    | inr miss ↦ rw (miss, if◌then◌else◌) ((λ down. down), refl)
  ]
