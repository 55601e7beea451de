-- ===== src/Lifecycle/Retired.antt =====
-- The calls that end a vector store take its chunks out of the search.
use exais_vector_store.Prelude.Int.{pos_part}
use exais_vector_store.VectorStores.Rendered.{CreateRequest}
use exais_vector_store.VectorStores.Policy.{Casts}
use exais_vector_store.Metadata.{Patterns}
use exais_vector_store.VectorStores.{
  new_store, refresh_vector_store_activity, refresh_store, is_deleted,
}
use exais_vector_store.VectorStores.Changes.{patch_store, delete}
use exais_vector_store.Maintenance.{expiring_ids, mark_deleted, purge, sweep}
use exais_vector_store.IndexCleanup.{Indexes}
use exais_vector_store.Prelude.{
  ℕ, not, ◌&&◌, List, [], ◌∷◌, All, arith, ◌++◌, All-append, All-mono, subst, inl, inr,
}
use exais_vector_store.Prelude.Text.{Text}
use exais_vector_store.Auth.Keys.Rows.{Principal, first_row}
use exais_vector_store.VectorStores.Rows.{is_store, StoreTables, Attribute, ChunkRow, is_store}
use exais_vector_store.Lifecycle.Apart.{
  IsApart, AreApart-chunks, mark_deleted-IsApart, AreApart-stores, patch_store-IsApart,
  refresh_store-IsApart,
}
use exais_vector_store.Lifecycle.{
  Step, Steps, created, refreshed, updated, removed, swept, purged, stop, next,
}
use exais_vector_store.Lifecycle.Returned.{create-after, update-after, purge-IsPurged}
use exais_vector_store.Lifecycle.Kept.{
  IsRetired, delete-IsRetired, expiring_ids-IsListed, retire_stores-IsRetired,
}

All-one :
    {A : Type 0} (P : A → Type 0) (xs : List A) (x : A) → All P xs → P x → All P (xs ++ x ∷ [])
All-one P xs x all one = All-append P xs (x ∷ []) all (one, tt)

new_store-IsApart :
    (casts : Casts) (now : ℕ) (p : Principal) (vs_id : Text) (attrs : List (Text × Attribute))
    (req : CreateRequest) (c : ChunkRow)
    → IsApart c (new_store casts now p vs_id attrs req)
unfolding new_store
new_store-IsApart casts now p vs_id attrs req c = ground arith

module _ {E : Type 0} (patterns : Patterns) (casts : Casts) (indexes : Indexes E) where
  Step-IsRetired :
      (t t2 : StoreTables) → Step patterns casts indexes t t2 → IsRetired t → IsRetired t2
  unfolding purge sweep delete refresh_vector_store_activity
  Step-IsRetired _ _ (created now p vs_id req response t t2 new is) retired =
      let (attrs, after) = create-after patterns casts now p vs_id req response t t2 is in
      subst IsRetired after (
        All-mono (λ c. All (IsApart c) t.stores)
          (λ c. All (IsApart c) (t.stores ++ new_store casts now p vs_id attrs req ∷ []))
          (λ c row.
            All-one (IsApart c) t.stores (new_store casts now p vs_id attrs req) row
              (new_store-IsApart casts now p vs_id attrs req c))
          t.chunks retired)
  Step-IsRetired _ _ (refreshed now p id delta t) retired =
      AreApart-stores (refresh_store casts now p id (pos_part delta))
        (refresh_store-IsApart casts now p id (pos_part delta)) t.chunks t.stores retired
  Step-IsRetired _ _ (updated now p id patch response t t2 is) retired =
      let (attrs, after) = update-after patterns casts now p id patch response t t2 is in
      subst IsRetired after (
        AreApart-stores (patch_store casts now p id patch attrs)
          (patch_store-IsApart casts now p id patch attrs) t.chunks t.stores retired)
  Step-IsRetired _ _ (removed job_id now p id t) retired =
      delete-IsRetired job_id now p id
        (first_row (λ s. is_store p id s && not (is_deleted s.status)) t.stores) t retired
  Step-IsRetired _ _ (swept job_id now p t) retired =
      retire_stores-IsRetired job_id now p (expiring_ids now p t.stores) t
        (expiring_ids-IsListed now p t.stores) retired
  Step-IsRetired _ _ (purged now p payload result t t2 is) retired =
      let (stores, _, chunks) = purge-IsPurged indexes now p payload result t t2 is in
      elim chunks [
        | inl same ↦ rw (stores, same) retired
        | inr (in_scope, marked) ↦
            rw (stores, marked)
              (AreApart-chunks (mark_deleted now p in_scope) (mark_deleted-IsApart now p in_scope)
                t.chunks t.stores retired)
      ]

  -- The calls of the step relation, which add no chunk, leave no active chunk of a vector store that is
  -- deleted or expired, where there is none before. Ingestion is not among them.
  pub Steps-IsRetired :
      (t t2 : StoreTables) → Steps patterns casts indexes t t2 → IsRetired t → IsRetired t2
  Steps-IsRetired _ _ (stop t) retired = retired
  Steps-IsRetired _ _ (next t t2 t3 step steps) retired =
      Steps-IsRetired t2 t3 steps (Step-IsRetired t t2 step retired)
