-- ===== src/Lifecycle/Refined.antt =====
-- The tables refine the abstract life of each vector store.
use exais_vector_store.Prelude.Text.{codes}
use exais_vector_store.Auth.Keys.Rows.{Principal, first_row}
use exais_vector_store.VectorStores.{
  refresh_vector_store_activity, new_store, refresh_store, is_deleted,
}
use exais_vector_store.VectorStores.Changes.{
  delete_found, delete, patch_store, delete_store, drop_chunk,
}
use exais_vector_store.Prelude.{
  ◌≡◌, true, arith, List, ◌∙◌, ◌∷◌, All, true-ne_false, ℕ, sym, subst, Option, [], some, map, none,
  ◌&&◌, not, refl,
}
use exais_vector_store.VectorStores.Rows.{StoreStatus, VectorStore, StoreTables, is_store}
use exais_vector_store.Maintenance.{sweep, expiring_ids, expire_store}
use exais_vector_store.Prelude.Int.{pos_part}
use exais_vector_store.Metadata.{Patterns}
use exais_vector_store.IndexCleanup.{Indexes}
use exais_vector_store.VectorStores.Policy.{Casts}
use exais_vector_store.Lifecycle.{
  Step, Steps, created, refreshed, updated, removed, swept, purged, stop, next, List, sweep,
  StoreTables, All, Text, delete, ℕ, refresh_vector_store_activity, Principal, Option,
}
use exais_vector_store.Lifecycle.Returned.{create-after, update-after, purge-IsPurged}
use exais_vector_store.Lifecycle.Kept.{retire_stores-same, enqueue-IsQueuing}
use exais_vector_store.Lifecycle.Moved.{
  may_become, IsLater, HaveMoved, HaveMoved-map, HaveMoved-append, HaveMoved-refl,
  refresh_store-IsLater, patch_store-IsLater, delete_store-IsLater, expire_store-IsLater, IsNew,
}

may_become_trans :
    (a b c : StoreStatus) → may_become a b ≡ true → may_become b c ≡ true → may_become a c ≡ true
may_become_trans a b c first second = ground (arith, first, second)

IsLater-trans : (s r q : VectorStore) → IsLater s r → IsLater r q → IsLater s q
IsLater-trans s r q (id1, tenant1, biz1, moved1) (id2, tenant2, biz2, moved2) = (
  id2 ∙ id1,
  tenant2 ∙ tenant1,
  biz2 ∙ biz1,
  may_become_trans s.status r.status q.status moved1 moved2,
)

IsNew-later : (new later : List VectorStore) → All IsNew new → HaveMoved new later → All IsNew later
IsNew-later [] later are moved = moved
IsNew-later (s ∷ new) [] are moved = absurd (true-ne_false (sym moved))
IsNew-later (s ∷ new) (r ∷ later) (first, rest) ((_, _, _, moved), others) = (
  may_become_trans StoreStatus.completed s.status r.status first moved,
  IsNew-later new later rest others,
)

HaveMoved-trans : (a b c : List VectorStore) → HaveMoved a b → HaveMoved b c → HaveMoved a c
HaveMoved-trans [] b c first second = IsNew-later b c first second
HaveMoved-trans (s ∷ a) [] c first second = absurd (true-ne_false (sym first))
HaveMoved-trans (s ∷ a) (r ∷ b) [] first second = absurd (true-ne_false (sym second))
HaveMoved-trans (s ∷ a) (r ∷ b) (q ∷ c) (first, firsts) (second, seconds) =
    (IsLater-trans s r q first second, HaveMoved-trans a b c firsts seconds)

delete-HaveMoved :
    (job_id : Text) (now : ℕ) (p : Principal) (id : Text) (found : Option VectorStore)
    (t : StoreTables)
    → HaveMoved t.stores (delete_found job_id now p id found t).1.stores
unfolding delete_found
delete-HaveMoved job_id now p id none t = HaveMoved-refl t.stores
delete-HaveMoved job_id now p id (some s) t =
    let after : StoreTables = record t {
      stores = map (delete_store now p id) t.stores;
      chunks = map (drop_chunk now p id) t.chunks;
    } in
    let (_, same) =
      enqueue-IsQueuing job_id now p [] none (some id) (codes "vector_store_deleted") after in
    subst (HaveMoved t.stores) (sym same)
      (HaveMoved-map (delete_store now p id) (delete_store-IsLater now p id) t.stores)

module _ {E : Type 0} (patterns : Patterns) (casts : Casts) (indexes : Indexes E) where
  Step-HaveMoved :
      (t t2 : StoreTables) → Step patterns casts indexes t t2 → HaveMoved t.stores t2.stores
  unfolding sweep delete refresh_vector_store_activity new_store
  Step-HaveMoved _ _ (created now p vs_id req response t t2 fresh is) =
      let (attrs, after) = create-after patterns casts now p vs_id req response t t2 is in
      subst (λ (r : StoreTables). HaveMoved t.stores r.stores) after
        (HaveMoved-append t.stores (new_store casts now p vs_id attrs req ∷ []) (refl, tt))
  Step-HaveMoved _ _ (refreshed now p id delta t) =
      HaveMoved-map (refresh_store casts now p id (pos_part delta))
        (refresh_store-IsLater casts now p id (pos_part delta)) t.stores
  Step-HaveMoved _ _ (updated now p id patch response t t2 is) =
      let (attrs, after) = update-after patterns casts now p id patch response t t2 is in
      subst (λ (r : StoreTables). HaveMoved t.stores r.stores) after
        (HaveMoved-map (patch_store casts now p id patch attrs)
          (patch_store-IsLater casts now p id patch attrs) t.stores)
  Step-HaveMoved _ _ (removed job_id now p id t) =
      delete-HaveMoved job_id now p id
        (first_row (λ s. is_store p id s && not (is_deleted s.status)) t.stores) t
  Step-HaveMoved _ _ (swept job_id now p t) =
      subst (HaveMoved t.stores)
        (sym (
          retire_stores-same job_id now p (expiring_ids now p t.stores)
            record t { stores = map (expire_store now p) t.stores }))
        (HaveMoved-map (expire_store now p) (expire_store-IsLater now p) t.stores)
  Step-HaveMoved _ _ (purged now p payload result t t2 is) =
      subst (HaveMoved t.stores) (sym (purge-IsPurged indexes now p payload result t t2 is).0)
        (HaveMoved-refl t.stores)

  -- The tables refine the abstract life of a vector store, in which a live store expires or is deleted,
  -- an expired one is deleted, and nothing comes back: whatever calls return, each row of a store is
  -- there still with its id, tenant and instance and with a status that its own may become, and the
  -- rows behind those have a status that a new store's may become.
  pub Steps-HaveMoved :
      (t t2 : StoreTables) → Steps patterns casts indexes t t2 → HaveMoved t.stores t2.stores
  Steps-HaveMoved _ _ (stop t) = HaveMoved-refl t.stores
  Steps-HaveMoved _ _ (next t t2 t3 step steps) =
      HaveMoved-trans t.stores t2.stores t3.stores (Step-HaveMoved t t2 step)
        (Steps-HaveMoved t2 t3 steps)
