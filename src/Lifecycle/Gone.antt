-- ===== src/Lifecycle/Gone.antt =====
-- A deleted vector store stays deleted.
use exais_vector_store.Prelude.Result.{err}
use exais_vector_store.VectorStores.Policy.{Casts}
use exais_vector_store.Maintenance.{sweep, expiring_ids, expire_store}
use exais_vector_store.Prelude.{
  ℕ, ◌≡◌, refl, sym, ◌∙◌, subst, inl, inr, Bool, true, false, ◌||◌, List, [], ◌∷◌, ◌++◌, Option,
  none, some, map, All, map-All, arith, if◌then◌else◌, Bool-cases, All-append, ◌&&◌, not,
  true-ne_false,
}
use exais_vector_store.Prelude.Text.{Text, codes, text_eq, text_eq_sound, text_eq_sym}
use exais_vector_store.Auth.Keys.Rows.{Principal, first_row}
use exais_vector_store.VectorStores.Rows.{StoreTables, VectorStore, is_store}
use exais_vector_store.VectorStores.Changes.{delete_found, delete_store, drop_chunk, patch_store}
use exais_vector_store.Lifecycle.Returned.{create-after, update-after, purge-IsPurged}
use exais_vector_store.Prelude.Int.{pos_part}
use exais_vector_store.Metadata.{Patterns}
use exais_vector_store.IndexCleanup.{Indexes}
use exais_vector_store.Lifecycle.{
  Step, Steps, created, refreshed, updated, removed, swept, purged, stop, next, Casts, sweep,
}
use exais_vector_store.VectorStores.{
  refresh_vector_store_activity, refresh_store, new_store, require_active_vector_store, unavailable,
  not_found, is_deleted,
}
use exais_vector_store.VectorStores.Changes.{delete}
use exais_vector_store.Lifecycle.Kept.{retire_stores-same, enqueue-IsQueuing}
use exais_vector_store.Lifecycle.Down.{
  IsDown, KeepsDown, delete_store-KeepsDown, refresh_store-KeepsDown, patch_store-KeepsDown,
  expire_store-KeepsDown,
}

abbrev has_store : Text → List VectorStore → Bool
has_store id [] = false
has_store id (s ∷ stores) = text_eq s.id id || has_store id stores

first_row-none :
    {A : Type 0} (test : A → Bool) (xs : List A)
    → All (λ x. test x ≡ false) xs
    → first_row test xs ≡ none
first_row-none test [] all = refl
first_row-none test (x ∷ xs) (first, rest) = rw (first, if◌then◌else◌) (first_row-none test xs rest)

module _ (p : Principal) (id : Text) where
  -- there are stores of that id, and the caller's are deleted
  abbrev IsGone : List VectorStore → Type 0
  IsGone stores = All (IsDown p id) stores × (has_store id stores ≡ true)

  has_store-map :
      (f : VectorStore → VectorStore)
      → KeepsDown p id f
      → (stores : List VectorStore) → has_store id (map f stores) ≡ has_store id stores
  has_store-map f keeps [] = refl
  has_store-map f keeps (s ∷ stores) = rw ((keeps s).1, has_store-map f keeps stores) refl

  IsGone-map :
      (f : VectorStore → VectorStore)
      → KeepsDown p id f
      → (stores : List VectorStore) → IsGone stores
      → IsGone (map f stores)
  IsGone-map f keeps stores (down, has) = (
    map-All (IsDown p id) (IsDown p id) f (λ s. (keeps s).0) stores down,
    has_store-map f keeps stores ∙ has,
  )

  -- a new store has another id
  new-IsDown :
      (new : VectorStore) (stores : List VectorStore)
      → All (λ s. text_eq s.id new.id ≡ false) stores
      → has_store id stores ≡ true
      → IsDown p id new
  new-IsDown new [] fresh has = cc
  new-IsDown new (s ∷ stores) (first, rest) has = elim (Bool-cases (text_eq s.id id)) [
    | inl same ↦
        let other : text_eq id new.id ≡ false =
          subst (λ i. text_eq i new.id ≡ false) (text_eq_sound s.id id same) first in
        ground (arith, other, text_eq_sym id new.id)
    | inr other ↦ new-IsDown new stores rest (ground (arith, has, other))
  ]

  has_store-append :
      (stores more : List VectorStore)
      → has_store id stores ≡ true
      → has_store id (stores ++ more) ≡ true
  has_store-append [] more has = cc
  has_store-append (s ∷ stores) more has = elim (Bool-cases (text_eq s.id id)) [
    | inl same ↦ ground (arith, same)
    | inr other ↦ ground (arith, other, has_store-append stores more (ground (arith, has, other)))
  ]

  delete-IsGone :
      (job_id : Text) (now : ℕ) (q : Principal) (other : Text) (found : Option VectorStore)
      (t : StoreTables)
      → IsGone t.stores
      → IsGone (delete_found job_id now q other found t).1.stores
  unfolding delete_found
  delete-IsGone job_id now q other none t gone = gone
  delete-IsGone job_id now q other (some s) t gone =
      let after : StoreTables = record t {
        stores = map (delete_store now q other) t.stores;
        chunks = map (drop_chunk now q other) t.chunks;
      } in
      let (_, same) =
        enqueue-IsQueuing job_id now q [] none (some other) (codes "vector_store_deleted") after in
      subst IsGone (sym same) (
        IsGone-map (delete_store now q other) (delete_store-KeepsDown p id now q other) t.stores
          gone)

  module _ {E : Type 0} (patterns : Patterns) (casts : Casts) (indexes : Indexes E) where
    Step-IsGone :
        (t t2 : StoreTables) → Step patterns casts indexes t t2 → IsGone t.stores → IsGone t2.stores
    unfolding sweep delete refresh_vector_store_activity new_store
    Step-IsGone _ _ (created now q vs_id req response t t2 fresh is) (down, has) =
        let (attrs, after) = create-after patterns casts now q vs_id req response t t2 is in
        let new : VectorStore = new_store casts now q vs_id attrs req in
        subst (λ (r : StoreTables). IsGone r.stores) after
          (
            All-append (IsDown p id) t.stores (new ∷ []) down
                (new-IsDown new t.stores fresh has, tt),
            has_store-append t.stores (new ∷ []) has,
          )
    Step-IsGone _ _ (refreshed now q other delta t) gone =
        IsGone-map (refresh_store casts now q other (pos_part delta))
          (refresh_store-KeepsDown p id casts now q other (pos_part delta)) t.stores gone
    Step-IsGone _ _ (updated now q other patch response t t2 is) gone =
        let (attrs, after) = update-after patterns casts now q other patch response t t2 is in
        subst (λ (r : StoreTables). IsGone r.stores) after
          (IsGone-map (patch_store casts now q other patch attrs)
            (patch_store-KeepsDown p id casts now q other patch attrs) t.stores gone)
    Step-IsGone _ _ (removed job_id now q other t) gone =
        delete-IsGone job_id now q other
          (first_row (λ s. is_store q other s && not (is_deleted s.status)) t.stores) t gone
    Step-IsGone _ _ (swept job_id now q t) gone =
        subst IsGone
          (sym (
            retire_stores-same job_id now q (expiring_ids now q t.stores)
              record t { stores = map (expire_store now q) t.stores }))
          (IsGone-map (expire_store now q) (expire_store-KeepsDown p id now q) t.stores gone)
    Step-IsGone _ _ (purged now q payload result t t2 is) gone =
        subst IsGone (sym (purge-IsPurged indexes now q payload result t t2 is).0) gone

    Steps-IsGone :
        (t t2 : StoreTables)
        → Steps patterns casts indexes t t2
        → IsGone t.stores
        → IsGone t2.stores
    Steps-IsGone _ _ (stop t) gone = gone
    Steps-IsGone _ _ (next t t2 t3 step steps) gone =
        Steps-IsGone t2 t3 steps (Step-IsGone t t2 step gone)

  delete_store-IsDown : (now : ℕ) (s : VectorStore) → IsDown p id (delete_store now p id s)
  unfolding delete_store
  delete_store-IsDown now s = elim (Bool-cases (is_store p id s)) [
    | inl hit ↦ rw (hit, if◌then◌else◌) (ground arith)
    | inr miss ↦ rw (miss, if◌then◌else◌) (ground (arith, miss))
  ]

  delete_stores-IsDown :
      (now : ℕ) (stores : List VectorStore) → All (IsDown p id) (map (delete_store now p id) stores)
  delete_stores-IsDown now [] = tt
  delete_stores-IsDown now (s ∷ stores) =
      (delete_store-IsDown now s, delete_stores-IsDown now stores)

  has_store-found :
      (stores : List VectorStore) (s : VectorStore)
      → first_row (λ s. is_store p id s && not (is_deleted s.status)) stores ≡ some s
      → has_store id stores ≡ true
  has_store-found [] s found = cc
  has_store-found (r ∷ stores) s found =
      elim (Bool-cases (is_store p id r && not (is_deleted r.status))) [
        | inl hit ↦ ground (arith, hit)
        | inr miss ↦
            let later = has_store-found stores s (
              subst
                (λ b.
                  (if b
                    then some r
                    else first_row (λ s. is_store p id s && not (is_deleted s.status)) stores)
                  ≡ some s)
                miss found) in
            ground (arith, later)
      ]

  delete_found-IsGone :
      (job_id : Text) (now : ℕ) (found : Option VectorStore) (t : StoreTables)
      → first_row (λ s. is_store p id s && not (is_deleted s.status)) t.stores ≡ found
      → (delete_found job_id now p id found t).0 ≡ true
      → IsGone (delete_found job_id now p id found t).1.stores
  unfolding delete_found
  delete_found-IsGone job_id now none t is done = absurd (true-ne_false (sym done))
  delete_found-IsGone job_id now (some s) t is done =
      let after : StoreTables = record t {
        stores = map (delete_store now p id) t.stores;
        chunks = map (drop_chunk now p id) t.chunks;
      } in
      let (_, same) =
        enqueue-IsQueuing job_id now p [] none (some id) (codes "vector_store_deleted") after in
      subst IsGone (sym same) (
        delete_stores-IsDown now t.stores,
        has_store-map (delete_store now p id) (delete_store-KeepsDown p id now p id) t.stores
            ∙ has_store-found t.stores s is,
      )

  -- what a deletion leaves
  deleted-IsGone :
      (job_id : Text) (now : ℕ) (t : StoreTables)
      → (delete job_id now p id t).0 ≡ true
      → IsGone (delete job_id now p id t).1.stores
  unfolding delete
  deleted-IsGone job_id now t done =
      delete_found-IsGone job_id now
        (first_row (λ s. is_store p id s && not (is_deleted s.status)) t.stores) t refl done

-- Once `delete` has answered that it deleted a vector store, no caller of that tenant and instance
-- gets it as an active store again, whatever calls are made in between and whenever it is asked for.
pub delete-require_never :
    {E : Type 0} (patterns : Patterns) (casts : Casts) (indexes : Indexes E) (p : Principal)
    (id job_id : Text) (now later : ℕ) (t t2 : StoreTables)
    → (delete job_id now p id t).0 ≡ true
    → Steps patterns casts indexes (delete job_id now p id t).1 t2
    → require_active_vector_store later p id t2 ≡ err (unavailable id not_found)
unfolding require_active_vector_store
delete-require_never patterns casts indexes p id job_id now later t t2 done steps =
    let (down, _) =
      Steps-IsGone p id patterns casts indexes (delete job_id now p id t).1 t2 steps
        (deleted-IsGone p id job_id now t done) in
    rw (first_row-none (λ s. is_store p id s && not (is_deleted s.status)) t2.stores down) refl
