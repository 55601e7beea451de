-- ===== src/Lifecycle/Returned.antt =====
-- The tables after a call that returned.
use exais_vector_store.IndexCleanup.Deletes.{
  delete_by_document_versions, delete_by_vector_store, delete_by_document,
}
use exais_vector_store.Prelude.Result.{err, ok, both_ok, ok-inj, Result, err, past_guard}
use exais_vector_store.VectorStores.Rendered.{
  CreateRequest, Response, attributes_from_create_request,
}
use exais_vector_store.VectorStores.Policy.{Casts, overflows}
use exais_vector_store.Metadata.{Patterns}
use exais_vector_store.VectorStores.{
  new_store, create, create_response, as_store_error, get, date_overflow,
}
use exais_vector_store.VectorStores.Changes.{
  update, Patch, patch_store, patched_attributes, attributes_of, overflows_if_set,
}
use exais_vector_store.Maintenance.{
  purge_chunks, mark_deleted, purge_scope, purge, purge_vector_store, purge_document, record_purge,
}
use exais_vector_store.IndexCleanup.{given_ids, Indexes, Deleted, nothing_deleted}
use exais_vector_store.Prelude.{
  ◌⊎◌, ℕ, ◌≡◌, refl, List, [], ◌∷◌, Option, none, some, map, ◌++◌, ap, subst, Bool, inr, inl,
  if◌then◌else◌,
}
use exais_vector_store.Prelude.Text.{Text, contains, text_eq}
use exais_vector_store.Auth.Keys.Rows.{Principal, first_row, opt_eq}
use exais_vector_store.VectorStores.Rows.{is_store, StoreTables, Attribute, ChunkRow, is_store}
use exais_vector_store.Worker.{Payload}

module _ (patterns : Patterns) (casts : Casts) where
  pub create-after :
      (now : ℕ) (p : Principal) (vs_id : Text) (req : CreateRequest) (response : Response)
      (t t2 : StoreTables)
      → create patterns casts now p vs_id req t ≡ ok (response, t2)
      → (attrs : List (Text × Attribute)) × (record t {
        stores = t.stores ++ new_store casts now p vs_id attrs req ∷ [];
      }
          ≡ t2)
  unfolding create
  create-after now p vs_id req response t t2 is =
      let (attrs, _, last) =
        both_ok
          (λ attrs.
            let s = new_store casts now p vs_id attrs req in
            if overflows casts req.expires_after now
            then err date_overflow
            else ok (create_response s req, record t { stores = t.stores ++ s ∷ [] }))
          (as_store_error (attributes_from_create_request patterns req)) is in
      let (_, done) = past_guard (overflows casts req.expires_after now) _ _ last in
      (attrs, ap (λ (r : Response × StoreTables). r.1) (ok-inj done))

  pub update-after :
      (now : ℕ) (p : Principal) (id : Text) (patch : Patch) (response : Option Response)
      (t t2 : StoreTables)
      → update patterns casts now p id patch t ≡ ok (response, t2)
      → (attrs : List (Text × Attribute)) × (record t {
        stores = map (patch_store casts now p id patch attrs) t.stores;
      }
          ≡ t2)
  unfolding update
  update-after now p id patch response t t2 is =
      let (attrs, _, last) =
        both_ok
          (λ attrs.
            let after : StoreTables = record t {
              stores = map (patch_store casts now p id patch attrs) t.stores;
            } in
            if overflows_if_set casts patch.expires_after now
            then err date_overflow
            else ok (get p id after, after))
          (as_store_error (
            patched_attributes patterns patch (attributes_of (first_row (is_store p id) t.stores))))
          is in
      let (_, done) = past_guard (overflows_if_set casts patch.expires_after now) _ _ last in
      (attrs, ap (λ (r : Option Response × StoreTables). r.1) (ok-inj done))

-- what a purge leaves: the stores, and the chunks but for their marks
abbrev pub IsPurged : ℕ → Principal → StoreTables → StoreTables → Type 0
IsPurged now p t t2 =
    (t2.stores ≡ t.stores)
    × (t2.jobs ≡ t.jobs)
    × ((t2.chunks ≡ t.chunks)
        ⊎ ((in_scope : ChunkRow → Bool) × (t2.chunks ≡ map (mark_deleted now p in_scope) t.chunks)))

module _ {E : Type 0} (indexes : Indexes E) where
  purge_chunks-IsPurged :
      (now : ℕ) (p : Principal) (in_scope : ChunkRow → Bool) (t : StoreTables)
      (deletion : Result E Deleted) (result : Deleted) (t2 : StoreTables)
      → purge_chunks indexes now p in_scope t deletion ≡ ok (result, t2)
      → IsPurged now p t t2
  unfolding purge_chunks
  purge_chunks-IsPurged now p in_scope t (ok d) result t2 is =
      subst (IsPurged now p t) (ap (λ (r : Deleted × StoreTables). r.1) (ok-inj is))
        (refl, refl, inr (in_scope, refl))
  purge_chunks-IsPurged now p in_scope t (err e) result t2 is = cc

  purge_none-IsPurged :
      (now : ℕ) (p : Principal) (t : StoreTables) (result : Deleted) (t2 : StoreTables)
      → Path (Result E (Deleted × StoreTables)) (ok (nothing_deleted, t)) (ok (result, t2))
      → IsPurged now p t t2
  purge_none-IsPurged now p t result t2 is =
      subst (IsPurged now p t) (ap (λ (r : Deleted × StoreTables). r.1) (ok-inj is))
        (refl, refl, inl refl)

  purge_document-IsPurged :
      (now : ℕ) (p : Principal) (document_id : Option Text) (t : StoreTables) (result : Deleted)
      (t2 : StoreTables)
      → purge_document indexes now p document_id t ≡ ok (result, t2)
      → IsPurged now p t t2
  unfolding purge_document
  purge_document-IsPurged now p none t result t2 is = purge_none-IsPurged now p t result t2 is
  purge_document-IsPurged now p (some []) t result t2 is = purge_none-IsPurged now p t result t2 is
  purge_document-IsPurged now p (some (x ∷ id)) t result t2 is =
      purge_chunks-IsPurged now p (λ c. text_eq c.document_id (x ∷ id)) t
        (delete_by_document indexes p (x ∷ id) t) result t2 is

  purge_vector_store-IsPurged :
      (now : ℕ) (p : Principal) (vector_store_id document_id : Option Text) (t : StoreTables)
      (result : Deleted) (t2 : StoreTables)
      → purge_vector_store indexes now p vector_store_id document_id t ≡ ok (result, t2)
      → IsPurged now p t t2
  unfolding purge_vector_store
  purge_vector_store-IsPurged now p none doc t result t2 is =
      purge_document-IsPurged now p doc t result t2 is
  purge_vector_store-IsPurged now p (some []) doc t result t2 is =
      purge_document-IsPurged now p doc t result t2 is
  purge_vector_store-IsPurged now p (some (x ∷ id)) doc t result t2 is =
      purge_chunks-IsPurged now p (λ c. opt_eq c.vector_store_id (some (x ∷ id))) t
        (delete_by_vector_store indexes p (x ∷ id) t) result t2 is

  purge_scope-IsPurged :
      (now : ℕ) (p : Principal) (versions : List Text) (vector_store_id document_id : Option Text)
      (t : StoreTables) (result : Deleted) (t2 : StoreTables)
      → purge_scope indexes now p versions vector_store_id document_id t ≡ ok (result, t2)
      → IsPurged now p t t2
  unfolding purge_scope
  purge_scope-IsPurged now p [] store doc t result t2 is =
      purge_vector_store-IsPurged now p store doc t result t2 is
  purge_scope-IsPurged now p (v ∷ versions) store doc t result t2 is =
      purge_chunks-IsPurged now p (λ c. contains (v ∷ versions) c.document_version_id) t
        (delete_by_document_versions indexes p (v ∷ versions) t) result t2 is

  record_purge-IsPurged :
      (now : ℕ) (p : Principal) (payload : Payload) (t : StoreTables)
      (scoped : Result E (Deleted × StoreTables)) (result : Deleted) (t2 : StoreTables)
      → ((done : Deleted) (after : StoreTables)
          → scoped ≡ ok (done, after)
          → IsPurged now p t after)
      → record_purge indexes p payload scoped ≡ ok (result, t2)
      → IsPurged now p t t2
  unfolding record_purge
  record_purge-IsPurged now p payload t (err problem) result t2 scoped_is is = cc
  record_purge-IsPurged now p payload t (ok (done, after)) result t2 scoped_is is =
      subst (IsPurged now p t) (ap (λ (r : Deleted × StoreTables). r.1) (ok-inj is))
        (scoped_is done after refl)

  pub purge-IsPurged :
      (now : ℕ) (p : Principal) (payload : Payload) (result : Deleted) (t t2 : StoreTables)
      → purge indexes now p payload t ≡ ok (result, t2)
      → IsPurged now p t t2
  unfolding purge
  purge-IsPurged now p payload result t t2 is =
      let versions : List Text = given_ids payload.document_version_ids in
      record_purge-IsPurged now p payload t
        (purge_scope indexes now p versions payload.vector_store_id payload.document_id t) result t2
        (λ done after.
          purge_scope-IsPurged now p versions payload.vector_store_id payload.document_id t done
            after)
        is
