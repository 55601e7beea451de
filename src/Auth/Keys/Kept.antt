-- ===== src/Auth/Keys/Kept.antt =====
-- What the calls on the table of keys keep of the rows with one id.
use exais_vector_store.Prelude.{
  true-ne_false, ℕ, ◌≡◌, refl, sym, ap, ◌∙◌, subst, inl, inr, true, List, [], ◌∷◌, map, Option,
  some, ◌&&◌, arith, if◌then◌else◌, Bool-cases, All,
}
use exais_vector_store.Auth.Keys.Rows.{Principal, ApiKey, Database, has_id, any_row, owned}
use exais_vector_store.Auth.Keys.{
  revoke_api_key, revoke_row, touch_row, resolve_api_key_principal, is_live, principal_of_key,
}
use exais_vector_store.Auth.Keys.Steps.{
  Step, created, revoking, resolving, Steps, here, then_step, first_row-All, resolve-row,
  create-Inserted,
}
use exais_vector_store.Prelude.Result.{ok}
use exais_vector_store.Prelude.Text.{Text, text_eq, text_eq_refl, text_eq_sound}

-- the rows with the id `key_id`: there is one, and each of them satisfies `P`
abbrev pub Kept : Text → (ApiKey → Type 0) → List ApiKey → Type 0
Kept key_id P rows =
    (any_row (has_id key_id) rows ≡ true) × All (λ k. has_id key_id k ≡ true → P k) rows

-- an update of the rows that keeps the ids and what `P` says
Kept-map :
    (key_id : Text) (P : ApiKey → Type 0) (f : ApiKey → ApiKey) (rows : List ApiKey)
    → ((k : ApiKey) → has_id key_id (f k) ≡ has_id key_id k)
    → ((k : ApiKey) → P k → P (f k))
    → Kept key_id P rows
    → Kept key_id P (map f rows)
Kept-map key_id P f rows same stable (some_row, each) = (any-map rows ∙ some_row, all-map rows each)
  where
    any-map :
        (rows : List ApiKey) → any_row (has_id key_id) (map f rows) ≡ any_row (has_id key_id) rows
    any-map [] = refl
    any-map (k ∷ rows) = rw (same k, any-map rows) refl

    all-map :
        (rows : List ApiKey)
        → All (λ k. has_id key_id k ≡ true → P k) rows
        → All (λ k. has_id key_id k ≡ true → P k) (map f rows)
    all-map [] a = tt
    all-map (k ∷ rows) (p, a) = ((λ e. stable k (p (sym (same k) ∙ e))), all-map rows a)

revoke_row-id :
    (p : Principal) (t key_id : Text) (k : ApiKey)
    → has_id key_id (revoke_row p t k) ≡ has_id key_id k
unfolding revoke_row
revoke_row-id p t key_id k = elim (Bool-cases (has_id t k && owned p k)) [
  | inl c ↦ rw (c, if◌then◌else◌) refl
  | inr c ↦ rw (c, if◌then◌else◌) refl
]

touch_row-id :
    (t : Text) (now : ℕ) (key_id : Text) (k : ApiKey)
    → has_id key_id (touch_row t now k) ≡ has_id key_id k
unfolding touch_row
touch_row-id t now key_id k = elim (Bool-cases (has_id t k)) [
  | inl c ↦ rw (c, if◌then◌else◌) refl
  | inr c ↦ rw (c, if◌then◌else◌) refl
]

-- `P` survives the updates that the code makes
pub record IsStable (P : ApiKey → Type 0) : Type 0 where
  pub revoking_keeps : (p : Principal) (t : Text) (k : ApiKey) → P k → P (revoke_row p t k)
  pub touching_keeps : (t : Text) (now : ℕ) (k : ApiKey) → P k → P (touch_row t now k)

module _ (h : Text → Text) (key_id : Text) (P : ApiKey → Type 0) (stable : IsStable P) where
  Kept-Step :
      {db db2 : Database} → Kept key_id P db.api_keys → Step h db db2 → Kept key_id P db2.api_keys
  unfolding revoke_api_key
  Kept-Step {db} {db2} kept (created raw new label now p scopes level expires user k e) =
      let (fresh, grown, _, _, _, _, _) =
        create-Inserted h raw new label now p scopes level expires user db (k, db2) e in
      let other : (hit : has_id key_id k ≡ true) → P k = λ hit. absurd (
        true-ne_false (
          sym kept.0
          ∙ ap (λ t. any_row (has_id t) db.api_keys) (sym (text_eq_sound k.id key_id hit))
          ∙ fresh)) in
      subst (λ (d : Database). Kept key_id P d.api_keys) (sym grown)
        (ground (arith, kept.0), (other, kept.1))
  Kept-Step {db} kept (revoking p t) =
      Kept-map key_id P (revoke_row p t) db.api_keys (revoke_row-id p t key_id)
        (stable.revoking_keeps p t) kept
  Kept-Step {db} {db2} kept (resolving now auth p e) =
      let (_, k, _, _, _, updated) = resolve-row h now auth db db2 p e in
      subst (λ (d : Database). Kept key_id P d.api_keys) (sym updated)
        (Kept-map key_id P (touch_row k.id now) db.api_keys (touch_row-id k.id now key_id)
          (stable.touching_keeps k.id now) kept)

  pub Kept-Steps :
      {db db2 : Database} → Kept key_id P db.api_keys → Steps h db db2 → Kept key_id P db2.api_keys
  Kept-Steps kept here = kept
  Kept-Steps kept (then_step before last) = Kept-Step (Kept-Steps kept before) last

  -- a principal with that key id comes from a row that satisfies `P`
  pub resolve-Kept :
      (now : ℕ) (auth : Option Text) (db db2 : Database) (q : Principal)
      → Kept key_id P db.api_keys
      → resolve_api_key_principal h now auth db ≡ ok (q, db2)
      → q.api_key_id ≡ some key_id
      → (raw : Text) × (k : ApiKey) × P k
        × (is_live h raw now k ≡ true)
        × (q.tenant_id ≡ k.tenant_id)
        × (q.business_instance_id ≡ k.business_instance_id)
        × (q.max_security_level ≡ k.max_security_level)
        × (q.scopes ≡ k.scopes)
  unfolding principal_of_key
  resolve-Kept now auth db db2 q (_, each) e same =
      let (raw, k, found, identity, is, _) = resolve-row h now auth db db2 q e in
      let (holds, live) = first_row-All _ (is_live h raw now) db.api_keys k each found in
      let named : k.id ≡ key_id = cc in
      (
        raw,
        k,
        holds (subst (λ t. text_eq k.id t ≡ true) named (text_eq_refl k.id)),
        live,
        ap (λ (r : Principal). r.tenant_id) is,
        ap (λ (r : Principal). r.business_instance_id) is,
        ap (λ (r : Principal). r.max_security_level) is,
        ap (λ (r : Principal). r.scopes) is,
      )
