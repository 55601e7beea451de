-- ===== src/Auth/Keys/Steps.antt =====
-- The steps of the table of keys, and what they keep of the rows with one id.
use exais_vector_store.Prelude.{
  ℕ, ◌≡◌, refl, ap, subst, inl, inr, Bool, true, false, List, [], ◌∷◌, map, Option, none, some,
  ◌||◌, arith, Bool-cases, All, sym, ltb,
}
use exais_vector_store.Auth.Keys.Rows.{
  Principal, ApiKey, Database, has_id, has_hash, any_row, first_row,
}
use exais_vector_store.Auth.Keys.{
  create_api_key, insert_key, revoke_api_key, touch_row, resolve_api_key_principal, is_live,
  row_or_invalid, bearer_token, bound_identity, principal_of_key, validate_expires_at, or_else,
  default_api_key_scopes, is_some, ltb,
}
use exais_vector_store.Auth.Scopes.{validate_delegated_scopes, validate_delegated_security_level}
use exais_vector_store.Prelude.Result.{ok-inj, ok, both_ok}
use exais_vector_store.Prelude.Text.{Text}

-- one call that returned, with any key_hash function, clock and arguments
pub data Step (h : Text → Text) : Database → Database → Type 0 where
  created :
      (raw key_id label : Text) (now : ℕ) (p : Principal) (scopes : Option (List Text))
      (level expires : Option ℕ) (user : Option Text) {db db2 : Database} (k : ApiKey)
      → create_api_key h raw key_id now p label scopes level expires user db ≡ ok (k, db2)
      → Step h db db2
  revoking :
      (p : Principal) (key_id : Text) {db : Database} → Step h db (revoke_api_key p key_id db).1
  resolving :
      (now : ℕ) (authorization : Option Text) (p : Principal) {db db2 : Database}
      → resolve_api_key_principal h now authorization db ≡ ok (p, db2)
      → Step h db db2

pub data Steps (h : Text → Text) : Database → Database → Type 0 where
  here : {db : Database} → Steps h db db
  then_step : {db db2 db3 : Database} → Steps h db db2 → Step h db2 db3 → Steps h db db3

pub first_row-All :
    {A : Type 0} (Q : A → Type 0) (p : A → Bool) (rows : List A) (k : A)
    → All Q rows
    → first_row p rows ≡ some k
    → Q k × (p k ≡ true)
first_row-All Q p [] k a e = cc
first_row-All Q p (x ∷ rows) k (q, a) e = elim (Bool-cases (p x)) [
  | inl hit ↦ let same : x ≡ k = ground arith in subst (λ r. Q r × (p r ≡ true)) same (q, hit)
  | inr miss ↦ first_row-All Q p rows k a (ground arith)
]

row_or_invalid-ok : (row : Option ApiKey) (k : ApiKey) → row_or_invalid row ≡ ok k → row ≡ some k
row_or_invalid-ok none k e = cc
row_or_invalid-ok (some r) k e = ap some (ok-inj e)

-- the row behind a resolved principal
pub resolve-row :
    (h : Text → Text) (now : ℕ) (authorization : Option Text) (db db2 : Database) (p : Principal)
    → resolve_api_key_principal h now authorization db ≡ ok (p, db2)
    → (raw : Text) × (k : ApiKey) × (first_row (is_live h raw now) db.api_keys ≡ some k)
      × (identity : Option Text × List Text) × (p ≡ principal_of_key k identity)
      × (db2 ≡ record db { api_keys = map (touch_row k.id now) db.api_keys })
unfolding resolve_api_key_principal
resolve-row h now authorization db db2 p e =
    let (raw, _, e1) = both_ok _ (bearer_token authorization) e in
    let (k, found, e2) =
      both_ok _ (row_or_invalid (first_row (is_live h raw now) db.api_keys)) e1 in
    let (identity, _, e3) = both_ok _ (bound_identity k db) e2 in
    let same = ok-inj e3 in
    (
      raw,
      k,
      row_or_invalid-ok _ k found,
      identity,
      sym (ap (λ r. r.0) same),
      sym (ap (λ r. r.1) same),
    )

pub insert_key-ok :
    (k : ApiKey) (db db2 : Database)
    → insert_key k db ≡ ok db2
    → (any_row (has_id k.id) db.api_keys ≡ false) × (db2 ≡ record db { api_keys = k ∷ db.api_keys })
unfolding insert_key
insert_key-ok k db db2 e =
    let rest = any_row (has_hash k.key_hash) db.api_keys || ltb 5 k.max_security_level in
    let after : Database = record db { api_keys = k ∷ db.api_keys } in
    elim (Bool-cases (any_row (has_id k.id) db.api_keys)) [
      | inl hit ↦ ground arith
      | inr miss ↦ (miss, ground arith)
    ]

-- what `create_api_key` has made sure of, of the row and the tables that it returns
abbrev pub Inserted :
    Principal → List Text → Bool → Option ℕ → Text → Database → ApiKey × Database → Type 0
Inserted p scopes user_bound level key_id db (k, db2) =
    (any_row (has_id k.id) db.api_keys ≡ false)
    × (db2 ≡ record db { api_keys = k ∷ db.api_keys })
    × (k.id ≡ key_id)
    × (k.tenant_id ≡ p.tenant_id)
    × (k.business_instance_id ≡ p.business_instance_id)
    × (validate_delegated_security_level p.max_security_level level ≡ ok k.max_security_level)
    × (validate_delegated_scopes p.scopes scopes user_bound ≡ ok k.scopes)

pub create-Inserted :
    (h : Text → Text) (raw key_id label : Text) (now : ℕ) (p : Principal)
    (scopes : Option (List Text)) (level expires : Option ℕ) (user : Option Text) (db : Database)
    (result : ApiKey × Database)
    → create_api_key h raw key_id now p label scopes level expires user db ≡ ok result
    → Inserted p (or_else scopes default_api_key_scopes) (is_some user) level key_id db result
unfolding create_api_key
create-Inserted h raw key_id label now p scopes level expires user db result e =
    let requested = or_else scopes default_api_key_scopes in
    let (t, _, e1) = both_ok _ (validate_expires_at now expires) e in
    let (minted, v, e2) =
      both_ok _ (validate_delegated_scopes p.scopes requested (is_some user)) e1 in
    let (held, l, e3) =
      both_ok _ (validate_delegated_security_level p.max_security_level level) e2 in
    let (table, i, e4) = both_ok _ (insert_key _ db) e3 in
    let (fresh, grown) = insert_key-ok _ db table i in
    subst (Inserted p requested (is_some user) level key_id db) (ok-inj e4)
      (fresh, grown, refl, refl, refl, l, v)
