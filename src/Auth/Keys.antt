-- ===== src/Auth/Keys.antt =====
-- API keys over the tables of packages/svs_common/svs_common/auth.py. The tables are lists of rows;
-- a query filters a list, and `first` is its head. Foreign keys and row-level security, which only
-- refuse or hide more rows, and the session settings that the policies read are not modelled.
pub mod Rows
pub mod Steps
pub mod Kept
pub mod Authority
use exais_vector_store.Auth.Keys.Rows.{
  any_row, first_row, not_expired, Principal, ApiKey, User, Membership, Group, Database, truthy,
  in_instance, active, revoked, opt_eq, owned, has_id, has_hash,
}
use exais_vector_store.Prelude.{
  ℕ, Bool, true, false, List, [], ◌∷◌, Option, none, some, ◌&&◌, ◌||◌, ltb, leb, if◌then◌else◌, map,
  concat, drop, length,
}
use exais_vector_store.Prelude.Result.{Result, ok, err, ◌>>=◌}
use exais_vector_store.Prelude.Text.{
  Text, codes, text_eq, strip, starts_with, after_code, lower_ascii, filter_by,
}
use exais_vector_store.Auth.Scopes.{
  AuthError, expiry_not_future, missing_bearer, invalid_key, user_not_available, user_deactivated,
  validate_delegated_scopes, validate_delegated_security_level, constraint_violated,
}

-- DEFAULT_API_KEY_SCOPES
abbrev pub default_api_key_scopes : List Text
default_api_key_scopes =
    codes "retrieval:read" ∷ codes "documents:write" ∷ codes "vector_stores:write" ∷ []

-- `_validate_api_key_expires_at`
unfoldable pub validate_expires_at : ℕ → Option ℕ → Result AuthError (Option ℕ)
validate_expires_at now none = ok none
validate_expires_at now (some t) = if leb t now then err expiry_not_future else ok (some t)

-- the unique and check constraints of the table
unfoldable pub insert_key : ApiKey → Database → Result AuthError Database
insert_key k db =
    if any_row (has_id k.id) db.api_keys
      || any_row (has_hash k.key_hash) db.api_keys
      || ltb 5 k.max_security_level
    then err constraint_violated
    else ok (record db { api_keys = k ∷ db.api_keys })

abbrev pub or_else {ℓ} : {A : Type ℓ} → Option A → A → A
or_else none a = a
or_else (some x) a = x

abbrev pub is_some {ℓ} : {A : Type ℓ} → Option A → Bool
is_some none = false
is_some (some x) = true

-- `user_id if user_id is not None else principal.user_id`
abbrev pub bound_user : Option Text → Option Text → Option Text
bound_user none inherited = inherited
bound_user (some u) inherited = some u

module _ (api_key_hash : Text → Text) where
  -- `raw` and `key_id` are what `generate_api_key` and `new_id` return
  unfoldable pub create_api_key :
      Text
      → Text
      → ℕ
      → Principal
      → Text
      → Option (List Text)
      → Option ℕ
      → Option ℕ
      → Option Text
      → Database
      → Result AuthError (ApiKey × Database)
  create_api_key raw key_id now principal label scopes level expires_at user_id db = do
    expires ← validate_expires_at now expires_at
    minted ←
        validate_delegated_scopes principal.scopes (or_else scopes default_api_key_scopes)
          (is_some user_id)
    held ← validate_delegated_security_level principal.max_security_level level
    let k : ApiKey = record {
      id = key_id;
      tenant_id = principal.tenant_id;
      business_instance_id = principal.business_instance_id;
      user_id = bound_user user_id principal.user_id;
      key_hash = api_key_hash raw;
      label = label;
      scopes = minted;
      max_security_level = held;
      expires_at = expires;
      status = active;
      last_used_at = none;
    }
    db2 ← insert_key k db
    ok (k, db2)

  -- a key that a presented key may resolve to
  unfoldable pub is_live : Text → ℕ → ApiKey → Bool
  is_live raw now k =
      has_hash (api_key_hash raw) k && text_eq k.status active && not_expired now k.expires_at

-- `UPDATE api_keys SET status='revoked'` on one row
unfoldable pub revoke_row : Principal → Text → ApiKey → ApiKey
revoke_row p key_id k = if has_id key_id k && owned p k then record k { status = revoked } else k

unfoldable pub revoke_api_key : Principal → Text → Database → Option ApiKey × Database
unfolding revoke_row
revoke_api_key p key_id db =
    let table = map (revoke_row p key_id) db.api_keys in
    (first_row (λ k. has_id key_id k && owned p k) table, record db { api_keys = table })

-- `bearer_token`
unfoldable pub bearer_token : Option Text → Result AuthError Text
bearer_token none = err missing_bearer
bearer_token (some header) =
    if starts_with (codes "bearer ") (map lower_ascii header)
    then ok (strip (after_code b' ' header))
    else err missing_bearer

-- the groups of a user that the key's instance may see
unfoldable pub group_slugs : Text → ApiKey → Database → List Text
group_slugs user k db = concat (
    map
      (λ (m : Membership).
        map (λ (g : Group). g.slug)
          (filter_by
            (λ (g : Group).
              text_eq m.user_id user
              && text_eq g.id m.group_id
              && text_eq g.tenant_id k.tenant_id
              && in_instance k.business_instance_id g.business_instance_id)
            db.groups))
      db.group_memberships)

-- `if row["user_id"]`: the external id and the groups of the bound user
unfoldable pub bound_identity : ApiKey → Database → Result AuthError (Option Text × List Text)
unfolding group_slugs
bound_identity k db = elim (truthy k.user_id) [
  | none ↦ ok (none, [])
  | some user ↦
      elim (first_row (λ (u : User). text_eq u.id user && text_eq u.tenant_id k.tenant_id)
        db.users) [
          | none ↦ err user_not_available
          | some u ↦
              if text_eq u.status active
              then ok (truthy u.external_id, group_slugs user k db)
              else err user_deactivated
        ]
]

-- `s.removeprefix("role:")` of the scopes that start with it
unfoldable pub role_names : List Text → List Text
role_names scopes =
    map (drop (length (codes "role:"))) (filter_by (starts_with (codes "role:")) scopes)

unfoldable pub principal_of_key : ApiKey → Option Text × List Text → Principal
unfolding role_names
principal_of_key k (external, slugs) = record {
  tenant_id = k.tenant_id;
  business_instance_id = k.business_instance_id;
  user_id = k.user_id;
  api_key_id = some k.id;
  roles = role_names k.scopes;
  groups = slugs;
  max_security_level = k.max_security_level;
  scopes = k.scopes;
  external_id = external;
}

-- `UPDATE api_keys SET last_used_at=now()` on one row
unfoldable pub touch_row : Text → ℕ → ApiKey → ApiKey
touch_row key_id now k = if has_id key_id k then record k { last_used_at = some now } else k

abbrev pub row_or_invalid : Option ApiKey → Result AuthError ApiKey
row_or_invalid none = err invalid_key
row_or_invalid (some k) = ok k

module _ (api_key_hash : Text → Text) where
  unfoldable pub resolve_api_key_principal :
      ℕ → Option Text → Database → Result AuthError (Principal × Database)
  unfolding bearer_token is_live bound_identity principal_of_key touch_row
  resolve_api_key_principal now authorization db = do
    raw ← bearer_token authorization
    k ← row_or_invalid (first_row (is_live api_key_hash raw now) db.api_keys)
    identity ← bound_identity k db
    ok (principal_of_key k identity, record db { api_keys = map (touch_row k.id now) db.api_keys })
