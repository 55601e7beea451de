-- ===== src/Auth/Examples.antt =====
-- Concrete runs of the keys and scopes.
use exais_vector_store.Prelude.{
  ap, ◌≡◌, ◌≢◌, ◌≤◌, refl, List, [], ◌∷◌, none, some, Bool, true, false,
}
use exais_vector_store.Prelude.Result.{ok, err}
use exais_vector_store.Prelude.Text.{Text, codes, strip, contains}
use exais_vector_store.Auth.Scopes.{
  invalid_key, principal_has_scope, validate_delegated_scopes, user_bound_allowed_scopes,
  validate_delegated_security_level,
}
use exais_vector_store.Auth.Scopes.Delegation.{has_scope-delegated, has_scope-user_bound}
use exais_vector_store.Auth.Keys.Rows.{Principal, ApiKey, User, Database, active}
use exais_vector_store.Auth.Keys.{
  validate_expires_at, create_api_key, insert_key, revoke_api_key, resolve_api_key_principal,
}
use exais_vector_store.Auth.Keys.Steps.{here}
use exais_vector_store.Auth.Keys.Authority.{create-resolve_authority, revoke-resolve_never}

abbrev held : List Text
held = codes "documents:*" ∷ codes "retrieval:read" ∷ []

abbrev wanted : List Text
wanted = codes " documents:read " ∷ codes "retrieval:read" ∷ codes " " ∷ []

abbrev granted : List Text
granted = codes "documents:read" ∷ codes "retrieval:read" ∷ []

validated : validate_delegated_scopes held wanted true ≡ ok granted
unfolding validate_delegated_scopes principal_has_scope strip
validated = refl

may_read : principal_has_scope granted (codes "documents:read" ∷ []) false ≡ true
unfolding principal_has_scope
may_read = refl

has_scope-delegated_example : principal_has_scope held (codes "documents:read" ∷ []) false ≡ true
has_scope-delegated_example =
    has_scope-delegated held wanted true granted (codes "documents:read" ∷ []) false validated
      may_read

has_scope-user_bound_run : contains user_bound_allowed_scopes (codes "documents:read") ≡ true
has_scope-user_bound_run =
    has_scope-user_bound held wanted granted (codes "documents:read") validated may_read

-- a stand-in for the digest
abbrev digest : Text → Text
digest raw = b'#' ∷ raw

abbrev admin : Principal
admin = record {
  tenant_id = codes "t";
  business_instance_id = some (codes "b");
  user_id = none;
  api_key_id = none;
  roles = [];
  groups = [];
  max_security_level = 3;
  scopes = held;
  external_id = none;
}

abbrev alice : User
alice = record {
  id = codes "u";
  tenant_id = codes "t";
  business_instance_id = some (codes "b");
  external_id = some (codes "ext");
  email = none;
  display_name = none;
  status = active;
}

abbrev empty_tables : Database
empty_tables = record {
  api_keys = [];
  users = alice ∷ [];
  groups =
      record {
        id = codes "g";
        tenant_id = codes "t";
        business_instance_id = none;
        slug = codes "staff";
      }
      ∷ [];
  group_memberships = record { user_id = codes "u"; group_id = codes "g" } ∷ [];
}

abbrev minted_key : ApiKey
minted_key = record {
  id = codes "key";
  tenant_id = codes "t";
  business_instance_id = some (codes "b");
  user_id = some (codes "u");
  key_hash = b'#' ∷ codes "raw";
  label = codes "l";
  scopes = granted;
  max_security_level = 2;
  expires_at = some 90;
  status = active;
  last_used_at = none;
}

abbrev one_key : Database
one_key = record empty_tables { api_keys = minted_key ∷ [] }

abbrev used_key : Database
used_key = record empty_tables { api_keys = record minted_key { last_used_at = some 50 } ∷ [] }

abbrev caller : Principal
caller = record {
  tenant_id = codes "t";
  business_instance_id = some (codes "b");
  user_id = some (codes "u");
  api_key_id = some (codes "key");
  roles = [];
  groups = codes "staff" ∷ [];
  max_security_level = 2;
  scopes = granted;
  external_id = some (codes "ext");
}

minting :
    create_api_key digest
      (codes "raw")
      (codes "key")
      7
      admin
      (codes "l")
      (some wanted)
      (some 2)
      (some 90)
      (some (codes "u"))
      empty_tables
    ≡ ok (minted_key, one_key)
unfolding create_api_key insert_key principal_has_scope validate_expires_at
    validate_delegated_scopes strip validate_delegated_security_level
minting = refl

presenting :
    resolve_api_key_principal digest 50 (some (codes "Bearer raw")) one_key ≡ ok (caller, used_key)
unfolding resolve_api_key_principal strip
presenting = refl

create-resolve_authority_example :
    (caller.tenant_id ≡ admin.tenant_id)
    × (caller.business_instance_id ≡ admin.business_instance_id)
    × (caller.max_security_level ≤ admin.max_security_level)
    × ((required : List Text) (any_of : Bool)
        → principal_has_scope caller.scopes required any_of ≡ true
        → principal_has_scope admin.scopes required any_of ≡ true)
create-resolve_authority_example =
    create-resolve_authority digest (codes "raw") (codes "key") (codes "l") 7 admin (some wanted)
      (some 2) (some 90) (some (codes "u")) empty_tables one_key one_key used_key minted_key 50
      (some (codes "Bearer raw")) caller minting here presenting refl

abbrev other_key : ApiKey
other_key = record minted_key { id = codes "other"; key_hash = b'#' ∷ codes "raw2" }

abbrev other_caller : Principal
other_caller = record caller { api_key_id = some (codes "other") }

abbrev two_keys : Database
two_keys = record empty_tables { api_keys = minted_key ∷ other_key ∷ [] }

abbrev revoked_key : ApiKey
revoked_key = record minted_key { status = codes "revoked" }

abbrev after_revoke : Database
after_revoke = record empty_tables { api_keys = revoked_key ∷ other_key ∷ [] }

abbrev after_use : Database
after_use = record empty_tables {
  api_keys = revoked_key ∷ record other_key { last_used_at = some 50 } ∷ [];
}

revoked_one : revoke_api_key admin (codes "key") two_keys ≡ (some revoked_key, after_revoke)
unfolding revoke_api_key
revoked_one = refl

using_other :
    resolve_api_key_principal digest 50
      (some (codes "bearer raw2"))
      (revoke_api_key admin (codes "key") two_keys).1
    ≡ ok (other_caller, after_use)
unfolding resolve_api_key_principal strip revoke_api_key
using_other = refl

-- the revoked key is refused
using_revoked :
    resolve_api_key_principal digest 50 (some (codes "Bearer raw")) after_revoke ≡ err invalid_key
unfolding resolve_api_key_principal strip
using_revoked = refl

revoke-resolve_never_example : other_caller.api_key_id ≢ some (codes "key")
revoke-resolve_never_example =
    revoke-resolve_never digest admin (codes "key") two_keys
      (revoke_api_key admin (codes "key") two_keys).1 after_use revoked_key 50
      (some (codes "bearer raw2")) other_caller (ap (λ r. r.0) revoked_one) here using_other refl
      refl
