-- ===== src/Auth/Users/Examples.antt =====
-- A user provisioned twice, and one deactivated.
use exais_vector_store.Prelude.{◌≡◌, ◌≢◌, refl, [], ◌∷◌, none, some, true, false}
use exais_vector_store.Prelude.Result.{ok}
use exais_vector_store.Prelude.Text.{Text, codes, strip}
use exais_vector_store.Auth.Keys.Rows.{Principal, ApiKey, User, Database, active}
use exais_vector_store.Auth.Keys.{resolve_api_key_principal}
use exais_vector_store.Auth.Users.{create_or_get_user, new_user, deactivate_user}
use exais_vector_store.Auth.Users.Deactivated.{deactivate-resolve_never}
use exais_vector_store.Auth.Users.Provisioned.{create_or_get_user-create_or_get_user}

abbrev digest : Text → Text
digest raw = b'#' ∷ raw

abbrev admin : Principal
admin = record {
  tenant_id = codes "t";
  business_instance_id = some (codes "b");
  user_id = none;
  api_key_id = none;
  roles = [];
  groups = [];
  max_security_level = 3;
  scopes = codes "*" ∷ [];
  external_id = none;
}

abbrev alice : User
alice = new_user (codes "u") admin (codes "ext") (some (codes "a@b")) none

abbrev key_of : Text → ApiKey
key_of name = record {
  id = name;
  tenant_id = codes "t";
  business_instance_id = some (codes "b");
  user_id = none;
  key_hash = b'#' ∷ name;
  label = [];
  scopes = [];
  max_security_level = 1;
  expires_at = none;
  status = active;
  last_used_at = none;
}

abbrev no_users : Database
no_users = record { api_keys = []; users = []; groups = []; group_memberships = [] }

abbrev one_user : Database
one_user = record no_users { users = alice ∷ [] }

provisioned :
    create_or_get_user (codes "u") admin (codes "ext") (some (codes "a@b")) none no_users
    ≡ ok ((alice, true), one_user)
unfolding create_or_get_user
provisioned = refl

create_or_get_user-create_or_get_user_example :
    create_or_get_user (codes "v") admin (codes "ext") none (some (codes "Al")) one_user
    ≡ ok ((alice, false), one_user)
create_or_get_user-create_or_get_user_example =
    create_or_get_user-create_or_get_user (codes "u") (codes "v") admin (codes "ext")
      (some (codes "a@b")) none none (some (codes "Al")) no_users one_user alice true provisioned

-- the first key is bound to the user, the second to none
abbrev two_keys : Database
two_keys = record one_user {
  api_keys = record (key_of (codes "k")) { user_id = some (codes "u") } ∷ key_of (codes "l") ∷ [];
}

abbrev gone : User
gone = record alice { status = codes "deactivated" }

abbrev after_use : Database
after_use = record no_users {
  api_keys =
      record (key_of (codes "k")) { user_id = some (codes "u"); status = codes "revoked" }
      ∷ record (key_of (codes "l")) { last_used_at = some 9 }
      ∷ [];
  users = gone ∷ [];
}

abbrev caller : Principal
caller = record admin { api_key_id = some (codes "l"); max_security_level = 1; scopes = [] }

deactivation : (deactivate_user admin (codes "u") two_keys []).0 ≡ some (gone, codes "k" ∷ [])
unfolding deactivate_user
deactivation = refl

using_other :
    resolve_api_key_principal digest 9
      (some (codes "Bearer l"))
      (deactivate_user admin (codes "u") two_keys []).1.0
    ≡ ok (caller, after_use)
unfolding deactivate_user resolve_api_key_principal strip
using_other = refl

deactivate-resolve_never_example : caller.user_id ≢ some (codes "u")
deactivate-resolve_never_example =
    deactivate-resolve_never digest admin (codes "u") two_keys after_use [] (gone, codes "k" ∷ []) 9
      (some (codes "Bearer l")) caller deactivation using_other refl refl
