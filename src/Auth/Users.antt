-- ===== src/Auth/Users.antt =====
-- Users that a caller provisions, packages/svs_common/svs_common/users.py, over the tables of the keys.
-- The times of a row's changes and the check on a blank external id are not modelled.
pub mod Deactivated
pub mod Provisioned
pub mod Examples
use exais_vector_store.Prelude.{
  Bool, true, false, ◌&&◌, ◌||◌, List, [], ◌∷◌, map, Option, none, some, if◌then◌else◌,
}
use exais_vector_store.Prelude.Result.{Result, ok, err}
use exais_vector_store.Prelude.Text.{Text, codes, text_eq, filter_by}
use exais_vector_store.Auth.Keys.Rows.{
  Principal, ApiKey, User, Database, active, revoked, opt_eq, owned, sql_eq, any_row, first_row,
}

pub data UserError : Type 0 where
  other_instance : UserError
  email_taken : UserError
  not_provisioned : UserError

abbrev pub in_tenant : Principal → User → Bool
in_tenant p u = text_eq u.tenant_id p.tenant_id

-- the tenant and the instance of the principal
abbrev pub in_scope : Principal → User → Bool
in_scope p u = in_tenant p u && sql_eq u.business_instance_id p.business_instance_id

abbrev pub has_external : Text → User → Bool
has_external external u = sql_eq u.external_id (some external)

unfoldable pub get_user : Principal → Text → Database → Option User
get_user p user_id db = first_row (λ u. text_eq u.id user_id && in_scope p u) db.users

unfoldable pub get_user_by_external_id : Principal → Text → Database → Option User
get_user_by_external_id p external db =
    first_row (λ u. in_scope p u && has_external external u) db.users

unfoldable pub tenant_user_by_external_id : Principal → Text → Database → Option User
tenant_user_by_external_id p external db =
    first_row (λ u. in_tenant p u && has_external external u) db.users

-- a row that stands in the way of the insertion: its id, or the external id or email in the tenant
abbrev pub conflicts : User → User → Bool
conflicts new u =
    text_eq u.id new.id
    || (text_eq u.tenant_id new.tenant_id
        && (sql_eq u.external_id new.external_id || sql_eq u.email new.email))

unfoldable pub email_owned : Principal → Option Text → Database → Bool
email_owned p none db = false
email_owned p (some email) db = any_row (λ u. in_tenant p u && sql_eq u.email (some email)) db.users

-- `ON CONFLICT DO NOTHING`, and the look at the row of the other writer
abbrev pub raced_or_refused : Option User → Database → Result UserError ((User × Bool) × Database)
raced_or_refused none db = err not_provisioned
raced_or_refused (some raced) db = ok ((raced, false), db)

unfoldable pub insert_user :
    Principal → Text → User → Database → Result UserError ((User × Bool) × Database)
unfolding get_user_by_external_id
insert_user p external new db =
    if any_row (conflicts new) db.users
    then raced_or_refused (get_user_by_external_id p external db) db
    else ok ((new, true), record db { users = new ∷ db.users })

-- the row that is inserted; `user_id` is what `new_id` returns
abbrev pub new_user : Text → Principal → Text → Option Text → Option Text → User
new_user user_id p external email display_name = record {
  id = user_id;
  tenant_id = p.tenant_id;
  business_instance_id = p.business_instance_id;
  external_id = some external;
  email = email;
  display_name = display_name;
  status = active;
}

-- `if existing is not None`, or else the new row
unfoldable pub existing_or_new :
    Principal
    → Text
    → Option Text
    → User
    → Database
    → Option User
    → Result UserError ((User × Bool) × Database)
unfolding email_owned insert_user
existing_or_new p external email new db (some existing) =
    if opt_eq existing.business_instance_id p.business_instance_id
    then ok ((existing, false), db)
    else err other_instance
existing_or_new p external email new db none =
    if email_owned p email db then err email_taken else insert_user p external new db

unfoldable pub create_or_get_user :
    Text
    → Principal
    → Text
    → Option Text
    → Option Text
    → Database
    → Result UserError ((User × Bool) × Database)
unfolding tenant_user_by_external_id existing_or_new
create_or_get_user user_id p external email display_name db =
    existing_or_new p external email (new_user user_id p external email display_name) db
      (tenant_user_by_external_id p external db)

pub record AuditEvent : Type 0 where
  pub actor_user_id : Option Text
  pub actor_api_key_id : Option Text
  pub resource_id : Text
  pub external_id : Option Text
  pub revoked_api_key_ids : List Text

abbrev pub deactivated : Text
deactivated = codes "deactivated"

unfoldable pub deactivate_row : Principal → Text → User → User
deactivate_row p user_id u =
    if text_eq u.id user_id && in_scope p u then record u { status = deactivated } else u

-- the keys of the user in the tenant and the instance
abbrev pub bound_to : Principal → Text → ApiKey → Bool
bound_to p user_id k = sql_eq k.user_id (some user_id) && owned p k

abbrev pub revocable : Principal → Text → ApiKey → Bool
revocable p user_id k = bound_to p user_id k && text_eq k.status active

unfoldable pub revoke_bound : Principal → Text → ApiKey → ApiKey
revoke_bound p user_id k = if revocable p user_id k then record k { status = revoked } else k

-- `if not row: return None`, or else the keys are revoked and the event is recorded
unfoldable pub revoke_keys :
    Principal
    → Text
    → List User
    → Database
    → List AuditEvent
    → Option User
    → Option (User × List Text) × (Database × List AuditEvent)
unfolding revoke_bound
revoke_keys p user_id users db audit none = (none, (db, audit))
revoke_keys p user_id users db audit (some u) =
    let ids = map (λ (k : ApiKey). k.id) (filter_by (revocable p user_id) db.api_keys) in
    (
      some (u, ids),
      (
        record db { users = users; api_keys = map (revoke_bound p user_id) db.api_keys },
        record {
          actor_user_id = p.user_id;
          actor_api_key_id = p.api_key_id;
          resource_id = user_id;
          external_id = u.external_id;
          revoked_api_key_ids = ids;
        }
            ∷ audit,
      ),
    )

unfoldable pub deactivate_user :
    Principal
    → Text
    → Database
    → List AuditEvent
    → Option (User × List Text) × (Database × List AuditEvent)
unfolding deactivate_row revoke_keys
deactivate_user p user_id db audit =
    let users = map (deactivate_row p user_id) db.users in
    revoke_keys p user_id users db audit
      (first_row (λ u. text_eq u.id user_id && in_scope p u) users)
