-- ===== src/Auth/Keys/Rows.antt =====
-- The rows of api_keys, users, groups and group_memberships, db/migrations/001_initial.sql.
use exais_vector_store.Prelude.{
  ℕ, Bool, true, false, List, [], ◌∷◌, Option, none, some, ◌&&◌, ◌||◌, ltb, if◌then◌else◌,
}
use exais_vector_store.Prelude.Text.{Text, codes, text_eq}

pub record Principal : Type 0 where
  pub tenant_id : Text
  pub business_instance_id : Option Text
  pub user_id : Option Text
  pub api_key_id : Option Text
  pub roles : List Text
  pub groups : List Text
  pub max_security_level : ℕ
  pub scopes : List Text
  pub external_id : Option Text

pub record ApiKey : Type 0 where
  pub id : Text
  pub tenant_id : Text
  pub business_instance_id : Option Text
  pub user_id : Option Text
  pub key_hash : Text
  pub label : Text
  pub scopes : List Text
  pub max_security_level : ℕ
  pub expires_at : Option ℕ
  pub status : Text
  pub last_used_at : Option ℕ

pub record User : Type 0 where
  pub id : Text
  pub tenant_id : Text
  pub business_instance_id : Option Text
  pub external_id : Option Text
  pub email : Option Text
  pub display_name : Option Text
  pub status : Text

pub record Group : Type 0 where
  pub id : Text
  pub tenant_id : Text
  pub business_instance_id : Option Text
  pub slug : Text

pub record Membership : Type 0 where
  pub user_id : Text
  pub group_id : Text

pub record Database : Type 0 where
  pub api_keys : List ApiKey
  pub users : List User
  pub groups : List Group
  pub group_memberships : List Membership

abbrev pub active : Text
active = codes "active"

abbrev pub revoked : Text
revoked = codes "revoked"

-- `IS NOT DISTINCT FROM`
abbrev pub opt_eq : Option Text → Option Text → Bool
opt_eq none none = true
opt_eq none (some y) = false
opt_eq (some x) none = false
opt_eq (some x) (some y) = text_eq x y

abbrev pub has_id : Text → ApiKey → Bool
has_id t k = text_eq k.id t

abbrev pub has_hash : Text → ApiKey → Bool
has_hash t k = text_eq k.key_hash t

-- the tenant and the instance of the principal
abbrev pub owned : Principal → ApiKey → Bool
owned p k = text_eq k.tenant_id p.tenant_id && opt_eq k.business_instance_id p.business_instance_id

-- `expires_at IS NULL OR expires_at > now()`
abbrev pub not_expired : ℕ → Option ℕ → Bool
not_expired now none = true
not_expired now (some t) = ltb now t

abbrev pub any_row : {A : Type 0} → (A → Bool) → List A → Bool
any_row p [] = false
any_row p (x ∷ xs) = p x || any_row p xs

abbrev pub first_row : {A : Type 0} → (A → Bool) → List A → Option A
first_row p [] = none
first_row p (x ∷ xs) = let rest = first_row p xs in if p x then some x else rest

-- an optional string that is `None` or empty is falsy
abbrev pub truthy : Option Text → Option Text
truthy none = none
truthy (some []) = none
truthy (some (x ∷ t)) = some (x ∷ t)

-- `g.business_instance_id IS NULL OR g.business_instance_id=:biz_id`, whose comparison with NULL fails
abbrev pub in_instance : Option Text → Option Text → Bool
in_instance biz none = true
in_instance none (some g) = false
in_instance (some biz) (some g) = text_eq g biz

-- `=` in SQL, which fails on NULL
abbrev pub sql_eq : Option Text → Option Text → Bool
sql_eq none y = false
sql_eq (some x) none = false
sql_eq (some x) (some y) = text_eq x y
