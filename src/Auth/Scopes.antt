-- ===== src/Auth/Scopes.antt =====
-- The scopes of a principal and their delegation, packages/svs_common/svs_common/auth.py. A scope is
-- the list of its code points.
pub mod Delegation
use exais_vector_store.Prelude.{
  ℕ, Bool, true, false, not, ◌&&◌, ◌||◌, List, [], ◌∷◌, ◌++◌, map, Option, none, some, leb, ltb,
  if◌then◌else◌,
}
use exais_vector_store.Prelude.Result.{Result, ok, err, ◌>>=◌}
use exais_vector_store.Prelude.Text.{
  Text, codes, contains, has_code, before_code, strip, is_empty, filter_by,
}

-- the details of the HTTP errors that are raised
pub data AuthError : Type 0 where
  not_delegable : List Text → AuthError
  insufficient_scope : List Text → Bool → AuthError
  level_exceeds_creator : AuthError
  expiry_not_future : AuthError
  missing_bearer : AuthError
  invalid_key : AuthError
  user_not_available : AuthError
  user_deactivated : AuthError
  constraint_violated : AuthError

abbrev pub any_true : List Bool → Bool
any_true [] = false
any_true (b ∷ bs) = b || any_true bs

abbrev pub all_true : List Bool → Bool
all_true [] = true
all_true (b ∷ bs) = b && all_true bs

abbrev pub star : Text
star = b'*' ∷ []

abbrev pub system : Text
system = codes "system"

-- `f"{ns}:*"` for `ns = scope.split(":", 1)[0]`
unfoldable pub wildcard : Text → Text
wildcard scope = before_code b':' scope ++ b':' ∷ b'*' ∷ []

-- the inner function `one`
unfoldable pub grants : List Text → Text → Bool
unfolding wildcard
grants granted scope =
    contains granted scope || (has_code b':' scope && contains granted (wildcard scope))

unfoldable pub principal_has_scope : List Text → List Text → Bool → Bool
unfolding grants
principal_has_scope granted required any_of =
    if contains granted star || contains granted system
    then true
    else if any_of
    then any_true (map (grants granted) required)
    else all_true (map (grants granted) required)

unfoldable pub ensure_scope : List Text → List Text → Bool → Result AuthError (Unit {0})
ensure_scope granted required any_of =
    if principal_has_scope granted required any_of
    then ok tt
    else err (insufficient_scope required any_of)

-- USER_BOUND_ALLOWED_SCOPES
abbrev pub user_bound_allowed_scopes : List Text
user_bound_allowed_scopes =
    codes "retrieval:read"
    ∷ codes "documents:read"
    ∷ codes "documents:write"
    ∷ codes "vector_stores:read"
    ∷ codes "vector_stores:write"
    ∷ []

-- the scopes after `strip`, without the empty ones
unfoldable pub requested_scopes : List Text → List Text
requested_scopes scopes = filter_by (λ scope. not (is_empty scope)) (map strip scopes)

unfoldable pub forbidden_scopes : Bool → List Text → List Text
forbidden_scopes user_bound requested =
    if user_bound
    then filter_by (λ scope. not (contains user_bound_allowed_scopes scope)) requested
    else []

unfoldable pub denied_scopes : List Text → List Text → List Text
denied_scopes granted requested =
    filter_by (λ scope. not (principal_has_scope granted (scope ∷ []) false)) requested

-- `if refused: raise`
unfoldable pub raise_if_any : List Text → (List Text → AuthError) → Result AuthError (Unit {0})
raise_if_any [] error = ok tt
raise_if_any (scope ∷ scopes) error = err (error (scope ∷ scopes))

unfoldable pub validate_delegated_scopes :
    List Text → List Text → Bool → Result AuthError (List Text)
unfolding requested_scopes forbidden_scopes denied_scopes raise_if_any
validate_delegated_scopes granted scopes user_bound = do
  _ ← raise_if_any (forbidden_scopes user_bound (requested_scopes scopes)) not_delegable
  _ ←
      raise_if_any (denied_scopes granted (requested_scopes scopes))
        (λ denied. insufficient_scope denied false)
  ok (requested_scopes scopes)

unfoldable pub validate_delegated_security_level : ℕ → Option ℕ → Result AuthError ℕ
validate_delegated_security_level held none = ok held
validate_delegated_security_level held (some level) =
    if ltb held level then err level_exceeds_creator else ok level
