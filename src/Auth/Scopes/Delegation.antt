-- ===== src/Auth/Scopes/Delegation.antt =====
-- A minted key never holds more than its creator, and a user-bound key only listed scopes.
use exais_vector_store.Prelude.{
  ℕ, ◌≡◌, refl, ap, subst, inl, inr, Bool, true, false, not, ◌&&◌, ◌||◌, List, [], ◌∷◌, ◌++◌, map,
  arith, ◌==◌, if◌then◌else◌, Bool-cases, ◌≢◌,
}
use exais_vector_store.Prelude.Result.{ok, ◌>>=◌, both_ok}
use exais_vector_store.Prelude.Text.{Text, contains, text_eq, text_eq_sound, before_code, filter_by}
use exais_vector_store.Auth.Scopes.{
  AuthError, not_delegable, insufficient_scope, any_true, all_true, star, system, wildcard, grants,
  principal_has_scope, user_bound_allowed_scopes, requested_scopes, forbidden_scopes, denied_scopes,
  raise_if_any, validate_delegated_scopes,
}

-- what an empty list comprehension says of each element
filter_by-nil :
    (p : Text → Bool) (texts : List Text) (t : Text)
    → filter_by (λ s. not (p s)) texts ≡ []
    → contains texts t ≡ true
    → p t ≡ true
filter_by-nil p [] t e h = cc
filter_by-nil p (s ∷ texts) t e h = elim (Bool-cases (text_eq s t)) [
  | inl same ↦ subst (λ u. p u ≡ true) (text_eq_sound s t same) (ground arith)
  | inr other ↦ filter_by-nil p texts t (ground arith) (ground arith)
]

before_code-append :
    (t u : Text) → before_code b':' (before_code b':' t ++ b':' ∷ u) ≡ before_code b':' t
before_code-append [] u = refl
before_code-append (x ∷ t) u = ground (arith, before_code-append t u)

wildcard-wildcard : (t : Text) → wildcard (wildcard t) ≡ wildcard t
unfolding wildcard
wildcard-wildcard t = ap (λ ns. ns ++ b':' ∷ b'*' ∷ []) (before_code-append t (b'*' ∷ []))

-- each scope of `minted` is granted by `granted`
abbrev pub Within : List Text → List Text → Type 0
Within minted granted = (t : Text) → contains minted t ≡ true → grants granted t ≡ true

module _ (granted minted : List Text) where
  grants_mono :
      Within minted granted → (t : Text) → grants minted t ≡ true → grants granted t ≡ true
  unfolding grants
  grants_mono h t e = ground (arith, h t, h (wildcard t), wildcard-wildcard t)

  any_true_mono :
      Within minted granted
      → (required : List Text) → any_true (map (grants minted) required) ≡ true
      → any_true (map (grants granted) required) ≡ true
  any_true_mono h [] e = cc
  any_true_mono h (t ∷ required) e = ground (arith, grants_mono h t, any_true_mono h required)

  all_true_mono :
      Within minted granted
      → (required : List Text) → all_true (map (grants minted) required) ≡ true
      → all_true (map (grants granted) required) ≡ true
  all_true_mono h [] e = refl
  all_true_mono h (t ∷ required) e = ground (arith, grants_mono h t, all_true_mono h required)

raise_if_any-nil :
    (texts : List Text) (error : List Text → AuthError) (u : Unit {0})
    → raise_if_any texts error ≡ ok u
    → texts ≡ []
unfolding raise_if_any
raise_if_any-nil [] error u h = refl
raise_if_any-nil (t ∷ texts) error u h = cc

-- what `validate_delegated_scopes` has checked when it returns
validate-checked :
    (granted scopes : List Text) (user_bound : Bool) (minted : List Text)
    → validate_delegated_scopes granted scopes user_bound ≡ ok minted
    → (forbidden_scopes user_bound minted ≡ []) × (denied_scopes granted minted ≡ [])
unfolding validate_delegated_scopes
validate-checked granted scopes user_bound minted e =
    let requested = requested_scopes scopes in
    let (_, f, rest) =
      both_ok
        (λ (_ : Unit {0}).
          raise_if_any (denied_scopes granted requested) (λ denied. insufficient_scope denied false)
          >>= λ _. ok requested)
        (raise_if_any (forbidden_scopes user_bound requested) not_delegable) e in
    let (_, d, returned) =
      both_ok (λ (_ : Unit {0}). ok requested)
        (raise_if_any (denied_scopes granted requested) (λ denied. insufficient_scope denied false))
        rest in
    let same : requested ≡ minted = cc in
    subst (λ r. (forbidden_scopes user_bound r ≡ []) × (denied_scopes granted r ≡ [])) same
      (
        raise_if_any-nil (forbidden_scopes user_bound requested) not_delegable _ f,
        raise_if_any-nil (denied_scopes granted requested) _ _ d,
      )

abbrev is_super : List Text → Bool
is_super granted = contains granted star || contains granted system

-- a minted scope passes the creator's own check
minted-passes :
    (granted minted : List Text) (t : Text)
    → denied_scopes granted minted ≡ []
    → contains minted t ≡ true
    → principal_has_scope granted (t ∷ []) false ≡ true
unfolding denied_scopes
minted-passes granted minted t d c =
    filter_by-nil (λ s. principal_has_scope granted (s ∷ []) false) minted t d c

minted-Within :
    (granted minted : List Text)
    → denied_scopes granted minted ≡ []
    → is_super granted ≡ false
    → Within minted granted
unfolding principal_has_scope
minted-Within granted minted d super t c = ground (arith, minted-passes granted minted t d c)

minted-not_super :
    (granted minted : List Text)
    → is_super granted ≡ false
    → Within minted granted
    → is_super minted ≡ false
unfolding grants
minted-not_super granted minted super within = ground (arith, within star, within system)

-- Delegation never escalates: whatever check a minted key passes, its creator passes too.
pub has_scope-delegated :
    (granted scopes : List Text) (user_bound : Bool) (minted required : List Text) (any_of : Bool)
    → validate_delegated_scopes granted scopes user_bound ≡ ok minted
    → principal_has_scope minted required any_of ≡ true
    → principal_has_scope granted required any_of ≡ true
unfolding principal_has_scope
has_scope-delegated granted scopes user_bound minted required any_of v h =
    let (_, denied) = validate-checked granted scopes user_bound minted v in
    elim (Bool-cases (is_super granted)) [
      | inl super ↦ rw (super, if◌then◌else◌) refl
      | inr plain ↦
          let within = minted-Within granted minted denied plain in
          let below = minted-not_super granted minted plain within in
          ground (
            arith,
            any_true_mono granted minted within required,
            all_true_mono granted minted within required,
          )
    ]

-- the last code point
abbrev last_code : Text → ℕ
last_code [] = 0
last_code (x ∷ []) = x
last_code (x ∷ y ∷ t) = last_code (y ∷ t)

last_code-append : (t : Text) (x : ℕ) → last_code (t ++ b':' ∷ x ∷ []) ≡ x
last_code-append [] x = refl
last_code-append (y ∷ []) x = refl
last_code-append (y ∷ z ∷ t) x = last_code-append (z ∷ t) x

abbrev plain_endings : List Text → Bool
plain_endings [] = true
plain_endings (t ∷ texts) = not (last_code t == b'*') && plain_endings texts

plain_endings_sound :
    (texts : List Text) (t : Text)
    → plain_endings texts ≡ true
    → contains texts t ≡ true
    → last_code t ≢ b'*'
plain_endings_sound [] t p c e = cc
plain_endings_sound (s ∷ texts) t p c e = elim (Bool-cases (text_eq s t)) [
  | inl same ↦ subst (λ u. last_code u ≢ b'*') (text_eq_sound s t same) (ground arith) e
  | inr other ↦ plain_endings_sound texts t (ground arith) (ground arith) e
]

has_scope-listed :
    (allowed minted : List Text) (required : Text)
    → ((t : Text) → contains minted t ≡ true → contains allowed t ≡ true)
    → is_super allowed ≡ false
    → plain_endings allowed ≡ true
    → principal_has_scope minted (required ∷ []) false ≡ true
    → contains allowed required ≡ true
unfolding principal_has_scope
has_scope-listed allowed minted required within super plain h =
    let last = last_code-append (before_code b':' required) b'*' in
    let wild : contains allowed (wildcard required) ≢ true =
      λ c. plain_endings_sound allowed (wildcard required) plain c last in
    ground (arith, within star, within system, within required, within (wildcard required), wild)

minted-listed :
    (allowed minted : List Text)
    → filter_by (λ s. not (contains allowed s)) minted ≡ []
    → (t : Text) → contains minted t ≡ true
    → contains allowed t ≡ true
minted-listed allowed minted f t c = filter_by-nil (contains allowed) minted t f c

-- A key that is bound to a user passes the check of one scope only if that scope is on the list of
-- those that such a key may carry.
pub has_scope-user_bound :
    (granted scopes : List Text) (minted : List Text) (required : Text)
    → validate_delegated_scopes granted scopes true ≡ ok minted
    → principal_has_scope minted (required ∷ []) false ≡ true
    → contains user_bound_allowed_scopes required ≡ true
unfolding forbidden_scopes
has_scope-user_bound granted scopes minted required v h =
    has_scope-listed user_bound_allowed_scopes minted required
      (minted-listed user_bound_allowed_scopes minted
        (validate-checked granted scopes true minted v).0)
      refl refl h
