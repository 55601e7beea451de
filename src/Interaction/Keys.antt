-- ===== src/Interaction/Keys.antt =====
-- The names of fields that may hold a secret, packages/svs_common/svs_common/security.py.
use exais_vector_store.Prelude.{
  ℕ, Bool, true, false, ◌&&◌, ◌||◌, List, [], ◌∷◌, leb, ◌==◌, if◌then◌else◌, not,
}
use exais_vector_store.Prelude.Text.{
  Text, codes, contains, filter_by, is_empty, lower_ascii, starts_with, strip,
}

abbrev pub sensitive_keys : List Text
sensitive_keys =
    codes "api_key"
    ∷ codes "apikey"
    ∷ codes "authorization"
    ∷ codes "bearer"
    ∷ codes "credential"
    ∷ codes "credentials"
    ∷ codes "password"
    ∷ codes "passwd"
    ∷ codes "private_key"
    ∷ codes "pwd"
    ∷ codes "refresh_token"
    ∷ codes "secret"
    ∷ codes "token"
    ∷ codes "access_token"
    ∷ []

abbrev pub sensitive_fragments : List Text
sensitive_fragments =
    codes "accesskey"
    ∷ codes "apikey"
    ∷ codes "authorization"
    ∷ codes "bearer"
    ∷ codes "credential"
    ∷ codes "password"
    ∷ codes "passwd"
    ∷ codes "privatekey"
    ∷ codes "refreshtoken"
    ∷ codes "secret"
    ∷ codes "sessiontoken"
    ∷ []

-- `str.lower`, where it gives ASCII letters: the Kelvin sign and the dotted capital I do, too
unfoldable pub lower : Text → Text
lower [] = []
lower (x ∷ t) =
    let rest = lower t in
    if x == 8490 then 107 ∷ rest else if x == 304 then 105 ∷ 775 ∷ rest else lower_ascii x ∷ rest

abbrev pub is_key_code : ℕ → Bool
is_key_code c = (leb 97 c && leb c 122) || (leb 48 c && leb c 57)

-- `re.sub(r"[^a-z0-9]+", "_", t)`; `within` tells that the last character was replaced
unfoldable pub underscored : Bool → Text → Text
underscored within [] = []
underscored within (x ∷ t) =
    let kept = underscored false t in
    let dropped = underscored true t in
    if is_key_code x then x ∷ kept else if within then dropped else 95 ∷ dropped

-- `t.lstrip("_")` and `t.rstrip("_")`
unfoldable pub lstrip_underscore : Text → Text
lstrip_underscore [] = []
lstrip_underscore (x ∷ t) = let rest = lstrip_underscore t in if x == 95 then rest else x ∷ t

unfoldable pub rstrip_underscore : Text → Text
rstrip_underscore [] = []
rstrip_underscore (x ∷ t) = elim (rstrip_underscore t) [
  | [] ↦ if x == 95 then [] else x ∷ []
  | y ∷ r ↦ x ∷ y ∷ r
]

-- `_normalized_interaction_key`
unfoldable pub normalized_key : Text → Text
unfolding lower underscored lstrip_underscore rstrip_underscore strip
normalized_key key = rstrip_underscore (lstrip_underscore (underscored false (lower (strip key))))

-- `fragment in t`
unfoldable pub has_fragment : Text → Text → Bool
has_fragment fragment [] = is_empty fragment
has_fragment fragment (x ∷ t) = starts_with fragment (x ∷ t) || has_fragment fragment t

unfoldable pub has_any_fragment : List Text → Text → Bool
unfolding has_fragment
has_any_fragment [] t = false
has_any_fragment (fragment ∷ fragments) t = has_fragment fragment t || has_any_fragment fragments t

abbrev grown : ℕ → List Text → List Text
grown x [] = (x ∷ []) ∷ []
grown x (part ∷ parts) = (x ∷ part) ∷ parts

-- `t.split("_")`
unfoldable pub split_underscore : Text → List Text
split_underscore [] = [] ∷ []
split_underscore (x ∷ t) =
    let rest = split_underscore t in if x == 95 then [] ∷ rest else grown x rest

abbrev pub is_letter_code : ℕ → Bool
is_letter_code c = not (c == 95)

-- the tests of `_interaction_key_is_sensitive` on the name alone
unfoldable pub has_sensitive_name : Text → Bool
unfolding normalized_key has_any_fragment split_underscore
has_sensitive_name key =
    let normalized = normalized_key key in
    let compact = filter_by is_letter_code normalized in
    let parts = split_underscore normalized in
    contains sensitive_keys normalized
    || has_any_fragment sensitive_fragments compact
    || contains parts (codes "token")
    || contains parts (codes "pwd")
