-- ===== src/Metadata.antt =====
-- The checks of OpenAI metadata and of file attributes, openai_metadata.py in
-- packages/svs_common/svs_common. A value is a JSON value; arrays and objects inside metadata are one
-- case, since the code only refuses them. The two regular expressions on keys are arguments.
pub mod Conforms
pub mod Requests
pub mod Strategy
pub mod Examples
use exais_vector_store.Prelude.{
  ℕ, Bool, true, false, not, ◌&&◌, ◌||◌, List, [], ◌∷◌, map, Option, none, some, ◌+◌, ltb,
  if◌then◌else◌, length,
}
use exais_vector_store.Prelude.Int.{ℤ}
use exais_vector_store.Prelude.Result.{Result, ok, err, ◌>>=◌}
use exais_vector_store.Prelude.Text.{Text, codes, text_eq, contains, is_empty}

pub data Value : Type 0 where
  null : Value
  boolean : Bool → Value
  integer : ℤ → Value
  -- a finite float, by its bits
  real : ℕ → Value
  -- an infinity or a NaN
  nonfinite : Value
  string : Text → Value
  -- an array or an object
  nested : Value

-- what a caller sends where an object is expected
pub data Raw : Type 0 where
  absent : Raw
  not_object : Raw
  object : List (Text × Value) → Raw

pub data MetadataError : Type 0 where
  not_an_object too_many_pairs : MetadataError
  empty_key : MetadataError
  long_key reserved_key unsupported_key sensitive_key : Text → MetadataError
  long_value bad_value not_finite : Text → MetadataError

pub record Rules : Type 0 where
  pub allow_numbers : Bool
  pub allow_booleans : Bool
  pub safe_keys : Bool
  pub reserved_keys : List Text

-- SAFE_ATTRIBUTE_KEY_RE and SENSITIVE_ATTRIBUTE_RE, as tests of a key
pub record Patterns : Type 0 where
  pub is_safe : Text → Bool
  pub is_sensitive : Text → Bool

abbrev pub max_pairs : ℕ
max_pairs = 16

abbrev pub max_key_length : ℕ
max_key_length = 64

abbrev pub max_value_length : ℕ
max_value_length = 512

-- OPENAI_VECTOR_STORE_RESERVED_METADATA_KEYS
abbrev pub description_key : Text
description_key = codes "_openai_description"

abbrev pub chunking_strategy_key : Text
chunking_strategy_key = codes "_openai_chunking_strategy"

abbrev pub vector_store_reserved_keys : List Text
vector_store_reserved_keys = description_key ∷ chunking_strategy_key ∷ []

-- `_validate_key`
unfoldable pub validate_key : Patterns → Rules → Text → Result MetadataError Text
validate_key patterns rules key =
    if is_empty key
    then err empty_key
    else if ltb max_key_length (length key)
    then err (long_key key)
    else if contains rules.reserved_keys key
    then err (reserved_key key)
    else if rules.safe_keys && not (patterns.is_safe key)
    then err (unsupported_key key)
    else if rules.safe_keys && patterns.is_sensitive key
    then err (sensitive_key key)
    else ok key

-- `_validate_value`
unfoldable pub validate_value : Rules → Text → Value → Result MetadataError Value
validate_value rules key (string t) =
    if ltb max_value_length (length t) then err (long_value key) else ok (string t)
validate_value rules key (boolean b) =
    if rules.allow_booleans then ok (boolean b) else err (bad_value key)
validate_value rules key (integer i) =
    if rules.allow_numbers then ok (integer i) else err (bad_value key)
validate_value rules key (real r) = if rules.allow_numbers then ok (real r) else err (bad_value key)
validate_value rules key nonfinite =
    if rules.allow_numbers then err (not_finite key) else err (bad_value key)
validate_value rules key null = err (bad_value key)
validate_value rules key nested = err (bad_value key)

-- `normalized[key] = value`
unfoldable pub put : {A : Type 0} → Text → A → List (Text × A) → List (Text × A)
put key value [] = (key, value) ∷ []
put key value ((k, v) ∷ entries) =
    let rest = put key value entries in
    if text_eq k key then (k, value) ∷ entries else (k, v) ∷ rest

-- the loop over the pairs, which `normalized` collects
unfoldable pub validate_pairs :
    Patterns
    → Rules
    → List (Text × Value)
    → List (Text × Value)
    → Result MetadataError (List (Text × Value))
unfolding validate_key validate_value put
validate_pairs patterns rules [] normalized = ok normalized
validate_pairs patterns rules ((raw_key, raw_value) ∷ pairs) normalized = do
  key ← validate_key patterns rules raw_key
  value ← validate_value rules key raw_value
  validate_pairs patterns rules pairs (put key value normalized)

unfoldable pub validate_openai_metadata_map :
    Patterns → Rules → Raw → Result MetadataError (List (Text × Value))
unfolding validate_pairs
validate_openai_metadata_map patterns rules absent = ok []
validate_openai_metadata_map patterns rules not_object = err not_an_object
validate_openai_metadata_map patterns rules (object raw) =
    if ltb max_pairs (length raw) then err too_many_pairs else validate_pairs patterns rules raw []

abbrev pub metadata_rules : Rules
metadata_rules = record {
  allow_numbers = false;
  allow_booleans = false;
  safe_keys = false;
  reserved_keys = vector_store_reserved_keys;
}

-- with the default reserved keys; each value is a string already, which `str` leaves as it is
unfoldable pub validate_openai_metadata :
    Patterns → Raw → Result MetadataError (List (Text × Value))
unfolding validate_openai_metadata_map
validate_openai_metadata patterns raw = validate_openai_metadata_map patterns metadata_rules raw

-- with no reserved keys, its default
unfoldable pub validate_openai_file_attributes :
    Patterns → Raw → Result MetadataError (List (Text × Value))
unfolding validate_openai_metadata_map
validate_openai_file_attributes patterns raw =
    validate_openai_metadata_map patterns
      record { allow_numbers = true; allow_booleans = true; safe_keys = true; reserved_keys = [] }
      raw
