-- ===== src/Metadata/Requests.antt =====
-- The checks of a vector store request, schemas.py in packages/svs_common/svs_common: the expiry
-- policy and the chunking strategy. Both answer with a dict of their own.
use exais_vector_store.Prelude.{
  ℕ, Bool, false, not, ◌||◌, List, [], ◌∷◌, ◌++◌, Option, none, some, ◌*◌, ltb, if◌then◌else◌,
}
use exais_vector_store.Prelude.Int.{pos, negsuc}
use exais_vector_store.Prelude.Result.{Result, ok, err, ◌>>=◌}
use exais_vector_store.Prelude.Text.{Text, codes, text_eq, contains}
use exais_vector_store.Metadata.{
  Value, Raw, null, boolean, integer, real, nonfinite, string, nested, absent, not_object, object,
}

-- `value.get(key)`, whose None is `null`
abbrev pub get : Text → List (Text × Value) → Value
get key [] = null
get key ((k, v) ∷ entries) = if text_eq k key then v else get key entries

-- `set(value) - allowed`
abbrev pub has_extra : List Text → List (Text × Value) → Bool
has_extra allowed [] = false
has_extra allowed ((k, v) ∷ entries) = not (contains allowed k) || has_extra allowed entries

-- `value == t`
abbrev pub is_text : Text → Value → Bool
is_text t (string s) = text_eq s t
is_text t null = false
is_text t (boolean b) = false
is_text t (integer i) = false
is_text t (real r) = false
is_text t nonfinite = false
is_text t nested = false

pub data RequestError : Type 0 where
  policy_not_object policy_extra policy_anchor policy_days : RequestError
  strategy_not_object strategy_type auto_extra static_extra max_tokens overlap_tokens : RequestError

-- a positive integer that is not a bool
unfoldable pub positive_days : Value → Result RequestError ℕ
positive_days (integer (pos n)) = if ltb 0 n then ok n else err policy_days
positive_days (integer (negsuc n)) = err policy_days
positive_days null = err policy_days
positive_days (boolean b) = err policy_days
positive_days (real r) = err policy_days
positive_days nonfinite = err policy_days
positive_days (string t) = err policy_days
positive_days nested = err policy_days

abbrev pub policy_fields : ℕ → List (Text × Value)
policy_fields days =
    (codes "anchor", string (codes "last_active_at")) ∷ (codes "days", integer (pos days)) ∷ []

-- `_validate_vector_store_expires_after`
unfoldable pub validate_expires_after : Raw → Result RequestError (Option (List (Text × Value)))
unfolding positive_days
validate_expires_after absent = ok none
validate_expires_after not_object = err policy_not_object
validate_expires_after (object value) =
    if has_extra (codes "anchor" ∷ codes "days" ∷ []) value
    then err policy_extra
    else if not (is_text (codes "last_active_at") (get (codes "anchor") value))
    then err policy_anchor
    else do days ← positive_days (get (codes "days") value); ok (some (policy_fields days))

-- None, or an integer from 100 to 4096 that is not a bool
unfoldable pub validate_max_tokens : Value → Result RequestError (Option ℕ)
validate_max_tokens null = ok none
validate_max_tokens (integer (pos n)) =
    if ltb n 100 || ltb 4096 n then err max_tokens else ok (some n)
validate_max_tokens (integer (negsuc n)) = err max_tokens
validate_max_tokens (boolean b) = err max_tokens
validate_max_tokens (real r) = err max_tokens
validate_max_tokens nonfinite = err max_tokens
validate_max_tokens (string t) = err max_tokens
validate_max_tokens nested = err max_tokens

abbrev pub effective_max : Option ℕ → ℕ
effective_max (some n) = n
effective_max none = 800

-- None, or an integer from 0 to the half of the size
unfoldable pub validate_overlap : Option ℕ → Value → Result RequestError (Option ℕ)
validate_overlap size null = ok none
validate_overlap size (integer (pos n)) =
    if ltb (effective_max size) (2 * n) then err overlap_tokens else ok (some n)
validate_overlap size (integer (negsuc n)) = err overlap_tokens
validate_overlap size (boolean b) = err overlap_tokens
validate_overlap size (real r) = err overlap_tokens
validate_overlap size nonfinite = err overlap_tokens
validate_overlap size (string t) = err overlap_tokens
validate_overlap size nested = err overlap_tokens

abbrev pub field : Text → Option ℕ → List (Text × Value)
field key none = []
field key (some n) = (key, integer (pos n)) ∷ []

abbrev pub static_fields : Option ℕ → Option ℕ → List (Text × Value)
static_fields size overlap =
    (codes "type", string (codes "static"))
    ∷ (field (codes "max_chunk_size_tokens") size ++ field (codes "chunk_overlap_tokens") overlap)

abbrev pub auto_fields : List (Text × Value)
auto_fields = (codes "type", string (codes "auto")) ∷ []

-- `validate_openai_chunking_strategy`
unfoldable pub validate_chunking_strategy : Raw → Result RequestError (Option (List (Text × Value)))
unfolding validate_max_tokens validate_overlap
validate_chunking_strategy absent = ok none
validate_chunking_strategy not_object = err strategy_not_object
validate_chunking_strategy (object value) =
    if is_text (codes "auto") (get (codes "type") value)
    then (if has_extra (codes "type" ∷ []) value then err auto_extra else ok (some auto_fields))
    else if not (is_text (codes "static") (get (codes "type") value))
    then err strategy_type
    else if has_extra
        (codes "type" ∷ codes "max_chunk_size_tokens" ∷ codes "chunk_overlap_tokens" ∷ []) value
    then err static_extra
    else do
      size ← validate_max_tokens (get (codes "max_chunk_size_tokens") value)
      overlap ← validate_overlap size (get (codes "chunk_overlap_tokens") value)
      ok (some (static_fields size overlap))
