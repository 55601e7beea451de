-- ===== src/Metadata/Conforms.antt =====
-- What metadata is accepted, described without the order of the checks.
use exais_vector_store.Prelude.{
  append_assoc, append_nil, ◌≡◌, refl, ap, Bool, true, false, not, ◌&&◌, ◌||◌, List, [], ◌∷◌, ◌++◌,
  Option, none, some, arith, if◌then◌else◌, leb, length, sym, Bool-cases, inr, ◌∙◌, inl, subst, ltb,
}
use exais_vector_store.Prelude.Result.{◌>>=◌, Result, ok, err}
use exais_vector_store.Prelude.Text.{text_eq_sym, Text, text_eq, contains, is_empty}
use exais_vector_store.Metadata.{
  Value, Rules, Patterns, null, boolean, integer, real, nonfinite, string, nested, max_key_length,
  max_value_length, validate_key, validate_value, put, validate_pairs, MetadataError,
  validate_openai_metadata_map, object, max_pairs, ltb,
}

abbrev pub to_option : {E A : Type 0} → Result E A → Option A
to_option (ok a) = some a
to_option (err e) = none

abbrev pub key_conforms : Patterns → Rules → Text → Bool
key_conforms patterns rules key =
    not (is_empty key)
    && leb (length key) max_key_length
    && not (contains rules.reserved_keys key)
    && (not rules.safe_keys || (patterns.is_safe key && not (patterns.is_sensitive key)))

abbrev pub value_conforms : Rules → Value → Bool
value_conforms rules (string t) = leb (length t) max_value_length
value_conforms rules (boolean b) = rules.allow_booleans
value_conforms rules (integer i) = rules.allow_numbers
value_conforms rules (real r) = rules.allow_numbers
value_conforms rules nonfinite = false
value_conforms rules null = false
value_conforms rules nested = false

abbrev pub pairs_conform : Patterns → Rules → List (Text × Value) → Bool
pairs_conform patterns rules [] = true
pairs_conform patterns rules ((key, value) ∷ pairs) =
    (key_conforms patterns rules key && value_conforms rules value)
    && pairs_conform patterns rules pairs

abbrev pub has_key : {A : Type 0} → Text → List (Text × A) → Bool
has_key key [] = false
has_key key ((k, v) ∷ entries) = text_eq k key || has_key key entries

-- no key twice
abbrev pub is_dict : List (Text × Value) → Bool
is_dict [] = true
is_dict ((k, v) ∷ entries) = not (has_key k entries) && is_dict entries

to_option-validate_key :
    (patterns : Patterns) (rules : Rules) (key : Text)
    → to_option (validate_key patterns rules key)
      ≡ (if key_conforms patterns rules key then some key else none)
unfolding validate_key
to_option-validate_key patterns rules key = ground arith

to_option-validate_value :
    (rules : Rules) (key : Text) (value : Value)
    → to_option (validate_value rules key value)
      ≡ (if value_conforms rules value then some value else none)
unfolding validate_value
to_option-validate_value rules key null = refl
to_option-validate_value rules key (boolean b) = ground arith
to_option-validate_value rules key (integer i) = ground arith
to_option-validate_value rules key (real r) = ground arith
to_option-validate_value rules key nonfinite = ground arith
to_option-validate_value rules key (string t) = ground arith
to_option-validate_value rules key nested = refl

put-append :
    (key : Text) (value : Value) (entries : List (Text × Value))
    → has_key key entries ≡ false
    → put key value entries ≡ entries ++ (key, value) ∷ []
unfolding put
put-append key value [] new = refl
put-append key value ((k, v) ∷ entries) new =
    let other : text_eq k key ≡ false = ground (arith, new) in
    rw (other, if◌then◌else◌) (ap (◌∷◌ (k, v)) (put-append key value entries (ground (arith, new))))

has_key-middle :
    (a : Text) (entries : List (Text × Value)) (key : Text) (value : Value)
    (pairs : List (Text × Value))
    → has_key a (entries ++ (key, value) ∷ pairs) ≡ false
    → text_eq key a ≡ false
has_key-middle a [] key value pairs new = ground (arith, new)
has_key-middle a ((k, v) ∷ entries) key value pairs new =
    has_key-middle a entries key value pairs (ground (arith, new))

is_dict-middle :
    (entries : List (Text × Value)) (key : Text) (value : Value) (pairs : List (Text × Value))
    → is_dict (entries ++ (key, value) ∷ pairs) ≡ true
    → has_key key entries ≡ false
is_dict-middle [] key value pairs dict = refl
is_dict-middle ((k, v) ∷ entries) key value pairs dict =
    let later = is_dict-middle entries key value pairs (ground (arith, dict)) in
    let other = has_key-middle k entries key value pairs (ground (arith, dict)) in
    let turned = text_eq_sym key k in ground (arith, later, other, turned)

to_option-err :
    {E A B : Type 0} (r : Result E A) (f : A → Result E B)
    → to_option r ≡ none
    → to_option (r >>= f) ≡ none
to_option-err (ok a) f no_value = cc
to_option-err (err e) f no_value = refl

to_option-ok :
    {E A B : Type 0} (r : Result E A) (f : A → Result E B) (a : A)
    → to_option r ≡ some a
    → to_option (r >>= f) ≡ to_option (f a)
to_option-ok (ok b) f a same = cc
to_option-ok (err e) f a same = cc

module _ (patterns : Patterns) (rules : Rules) where
  to_option-validate_pairs :
      (pairs normalized : List (Text × Value))
      → is_dict (normalized ++ pairs) ≡ true
      → to_option (validate_pairs patterns rules pairs normalized)
        ≡ (if pairs_conform patterns rules pairs then some (normalized ++ pairs) else none)
  unfolding validate_pairs
  to_option-validate_pairs [] normalized dict = ap some (sym (append_nil normalized))
  to_option-validate_pairs ((key, value) ∷ pairs) normalized dict =
      let next : Text → Value → Result MetadataError (List (Text × Value)) =
        λ k v. validate_pairs patterns rules pairs (put k v normalized) in
      let then_value : Text → Result MetadataError (List (Text × Value)) =
        λ k. validate_value rules k value >>= next k in
      elim (Bool-cases (key_conforms patterns rules key)) [
        | inr bad ↦ rw bad (
            to_option-err (validate_key patterns rules key) then_value (
              to_option-validate_key patterns rules key
              ∙ ap (λ fits. if fits then some key else none) bad))
        | inl good ↦
            to_option-ok (validate_key patterns rules key) then_value key (
              to_option-validate_key patterns rules key
              ∙ ap (λ fits. if fits then some key else none) good)
            ∙ (elim (Bool-cases (value_conforms rules value)) [
              | inr unfit ↦
                  rw (good, unfit)
                    (to_option-err (validate_value rules key value) (next key) (
                      to_option-validate_value rules key value
                      ∙ ap (λ fits. if fits then some value else none) unfit))
              | inl fit ↦
                  to_option-ok (validate_value rules key value) (next key) value (
                    to_option-validate_value rules key value
                    ∙ ap (λ fits. if fits then some value else none) fit)
                  ∙ rw (good, fit)
                      (let one : List (Text × Value) = (key, value) ∷ [] in
                        let whole = append_assoc normalized one pairs in
                        ap (λ n. to_option (validate_pairs patterns rules pairs n))
                          (put-append key value normalized
                            (is_dict-middle normalized key value pairs dict))
                        ∙ to_option-validate_pairs pairs (normalized ++ one)
                            (subst (λ all. is_dict all ≡ true) (sym whole) dict)
                        ∙ ap (λ all. if pairs_conform patterns rules pairs then some all else none)
                            whole)
            ])
      ]

  -- A map of metadata with no key twice is accepted as it is exactly when it has at most 16 pairs
  -- and each key and each value conforms; otherwise it is refused.
  pub to_option-validate_openai_metadata_map :
      (raw : List (Text × Value))
      → is_dict raw ≡ true
      → to_option (validate_openai_metadata_map patterns rules (object raw)) ≡ (
          if leb (length raw) max_pairs && pairs_conform patterns rules raw then some raw else none)
  unfolding validate_openai_metadata_map
  to_option-validate_openai_metadata_map raw dict = elim (Bool-cases (ltb max_pairs (length raw))) [
    | inl many ↦ rw many (ground (arith, many))
    | inr few ↦ rw few (
        let fits : leb (length raw) max_pairs ≡ true = ground (arith, few) in
        rw fits (to_option-validate_pairs raw [] dict))
  ]
