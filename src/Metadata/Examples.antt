-- ===== src/Metadata/Examples.antt =====
-- Metadata and requests at concrete values.
use exais_vector_store.Prelude.{
  ◌≡◌, refl, true, not, ◌&&◌, List, [], ◌∷◌, none, some, leb, if◌then◌else◌, length,
}
use exais_vector_store.Prelude.Int.{pos}
use exais_vector_store.Prelude.Result.{ok, err}
use exais_vector_store.Prelude.Text.{Text, codes, has_code}
use exais_vector_store.Metadata.{
  Value, Patterns, integer, string, boolean, object, max_pairs, metadata_rules,
  validate_openai_metadata_map, validate_openai_file_attributes, unsupported_key, validate_pairs,
  validate_key,
}
use exais_vector_store.Metadata.Requests.{
  validate_chunking_strategy, static_fields, overlap_tokens, validate_overlap, validate_max_tokens,
}
use exais_vector_store.Metadata.Conforms.{
  to_option, pairs_conform, to_option-validate_openai_metadata_map,
}
use exais_vector_store.Metadata.Strategy.{
  IsStrategy, validate_chunking_strategy-IsStrategy, validate-validate_chunking_strategy,
}

-- keys without a space and without a dollar sign
abbrev pub patterns : Patterns
patterns = record { is_safe = λ k. not (has_code 32 k); is_sensitive = λ k. has_code 36 k }

abbrev pairs : List (Text × Value)
pairs = (codes "team", string (codes "red")) ∷ (codes "kind", string (codes "memo")) ∷ []

abbrev wide : List (Text × Value)
wide =
    (codes "type", string (codes "static"))
    ∷ (codes "max_chunk_size_tokens", integer (pos 400))
    ∷ (codes "chunk_overlap_tokens", integer (pos 201))
    ∷ []

abbrev half : List (Text × Value)
half =
    (codes "chunk_overlap_tokens", integer (pos 200))
    ∷ (codes "max_chunk_size_tokens", integer (pos 400))
    ∷ (codes "type", string (codes "static"))
    ∷ []

refused_key :
    validate_openai_file_attributes patterns (object ((codes "a b", boolean true) ∷ []))
    ≡ err (unsupported_key (codes "a b"))
unfolding validate_openai_file_attributes validate_openai_metadata_map validate_pairs validate_key
refused_key = refl

refused_overlap : validate_chunking_strategy (object wide) ≡ err overlap_tokens
unfolding validate_chunking_strategy validate_overlap validate_max_tokens
refused_overlap = refl

half_accepted :
    validate_chunking_strategy (object half) ≡ ok (some (static_fields (some 400) (some 200)))
unfolding validate_chunking_strategy validate_overlap validate_max_tokens
half_accepted = refl

to_option-validate_openai_metadata_map_example :
    to_option (validate_openai_metadata_map patterns metadata_rules (object pairs)) ≡ (
      if leb (length pairs) max_pairs && pairs_conform patterns metadata_rules pairs
      then some pairs
      else none)
to_option-validate_openai_metadata_map_example =
    to_option-validate_openai_metadata_map patterns metadata_rules pairs refl

validate_chunking_strategy-IsStrategy_example : IsStrategy (static_fields (some 400) (some 200))
validate_chunking_strategy-IsStrategy_example =
    validate_chunking_strategy-IsStrategy half (static_fields (some 400) (some 200)) half_accepted

validate-validate_chunking_strategy_run :
    validate_chunking_strategy (object (static_fields (some 400) (some 200)))
    ≡ ok (some (static_fields (some 400) (some 200)))
validate-validate_chunking_strategy_run =
    validate-validate_chunking_strategy half (static_fields (some 400) (some 200)) half_accepted
