-- ===== src/Interaction/Examples.antt =====
-- The sanitizer on an object, with a rule that masks digits.
use exais_vector_store.Interaction.{
  Json, boolean, str, arr, obj, nil, cons, end, field, sanitize, sanitize_data, is_sensitive,
  sensitive_field,
}
use exais_vector_store.Interaction.Accepted.{sanitize_data_accepts}
use exais_vector_store.Interaction.Guards.{
  Guard, Rule, output_guard_id, output_guard_text, merge_interaction_guards,
}
use exais_vector_store.Interaction.Keys.{has_sensitive_name}
use exais_vector_store.Interaction.Safe.{IsSafe, sanitize_data-IsSafe}
use exais_vector_store.Interaction.Totals.{reported, counted_all, reported-merge_interaction_guards}
use exais_vector_store.Prelude.Result.{ok, err}
use exais_vector_store.Prelude.Text.{Text, codes}
use exais_vector_store.Prelude.{
  ℕ, ◌+◌, ◌≡◌, refl, true, [], ◌∷◌, Option, some, ◌&&◌, leb, if◌then◌else◌,
}

-- each digit becomes `#`
abbrev mask : Text → Text × ℕ
mask [] = ([], 0)
mask (x ∷ t) =
    let (rest, n) = mask t in if leb 48 x && leb x 57 then (b'#' ∷ rest, n + 1) else (x ∷ rest, n)

abbrev digits : Rule
digits = record { kind = codes "digit"; subn = mask }

abbrev no_assignment : Text → Text × ℕ
no_assignment text = (text, 0)

abbrev note : Json
note = obj (
    field (codes "note") (str (codes "call 42"))
      (field (codes "tags") (arr (cons (boolean true) nil)) end))

abbrev masked : Json
masked = obj (
    field (codes "note") (str (codes "call ##"))
      (field (codes "tags") (arr (cons (boolean true) nil)) end))

abbrev two_digits : Guard
two_digits = record { id = output_guard_id; redactions = (codes "digit", 2) ∷ [] }

sanitize_note : sanitize_data (digits ∷ []) no_assignment note ≡ ok (masked, some two_digits)
unfolding sanitize_data sanitize is_sensitive has_sensitive_name output_guard_text
    merge_interaction_guards
sanitize_note = refl

-- a name that holds a fragment, whatever its case and its separators
sanitize_secret :
    sanitize_data (digits ∷ []) no_assignment (obj (field (codes "X-Api-Key") note end))
    ≡ err sensitive_field
unfolding sanitize_data sanitize is_sensitive has_sensitive_name output_guard_text
    merge_interaction_guards
sanitize_secret = refl

sanitize_data-IsSafe_example : IsSafe (digits ∷ []) no_assignment 0 masked
sanitize_data-IsSafe_example = sanitize_data-IsSafe (digits ∷ []) no_assignment note sanitize_note

sanitize_data_accepts_example :
    (c : Json × Option Guard) × (sanitize_data (digits ∷ []) no_assignment masked ≡ ok c)
    × IsSafe (digits ∷ []) no_assignment 0 c.0
sanitize_data_accepts_example =
    sanitize_data_accepts (digits ∷ []) no_assignment masked
      (sanitize_data-IsSafe (digits ∷ []) no_assignment note sanitize_note)

reported-merge_interaction_guards_run :
    reported (codes "digit") (merge_interaction_guards (two_digits ∷ two_digits ∷ []))
    ≡ counted_all (codes "digit") (two_digits ∷ two_digits ∷ [])
reported-merge_interaction_guards_run =
    reported-merge_interaction_guards (codes "digit") (two_digits ∷ two_digits ∷ [])
