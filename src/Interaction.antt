-- ===== src/Interaction.antt =====
-- Data of an interaction before it is stored, packages/svs_common/svs_common/security.py, with the
-- output guard of openai_compat.py. The regular expressions are parameters: a rule is a kind with the
-- `subn` of its pattern, a text's replacement and the count of matches.
pub mod Keys
pub mod Guards
pub mod Safe
pub mod Accepted
pub mod Totals
pub mod Examples
use exais_vector_store.Interaction.Keys.{has_sensitive_name}
use exais_vector_store.Interaction.Guards.{Guard, Rule, output_guard_text, merge_interaction_guards}
use exais_vector_store.Prelude.Int.{ℤ}
use exais_vector_store.Prelude.Result.{Result, ok, err, ◌>>=◌}
use exais_vector_store.Prelude.Text.{Text}
use exais_vector_store.Prelude.{
  Bool, ℕ, suc, List, [], ◌∷◌, ◌++◌, Option, none, some, ◌||◌, ltb, if◌then◌else◌, true,
}

-- A value of Python as `json.loads` gives it, or of any other type. A float is its literal.
mutual
  pub data Json : Type 0 where
    null : Json
    boolean : Bool → Json
    int : ℤ → Json
    float : Text → Json
    str : Text → Json
    arr : Items → Json
    obj : Fields → Json
    other : Json

  pub data Items : Type 0 where
    nil : Items
    cons : Json → Items → Items

  pub data Fields : Type 0 where
    end : Fields
    field : Text → Json → Fields → Fields

unfoldable pub count_items : Items → ℕ
count_items nil = 0
count_items (cons x xs) = suc (count_items xs)

unfoldable pub count_fields : Fields → ℕ
count_fields end = 0
count_fields (field k v fs) = suc (count_fields fs)

-- the messages of ExpertInteractionSensitiveDataError
pub data Unsafe : Type 0 where
  too_deeply_nested too_many_items too_many_fields sensitive_field unsupported_value : Unsafe

abbrev pub max_depth : ℕ
max_depth = 8

abbrev pub max_items : ℕ
max_items = 100

-- what a part of the value became, with the metadata that the guard left for it, in order
abbrev pub Cleaned : Type 0 → Type 0
Cleaned A = Result Unsafe (A × List Guard)

abbrev pub found : Option Guard → List Guard
found none = []
found (some g) = g ∷ []

module _ (rules : List Rule) (assignment : Text → Text × ℕ) where
  -- `_interaction_key_is_sensitive`
  unfoldable pub is_sensitive : Text → Bool
  is_sensitive key = elim (output_guard_text rules assignment key).1 [
    | none ↦ has_sensitive_name key
    | some g ↦ true
  ]

  -- `sanitize`, the function within, with the loops over a list and over a dictionary
  unfoldable mutual
    unfolding output_guard_text count_items count_fields is_sensitive

    pub sanitize : ℕ → Json → Cleaned Json
    sanitize depth null = if ltb max_depth depth then err too_deeply_nested else ok (null, [])
    sanitize depth (boolean b) =
        if ltb max_depth depth then err too_deeply_nested else ok (boolean b, [])
    sanitize depth (int i) = if ltb max_depth depth then err too_deeply_nested else ok (int i, [])
    sanitize depth (float x) =
        if ltb max_depth depth then err too_deeply_nested else ok (float x, [])
    sanitize depth (str s) =
        let (guarded, metadata) = output_guard_text rules assignment s in
        if ltb max_depth depth then err too_deeply_nested else ok (str guarded, found metadata)
    sanitize depth (arr xs) =
        let children = sanitize_items (suc depth) xs in
        if ltb max_depth depth
        then err too_deeply_nested
        else if ltb max_items (count_items xs)
        then err too_many_items
        else (children >>= λ c. ok (arr c.0, c.1))
    sanitize depth (obj fs) =
        let children = sanitize_fields (suc depth) fs in
        if ltb max_depth depth
        then err too_deeply_nested
        else if ltb max_items (count_fields fs)
        then err too_many_fields
        else (children >>= λ c. ok (obj c.0, c.1))
    sanitize depth other =
        if ltb max_depth depth then err too_deeply_nested else err unsupported_value

    pub sanitize_items : ℕ → Items → Cleaned Items
    sanitize_items depth nil = ok (nil, [])
    sanitize_items depth (cons x xs) =
        let rest = sanitize_items depth xs in
        sanitize depth x >>= λ first. rest >>= λ more. ok (cons first.0 more.0, first.1 ++ more.1)

    pub sanitize_fields : ℕ → Fields → Cleaned Fields
    sanitize_fields depth end = ok (end, [])
    sanitize_fields depth (field k v fs) =
        let first = sanitize depth v in
        let rest = sanitize_fields depth fs in
        if is_sensitive k
        then err sensitive_field
        else (first >>= λ first. rest >>= λ more. ok (field k first.0 more.0, first.1 ++ more.1))

  -- `sanitize_expert_interaction_data`
  unfoldable pub sanitize_data : Json → Result Unsafe (Json × Option Guard)
  unfolding sanitize merge_interaction_guards
  sanitize_data value = sanitize 0 value >>= λ c. ok (c.0, merge_interaction_guards c.1)
