-- ===== src/Interaction/Safe.antt =====
-- What `sanitize_expert_interaction_data` lets through.
use exais_vector_store.Prelude.Result.{ok, past_guard, both_ok, ok-inj}
use exais_vector_store.Prelude.{
  List, ℕ, ◌≡◌, ◌≤◌, suc, false, ltb, arith, Option, ap, sym, subst, ◌∙◌, refl,
}
use exais_vector_store.Interaction.{
  Json, null, boolean, int, float, str, arr, obj, other, Items, nil, cons, Fields, end, field,
  count_items, count_fields, is_sensitive, max_depth, max_items, sanitize, sanitize_data,
  sanitize_items, sanitize_fields, too_deeply_nested,
}
use exais_vector_store.Interaction.Guards.{Rule, output_guard_text, Guard}
use exais_vector_store.Prelude.Text.{Text}

module _ (rules : List Rule) (assignment : Text → Text × ℕ) where
  -- a text that the guard gave out
  abbrev pub IsGuarded : Text → Type 0
  IsGuarded s = (raw : Text) × (s ≡ (output_guard_text rules assignment raw).0)

  -- A value at a depth that is no deeper and no longer than allowed, holds no value of another
  -- type and no field with a sensitive name, and whose texts were guarded.
  unfoldable mutual
    unfolding count_items count_fields is_sensitive output_guard_text

    pub IsSafe : ℕ → Json → Type 0
    IsSafe depth null = depth ≤ max_depth
    IsSafe depth (boolean b) = depth ≤ max_depth
    IsSafe depth (int i) = depth ≤ max_depth
    IsSafe depth (float x) = depth ≤ max_depth
    IsSafe depth (str s) = (depth ≤ max_depth) × IsGuarded s
    IsSafe depth (arr xs) =
        (depth ≤ max_depth) × (count_items xs ≤ max_items) × AreSafe (suc depth) xs
    IsSafe depth (obj fs) =
        (depth ≤ max_depth) × (count_fields fs ≤ max_items) × HaveSafe (suc depth) fs
    IsSafe depth other = ⊥

    pub AreSafe : ℕ → Items → Type 0
    AreSafe depth nil = Unit
    AreSafe depth (cons x xs) = IsSafe depth x × AreSafe depth xs

    pub HaveSafe : ℕ → Fields → Type 0
    HaveSafe depth end = Unit
    HaveSafe depth (field k v fs) =
        (is_sensitive rules assignment k ≡ false) × IsSafe depth v × HaveSafe depth fs

  count-sanitize_items :
      (depth : ℕ) (xs : Items) {c : Items × List Guard}
      → sanitize_items rules assignment depth xs ≡ ok c
      → count_items c.0 ≡ count_items xs
  unfolding sanitize count_items
  count-sanitize_items depth nil is = ap (λ c. count_items c.0) (sym (ok-inj is))
  count-sanitize_items depth (cons x xs) is =
      let (first, _, after) = both_ok _ (sanitize rules assignment depth x) is in
      let (more, rest, result) = both_ok _ (sanitize_items rules assignment depth xs) after in
      ap (λ c. count_items c.0) (sym (ok-inj result)) ∙ ap suc (count-sanitize_items depth xs rest)

  count-sanitize_fields :
      (depth : ℕ) (fs : Fields) {c : Fields × List Guard}
      → sanitize_fields rules assignment depth fs ≡ ok c
      → count_fields c.0 ≡ count_fields fs
  unfolding sanitize count_fields
  count-sanitize_fields depth end is = ap (λ c. count_fields c.0) (sym (ok-inj is))
  count-sanitize_fields depth (field k v fs) is =
      let (_, passed) = past_guard (is_sensitive rules assignment k) _ _ is in
      let (first, _, after) = both_ok _ (sanitize rules assignment depth v) passed in
      let (more, rest, result) = both_ok _ (sanitize_fields rules assignment depth fs) after in
      ap (λ c. count_fields c.0) (sym (ok-inj result))
      ∙ ap suc (count-sanitize_fields depth fs rest)

  within : {n limit : ℕ} → ltb limit n ≡ false → n ≤ limit
  within fits = ground (arith, fits)

  mutual
    unfolding sanitize IsSafe output_guard_text

    sanitize-IsSafe :
        (depth : ℕ) (v : Json) {c : Json × List Guard}
        → sanitize rules assignment depth v ≡ ok c
        → IsSafe depth c.0
    sanitize-IsSafe depth null is =
        let (fits, result) = past_guard (ltb max_depth depth) too_deeply_nested _ is in
        subst (λ c. IsSafe depth c.0) (ok-inj result) (within fits)
    sanitize-IsSafe depth (boolean b) is =
        let (fits, result) = past_guard (ltb max_depth depth) too_deeply_nested _ is in
        subst (λ c. IsSafe depth c.0) (ok-inj result) (within fits)
    sanitize-IsSafe depth (int i) is =
        let (fits, result) = past_guard (ltb max_depth depth) too_deeply_nested _ is in
        subst (λ c. IsSafe depth c.0) (ok-inj result) (within fits)
    sanitize-IsSafe depth (float x) is =
        let (fits, result) = past_guard (ltb max_depth depth) too_deeply_nested _ is in
        subst (λ c. IsSafe depth c.0) (ok-inj result) (within fits)
    sanitize-IsSafe depth (str s) is =
        let (fits, result) = past_guard (ltb max_depth depth) too_deeply_nested _ is in
        subst (λ c. IsSafe depth c.0) (ok-inj result) (within fits, (s, refl))
    sanitize-IsSafe depth (arr xs) is =
        let (fits, short) = past_guard (ltb max_depth depth) too_deeply_nested _ is in
        let (few, built) = past_guard (ltb max_items (count_items xs)) _ _ short in
        let (c, children, result) =
          both_ok _ (sanitize_items rules assignment (suc depth) xs) built in
        subst (λ c. IsSafe depth c.0) (ok-inj result)
          (
            within fits,
            subst (λ n. n ≤ max_items) (sym (count-sanitize_items (suc depth) xs children))
                (within few),
            sanitize_items-AreSafe (suc depth) xs children,
          )
    sanitize-IsSafe depth (obj fs) is =
        let (fits, short) = past_guard (ltb max_depth depth) too_deeply_nested _ is in
        let (few, built) = past_guard (ltb max_items (count_fields fs)) _ _ short in
        let (c, children, result) =
          both_ok _ (sanitize_fields rules assignment (suc depth) fs) built in
        subst (λ c. IsSafe depth c.0) (ok-inj result)
          (
            within fits,
            subst (λ n. n ≤ max_items) (sym (count-sanitize_fields (suc depth) fs children))
                (within few),
            sanitize_fields-HaveSafe (suc depth) fs children,
          )
    sanitize-IsSafe depth other is =
        let (_, refused) = past_guard (ltb max_depth depth) too_deeply_nested _ is in absurd cc

    sanitize_items-AreSafe :
        (depth : ℕ) (xs : Items) {c : Items × List Guard}
        → sanitize_items rules assignment depth xs ≡ ok c
        → AreSafe depth c.0
    sanitize_items-AreSafe depth nil is = subst (λ c. AreSafe depth c.0) (ok-inj is) tt
    sanitize_items-AreSafe depth (cons x xs) is =
        let (first, one, after) = both_ok _ (sanitize rules assignment depth x) is in
        let (more, rest, result) = both_ok _ (sanitize_items rules assignment depth xs) after in
        subst (λ c. AreSafe depth c.0) (ok-inj result)
          (sanitize-IsSafe depth x one, sanitize_items-AreSafe depth xs rest)

    sanitize_fields-HaveSafe :
        (depth : ℕ) (fs : Fields) {c : Fields × List Guard}
        → sanitize_fields rules assignment depth fs ≡ ok c
        → HaveSafe depth c.0
    sanitize_fields-HaveSafe depth end is = subst (λ c. HaveSafe depth c.0) (ok-inj is) tt
    sanitize_fields-HaveSafe depth (field k v fs) is =
        let (plain, passed) = past_guard (is_sensitive rules assignment k) _ _ is in
        let (first, one, after) = both_ok _ (sanitize rules assignment depth v) passed in
        let (more, rest, result) = both_ok _ (sanitize_fields rules assignment depth fs) after in
        subst (λ c. HaveSafe depth c.0) (ok-inj result)
          (plain, sanitize-IsSafe depth v one, sanitize_fields-HaveSafe depth fs rest)

  -- What comes back from `sanitize_expert_interaction_data` is safe to store: no part of it lies more
  -- than eight levels deep, no list or object holds more than a hundred parts, no object has a field
  -- with a sensitive name, and each text in it is one that the output guard gave out.
  pub sanitize_data-IsSafe :
      (v : Json) {c : Json × Option Guard} → sanitize_data rules assignment v ≡ ok c → IsSafe 0 c.0
  unfolding sanitize_data
  sanitize_data-IsSafe v is =
      let (c, cleaned, result) = both_ok _ (sanitize rules assignment 0 v) is in
      subst (λ c. IsSafe 0 c.0) (ok-inj result) (sanitize-IsSafe 0 v cleaned)
