-- ===== src/Interaction/Accepted.antt =====
-- What `sanitize_expert_interaction_data` accepts.
use exais_vector_store.Interaction.{
  Json, null, boolean, int, float, str, arr, obj, other, Items, nil, cons, Fields, end, field,
  sanitize, sanitize_items, sanitize_fields, sanitize_data, found,
}
use exais_vector_store.Interaction.Guards.{Rule, Guard, output_guard_text, merge_interaction_guards}
use exais_vector_store.Interaction.Safe.{IsSafe, AreSafe, HaveSafe, sanitize_data-IsSafe}
use exais_vector_store.Prelude.{
  ℕ, suc, ◌≤◌, ◌≡◌, refl, false, List, [], ◌++◌, Option, arith, ltb, if◌then◌else◌,
}
use exais_vector_store.Prelude.Result.{ok}
use exais_vector_store.Prelude.Text.{Text}

module _ (rules : List Rule) (assignment : Text → Text × ℕ) where
  fits : {n limit : ℕ} → n ≤ limit → ltb limit n ≡ false
  fits within = ground (arith, within)

  mutual
    unfolding sanitize IsSafe output_guard_text

    accepts :
        (depth : ℕ) (v : Json)
        → IsSafe rules assignment depth v
        → (c : Json × List Guard) × (sanitize rules assignment depth v ≡ ok c)
    accepts depth null safe = ((null, []), rw (fits safe, if◌then◌else◌) refl)
    accepts depth (boolean b) safe = ((boolean b, []), rw (fits safe, if◌then◌else◌) refl)
    accepts depth (int i) safe = ((int i, []), rw (fits safe, if◌then◌else◌) refl)
    accepts depth (float x) safe = ((float x, []), rw (fits safe, if◌then◌else◌) refl)
    accepts depth (str s) (deep, raw) =
        let (guarded, metadata) = output_guard_text rules assignment s in
        ((str guarded, found metadata), rw (fits deep, if◌then◌else◌) refl)
    accepts depth (arr xs) (deep, few, safe) =
        let (c, is) = accepts_items (suc depth) xs safe in
        ((arr c.0, c.1), rw (fits deep, fits few, is, if◌then◌else◌) refl)
    accepts depth (obj fs) (deep, few, safe) =
        let (c, is) = accepts_fields (suc depth) fs safe in
        ((obj c.0, c.1), rw (fits deep, fits few, is, if◌then◌else◌) refl)
    accepts depth other safe = absurd safe

    accepts_items :
        (depth : ℕ) (xs : Items)
        → AreSafe rules assignment depth xs
        → (c : Items × List Guard) × (sanitize_items rules assignment depth xs ≡ ok c)
    accepts_items depth nil safe = ((nil, []), refl)
    accepts_items depth (cons x xs) (safe, rest) =
        let (c, is) = accepts depth x safe in
        let (cs, are) = accepts_items depth xs rest in
        ((cons c.0 cs.0, c.1 ++ cs.1), rw (is, are) refl)

    accepts_fields :
        (depth : ℕ) (fs : Fields)
        → HaveSafe rules assignment depth fs
        → (c : Fields × List Guard) × (sanitize_fields rules assignment depth fs ≡ ok c)
    accepts_fields depth end safe = ((end, []), refl)
    accepts_fields depth (field k v fs) (plain, safe, rest) =
        let (c, is) = accepts depth v safe in
        let (cs, are) = accepts_fields depth fs rest in
        ((field k c.0 cs.0, c.1 ++ cs.1), rw (plain, is, are, if◌then◌else◌) refl)

  -- A value that is safe to store is accepted, and what it becomes is safe as well.
  pub sanitize_data_accepts :
      (v : Json)
      → IsSafe rules assignment 0 v
      → (c : Json × Option Guard) × (sanitize_data rules assignment v ≡ ok c)
        × IsSafe rules assignment 0 c.0
  unfolding sanitize_data
  sanitize_data_accepts v safe =
      let (c, is) = accepts 0 v safe in
      let result : sanitize_data rules assignment v ≡ ok (c.0, merge_interaction_guards c.1) =
        rw (is) refl in
      (_, result, sanitize_data-IsSafe rules assignment v result)
