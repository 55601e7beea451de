-- ===== src/Interaction/Totals.antt =====
-- The counts of the redactions that a merge of guards reports.
use exais_vector_store.Interaction.Guards.{
  Redactions, add_count, Guard, add_redactions, totals_of, guard_metadata, merge_interaction_guards,
}
use exais_vector_store.Prelude.Text.{Text, text_eq, text_eq_sound}
use exais_vector_store.Prelude.{
  ℕ, List, Option, ◌≡◌, ◌∷◌, some, if◌then◌else◌, ◌+◌, [], none, arith, true, ap, refl,
}

module _ (kind : Text) where
  -- how often a kind was redacted, in a list of redactions and in those of several guards
  unfoldable pub counted : Redactions → ℕ
  counted [] = 0
  counted ((k, n) ∷ redactions) =
      let rest = counted redactions in if text_eq k kind then n + rest else rest

  unfoldable pub counted_all : List Guard → ℕ
  unfolding counted
  counted_all [] = 0
  counted_all (g ∷ guards) = counted g.redactions + counted_all guards

  unfoldable pub reported : Option Guard → ℕ
  unfolding counted
  reported none = 0
  reported (some g) = counted g.redactions

  alike : (j k : Text) → text_eq j k ≡ true → text_eq j kind ≡ text_eq k kind
  alike j k same = ap (λ t. text_eq t kind) (text_eq_sound j k same)

  counted-add_count :
      (k : Text) (n : ℕ) (totals : Redactions)
      → counted (add_count k n totals) ≡ counted ((k, n) ∷ []) + counted totals
  unfolding counted add_count
  counted-add_count k n [] = omega arith
  counted-add_count k n ((j, m) ∷ totals) =
      let rest = counted-add_count k n totals in
      let agree = alike j k in ground (arith, rest, agree)

  counted-add_redactions :
      (redactions totals : Redactions)
      → counted (add_redactions redactions totals) ≡ counted redactions + counted totals
  unfolding counted add_redactions
  counted-add_redactions [] totals = omega arith
  counted-add_redactions ((k, n) ∷ redactions) totals =
      let rest = counted-add_redactions redactions (add_count k n totals) in
      let first = counted-add_count k n totals in ground (arith, rest, first)

  counted-totals_of :
      (guards : List Guard) (totals : Redactions)
      → counted (totals_of guards totals) ≡ counted_all guards + counted totals
  unfolding counted_all totals_of
  counted-totals_of [] totals = omega arith
  counted-totals_of (g ∷ guards) totals =
      let rest = counted-totals_of guards (add_redactions g.redactions totals) in
      let first = counted-add_redactions g.redactions totals in omega (arith, rest, first)

  reported-guard_metadata :
      (redactions : Redactions) → reported (guard_metadata redactions) ≡ counted redactions
  unfolding reported counted
  reported-guard_metadata [] = refl
  reported-guard_metadata (r ∷ redactions) = refl

  -- A merge of guards loses no redaction and makes none up: for every kind, the count that the
  -- merged metadata report is the sum of the counts of that kind in the guards.
  pub reported-merge_interaction_guards :
      (guards : List Guard) → reported (merge_interaction_guards guards) ≡ counted_all guards
  unfolding counted merge_interaction_guards
  reported-merge_interaction_guards guards =
      let merged = reported-guard_metadata (totals_of guards []) in
      let total = counted-totals_of guards [] in omega (arith, merged, total)
