-- ===== src/Interaction/Guards.antt =====
-- What the output guard redacts and how its metadata are merged: `output_guard_text` and
-- `_merge_output_guard_metadata` of packages/svs_common/svs_common/openai_compat.py, and
-- `_merge_interaction_guards` of security.py.
use exais_vector_store.Retrieval.Sections.{text_lt}
use exais_vector_store.Prelude.{
  ℕ, zero, suc, ◌+◌, List, [], ◌∷◌, ◌++◌, Option, none, some, if◌then◌else◌,
}
use exais_vector_store.Prelude.Text.{Text, codes, text_eq}

-- the "type" and the "count" of a redaction
abbrev pub Redactions : Type 0
Redactions = List (Text × ℕ)

pub record Guard : Type 0 where
  pub id : Text
  pub redactions : Redactions

abbrev pub output_guard_id : Text
output_guard_id = codes "pii_secret_citation_guard_v1"

pub record Rule : Type 0 where
  pub kind : Text
  pub subn : Text → Text × ℕ

-- a redaction is listed where its count is not 0
abbrev pub redaction : Text → ℕ → Redactions
redaction kind zero = []
redaction kind (suc n) = (kind, suc n) ∷ []

-- the loop over OUTPUT_GUARD_RULES
unfoldable pub apply_rules : List Rule → Text → Text × Redactions
apply_rules [] text = (text, [])
apply_rules (rule ∷ rules) text =
    let (guarded, count) = rule.subn text in
    let (result, redactions) = apply_rules rules guarded in
    (result, redaction rule.kind count ++ redactions)

-- `_output_guard_metadata`
abbrev pub guard_metadata : Redactions → Option Guard
guard_metadata [] = none
guard_metadata (r ∷ rs) = some (record { id = output_guard_id; redactions = r ∷ rs })

unfoldable pub output_guard_text : List Rule → (Text → Text × ℕ) → Text → Text × Option Guard
unfolding apply_rules
output_guard_text rules assignment text =
    let (guarded, redactions) = apply_rules rules text in
    let (result, count) = assignment guarded in
    (result, guard_metadata (redactions ++ redaction (codes "secret_assignment") count))

-- `totals[kind] = totals.get(kind, 0) + count`, where `sorted(totals)` lists the kinds at the end
unfoldable pub add_count : Text → ℕ → Redactions → Redactions
add_count kind n [] = (kind, n) ∷ []
add_count kind n ((k, m) ∷ totals) =
    let rest = add_count kind n totals in
    if text_eq k kind
    then (k, m + n) ∷ totals
    else if text_lt kind k
    then (kind, n) ∷ (k, m) ∷ totals
    else (k, m) ∷ rest

unfoldable pub add_redactions : Redactions → Redactions → Redactions
unfolding add_count
add_redactions [] totals = totals
add_redactions ((kind, n) ∷ redactions) totals = add_redactions redactions (add_count kind n totals)

unfoldable pub totals_of : List Guard → Redactions → Redactions
unfolding add_redactions
totals_of [] totals = totals
totals_of (g ∷ guards) totals = totals_of guards (add_redactions g.redactions totals)

-- `_merge_interaction_guards`, the same as `_merge_output_guard_metadata`
unfoldable pub merge_interaction_guards : List Guard → Option Guard
unfolding totals_of
merge_interaction_guards guards = guard_metadata (totals_of guards [])
