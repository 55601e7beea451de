-- ===== src/Routing/Privacy.antt =====
-- The privacy policy and the profile that a plan names.
use exais_vector_store.Prelude.{
  ℕ, ◌≡◌, ◌≢◌, ◌≤◌, ◌<◌, refl, sym, ap, ◌∙◌, subst, inl, inr, Bool, true, false, not, List, [], ◌∷◌,
  Option, none, some, ◌+◌, arith, ◌==◌, if◌then◌else◌, Bool-cases, Option-cases, All, ◌⊎◌,
}
use exais_vector_store.Prelude.Result.{ok, err}
use exais_vector_store.Prelude.Text.{Text, codes, text_eq_sound}
use exais_vector_store.Routing.{
  RouterPolicy, Profile, find_profile, with_default, privacy_allowed, ModelCandidate, Settings,
  evaluate_from, ranks_above, insert_candidate, sort_candidates, first_allowed, Plan,
  statute_embedding_profile, serves_statutes, is_provider, preferred_profile, chosen_or, missing,
  candidate_ids, rank, plan_statute, plan_other, build_ingestion_plan, statute_profile_missing,
  statute_refused, statute_excluded,
}

module _ (P : ModelCandidate → Type 0) where
  insert-All :
      (c : ModelCandidate) (cs : List ModelCandidate)
      → P c
      → All P cs
      → All P (insert_candidate c cs)
  insert-All c [] p a = (p, tt)
  insert-All c (d ∷ ds) p (q, a) = elim (Bool-cases (ranks_above d c)) [
    | inl above ↦ rw (above, if◌then◌else◌) (q, insert-All c ds p a)
    | inr below ↦ rw (below, if◌then◌else◌) (p, (q, a))
  ]

  sort-All : (cs : List ModelCandidate) → All P cs → All P (sort_candidates cs)
  unfolding sort_candidates
  sort-All [] a = tt
  sort-All (c ∷ cs) (p, a) = insert-All c (sort_candidates cs) p (sort-All cs a)

  first_allowed-some :
      (cs : List ModelCandidate) (c : ModelCandidate)
      → All P cs
      → first_allowed cs ≡ some c
      → P c × (c.allowed ≡ true)
  unfolding first_allowed
  first_allowed-some [] c a found = cc
  first_allowed-some (d ∷ ds) c (p, a) found = elim (Bool-cases d.allowed) [
    | inl ready ↦
        let same : d ≡ c = ground arith in subst (λ x. P x × (x.allowed ≡ true)) same (p, ready)
    | inr refused ↦ first_allowed-some ds c a (ground arith)
  ]

first_allowed-none :
    (cs : List ModelCandidate) → first_allowed cs ≡ none → All (λ c. c.allowed ≡ false) cs
unfolding first_allowed
first_allowed-none [] e = tt
first_allowed-none (c ∷ cs) e = elim (Bool-cases c.allowed) [
  | inl ready ↦ absurd (ground arith)
  | inr refused ↦ (refused, first_allowed-none cs (ground arith))
]

true-ne_false : true ≢ false
true-ne_false e = cc

three_checks :
    (serves refused excluded : Bool) (made plan : Plan)
    → (if not serves
        then err statute_profile_missing
        else if refused
        then err statute_refused
        else if excluded
        then err statute_excluded
        else ok made)
      ≡ ok plan
    → (serves ≡ true) × (refused ≡ false) × (made ≡ plan)
three_checks true false false made plan e = (refl, refl, cc)
three_checks true false true made plan e = cc
three_checks true true excluded made plan e = cc
three_checks false refused excluded made plan e = cc

is_provider_sound : (name : Text) (t : Option Text) → is_provider name t ≡ true → t ≡ some name
is_provider_sound name none e = cc
is_provider_sound name (some t) e = ap some (text_eq_sound t name e)

serves-external : (p : Profile) → serves_statutes p ≡ true → p.privacy ≡ some (codes "external_api")
serves-external p e = is_provider_sound (codes "external_api") p.privacy (ground arith)

external-level :
    (level : ℕ) (policy : RouterPolicy)
    → privacy_allowed (codes "external_api") level policy ≡ true
    → (level < policy.require_private_provider_above_security_level)
      × (level ≤ policy.deny_external_above_security_level)
unfolding privacy_allowed
external-level level policy e = (ground arith, ground arith)

module _ (settings : Settings) (policy : RouterPolicy) (profiles : List (Text × Profile)) where
  -- the registry's privacy of the profile passes the policy at this level
  abbrev pub IsPermitted : ℕ → Text → Type 0
  IsPermitted level profile_id =
      privacy_allowed (with_default (find_profile profiles profile_id).privacy (codes "unknown"))
        level policy
      ≡ true

  evaluate-IsPermitted :
      (preferred : Text) (level idx : ℕ) (ids : List Text)
      → All
          (λ c. c.allowed ≡ true → IsPermitted level c.model_profile_id)
          (evaluate_from settings policy profiles preferred level idx ids)
  unfolding evaluate_from
  evaluate-IsPermitted preferred level idx [] = tt
  evaluate-IsPermitted preferred level idx (profile_id ∷ ids) =
      ((λ ready. ground arith), evaluate-IsPermitted preferred level (idx + 1) ids)

  rank-IsPermitted :
      (preferred : Text) (level : ℕ) (ids : List Text)
      → All
          (λ c. c.allowed ≡ true → IsPermitted level c.model_profile_id)
          (rank settings policy profiles preferred level ids)
  unfolding rank
  rank-IsPermitted preferred level ids =
      sort-All _ (evaluate_from settings policy profiles preferred level 0 ids)
        (evaluate-IsPermitted preferred level 0 ids)

  chosen-IsPermitted :
      (level : ℕ) (ranked : List ModelCandidate) (preferred : Text)
      → All (λ c. c.allowed ≡ true → IsPermitted level c.model_profile_id) ranked
      → IsPermitted level (chosen_or (first_allowed ranked) preferred)
        ⊎ (All (λ c. c.allowed ≡ false) ranked
            × (chosen_or (first_allowed ranked) preferred ≡ preferred))
  chosen-IsPermitted level ranked preferred each = elim (Option-cases (first_allowed ranked)) [
    | inl nothing ↦ inr (first_allowed-none ranked nothing, ap (λ o. chosen_or o preferred) nothing)
    | inr (c, found) ↦
        let (permitted, ready) = first_allowed-some _ ranked c each found in
        inl (subst (λ o. IsPermitted level (chosen_or o preferred)) (sym found) (permitted ready))
  ]

  -- A document that is not a statute is planned with a profile whose privacy passes the policy at its
  -- security level, or else no candidate is allowed and the plan names the preferred profile.
  pub plan_other-IsPermitted :
      (mode_profile : Option Text) (level : ℕ)
      → let plan = plan_other settings policy profiles mode_profile level in
        IsPermitted level plan.embedding_profile_id
        ⊎ (All (λ c. c.allowed ≡ false) plan.candidates
            × (plan.embedding_profile_id ≡ preferred_profile policy mode_profile level))
  unfolding plan_other
  plan_other-IsPermitted mode_profile level =
      let preferred = preferred_profile policy mode_profile level in
      let ids = candidate_ids settings policy profiles preferred in
      chosen-IsPermitted level (rank settings policy profiles preferred level ids) preferred
        (rank-IsPermitted preferred level ids)

  -- A statute is planned with its own profile or not at all, and only at a security level at which
  -- the policy lets content leave for an external provider.
  pub build_ingestion_plan-statute :
      (mode_profile : Option Text) (level chunk_count : ℕ) (plan : Plan)
      → build_ingestion_plan settings policy profiles true mode_profile level chunk_count ≡ ok plan
      → (plan.embedding_profile_id ≡ statute_embedding_profile)
        × (level < policy.require_private_provider_above_security_level)
        × (level ≤ policy.deny_external_above_security_level)
  unfolding build_ingestion_plan plan_statute rank evaluate_from
  build_ingestion_plan-statute mode_profile level chunk_count plan planned =
      let statute = statute_embedding_profile in
      let ranked = rank settings policy profiles statute level (statute ∷ []) in
      let stored = find_profile profiles statute in
      let (serves, chosen, made) =
        three_checks (serves_statutes stored) (missing (first_allowed ranked)) (chunk_count == 0)
          (record {
            embedding_profile_id = chosen_or (first_allowed ranked) statute;
            candidates = ranked;
          })
          plan planned in
      let named =
        sort-All (λ c. c.model_profile_id ≡ statute)
          (evaluate_from settings policy profiles statute level 0 (statute ∷ [])) (refl, tt) in
      let privacy = serves-external stored serves in
      elim (Option-cases (first_allowed ranked)) [
        | inl nothing ↦ absurd (true-ne_false (sym (ap missing nothing) ∙ chosen))
        | inr (c, found) ↦
            let (permitted, ready) =
              first_allowed-some (λ d. d.allowed ≡ true → IsPermitted level d.model_profile_id)
                ranked c (rank-IsPermitted statute level (statute ∷ [])) found in
            let (is_statute, _) =
              first_allowed-some (λ c. c.model_profile_id ≡ statute) ranked c named found in
            let at_statute : IsPermitted level statute =
              subst (IsPermitted level) is_statute (permitted ready) in
            let external : privacy_allowed (codes "external_api") level policy ≡ true =
              subst (λ o. privacy_allowed (with_default o (codes "unknown")) level policy ≡ true)
                privacy at_statute in
            let (below, within) = external-level level policy external in
            (
              sym (ap (λ (x : Plan). x.embedding_profile_id) made)
                  ∙ ap (λ o. chosen_or o statute) found
                  ∙ is_statute,
              below,
              within,
            )
      ]
