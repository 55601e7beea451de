-- ===== src/Routing.antt =====
-- The choice of an embedding profile, packages/svs_common/svs_common/vectorization_router.py. Scores
-- are in tenths of a point, what was added and what was taken off. The costs, the reasons and the
-- descriptive fields of a candidate, and the warnings of a plan, are not modelled.
pub mod Privacy
pub mod Examples
use exais_vector_store.Prelude.{
  ℕ, Bool, true, false, not, ◌&&◌, ◌||◌, List, [], ◌∷◌, ◌++◌, Option, none, some, ◌+◌, ◌*◌, leb,
  ltb, ◌==◌, if◌then◌else◌,
}
use exais_vector_store.Prelude.Result.{Result, ok, err, ◌>>=◌}
use exais_vector_store.Prelude.Text.{Text, codes, text_eq, contains, is_empty}

pub record RouterPolicy : Type 0 where
  pub deny_external_above_security_level : ℕ
  pub require_private_provider_above_security_level : ℕ
  pub fallback_private_embedding_profile : Text
  pub fallback_dev_embedding_profile : Text
  pub default_embedding_profile : Text

-- an entry of the registry's `models`
pub record Profile : Type 0 where
  pub provider : Option Text
  pub model : Option Text
  pub dimensions : Option ℕ
  pub privacy : Option Text
  pub candidates : List Text

abbrev pub no_profile : Profile
no_profile = record {
  provider = none;
  model = none;
  dimensions = none;
  privacy = none;
  candidates = [];
}

-- `profiles.get(profile_id, {})`
abbrev pub find_profile : List (Text × Profile) → Text → Profile
find_profile [] profile_id = no_profile
find_profile ((key, p) ∷ profiles) profile_id =
    let rest = find_profile profiles profile_id in if text_eq key profile_id then p else rest

-- `p.get(key, default)`
abbrev pub with_default : Option Text → Text → Text
with_default none default = default
with_default (some t) default = t

unfoldable pub privacy_allowed : Text → ℕ → RouterPolicy → Bool
privacy_allowed privacy level policy =
    if leb policy.require_private_provider_above_security_level level
      && not (text_eq privacy (codes "private_gpu"))
    then false
    else if ltb policy.deny_external_above_security_level level
        && text_eq privacy (codes "external_api")
    then false
    else true

-- the inner function `add`, over what was seen
abbrev pub add_new : List Text → List Text → List Text
add_new seen [] = seen
add_new seen (pid ∷ pids) =
    add_new (if is_empty pid || contains seen pid then seen else seen ++ pid ∷ []) pids

abbrev pub is_provider : Text → Option Text → Bool
is_provider name none = false
is_provider name (some t) = text_eq t name

unfoldable pub expand_profile_candidates : Text → List (Text × Profile) → List Text
expand_profile_candidates profile_id profiles =
    let p = find_profile profiles profile_id in
    if is_provider (codes "routing_alias") p.provider
    then add_new [] p.candidates
    else add_new [] (profile_id ∷ [])

abbrev pub add_fallback : Text → List Text → List Text
add_fallback fallback ids = if contains ids fallback then ids else ids ++ fallback ∷ []

pub record ModelCandidate : Type 0 where
  pub model_profile_id : Text
  pub privacy : Text
  pub gained : ℕ
  pub lost : ℕ
  pub allowed : Bool

-- what the settings say: the status of a provider, and whether the mock may serve
pub record Settings : Type 0 where
  pub configured : Text → Bool
  pub mock_allowed : Bool

abbrev pub points : Bool → ℕ → ℕ
points true n = n
points false n = 0

module _ (settings : Settings) (policy : RouterPolicy) (profiles : List (Text × Profile))
    (preferred : Text) (level : ℕ) where
  unfoldable pub evaluate : ℕ → Text → ModelCandidate
  unfolding privacy_allowed
  evaluate idx candidate_id =
      let p = find_profile profiles candidate_id in
      let provider = with_default p.provider (codes "hash_mock") in
      let privacy = with_default p.privacy (codes "unknown") in
      let private_enough = privacy_allowed privacy level policy in
      let mock = text_eq provider (codes "hash_mock") in
      let refused_mock = mock && not settings.mock_allowed in
      let unconfigured = not (settings.configured provider) in
      record {
        model_profile_id = candidate_id;
        privacy = privacy;
        gained =
            1000
            + points (text_eq candidate_id preferred) 150
            + points (text_eq privacy (codes "private_gpu") && leb 3 level) 100;
        lost =
            75 * idx
            + points mock 300
            + points refused_mock 1000
            + points unconfigured 1000
            + points (not private_enough) 1000;
        allowed = private_enough && not refused_mock && not unconfigured;
      }

  unfoldable pub evaluate_from : ℕ → List Text → List ModelCandidate
  unfolding evaluate
  evaluate_from idx [] = []
  evaluate_from idx (candidate_id ∷ ids) = evaluate idx candidate_id ∷ evaluate_from (idx + 1) ids

-- the key of `c` is greater than that of `d`
abbrev pub ranks_above : ModelCandidate → ModelCandidate → Bool
ranks_above c d =
    (c.allowed && not d.allowed)
    || (not (not c.allowed && d.allowed) && ltb (d.gained + c.lost) (c.gained + d.lost))

abbrev pub insert_candidate : ModelCandidate → List ModelCandidate → List ModelCandidate
insert_candidate c [] = c ∷ []
insert_candidate c (d ∷ ds) =
    let rest = insert_candidate c ds in if ranks_above d c then d ∷ rest else c ∷ d ∷ ds

-- the stable sort, the greatest key first
unfoldable pub sort_candidates : List ModelCandidate → List ModelCandidate
sort_candidates [] = []
sort_candidates (c ∷ cs) = insert_candidate c (sort_candidates cs)

-- `next((c for c in candidates if c.allowed), None)`
unfoldable pub first_allowed : List ModelCandidate → Option ModelCandidate
first_allowed [] = none
first_allowed (c ∷ cs) = let rest = first_allowed cs in if c.allowed then some c else rest

pub data PlanError : Type 0 where
  statute_profile_missing : PlanError
  statute_refused : PlanError
  statute_excluded : PlanError

pub record Plan : Type 0 where
  pub embedding_profile_id : Text
  pub candidates : List ModelCandidate

-- STATUTE_EMBEDDING_PROFILE
abbrev pub statute_embedding_profile : Text
statute_embedding_profile = codes "voyage_4_docs_1024"

abbrev pub is_number : ℕ → Option ℕ → Bool
is_number n none = false
is_number n (some m) = m == n

-- the profile that a statute wants
abbrev pub serves_statutes : Profile → Bool
serves_statutes p =
    is_provider (codes "voyage") p.provider
    && is_provider (codes "voyage-4") p.model
    && is_number 1024 p.dimensions
    && is_provider (codes "external_api") p.privacy

-- `mode.get('embedding_profile') or resolve_embedding_profile(mode_id, level)`
unfoldable pub preferred_profile : RouterPolicy → Option Text → ℕ → Text
preferred_profile policy (some (x ∷ t)) level = x ∷ t
preferred_profile policy _ level =
    if leb policy.require_private_provider_above_security_level level
    then policy.fallback_private_embedding_profile
    else policy.default_embedding_profile

-- `chosen_candidate.model_profile_id if chosen_candidate else preferred`
abbrev pub chosen_or : Option ModelCandidate → Text → Text
chosen_or none preferred = preferred
chosen_or (some c) preferred = c.model_profile_id

abbrev pub missing : Option ModelCandidate → Bool
missing none = true
missing (some c) = false

module _ (settings : Settings) (policy : RouterPolicy) (profiles : List (Text × Profile)) where
  unfoldable pub candidate_ids : Text → List Text
  unfolding expand_profile_candidates
  candidate_ids preferred = add_fallback policy.fallback_dev_embedding_profile (
      add_fallback policy.fallback_private_embedding_profile
        (expand_profile_candidates preferred profiles))

  unfoldable pub rank : Text → ℕ → List Text → List ModelCandidate
  unfolding sort_candidates evaluate_from
  rank preferred level ids =
      sort_candidates (evaluate_from settings policy profiles preferred level 0 ids)

  -- `chunk_count` is the number of chunks that the chosen chunker cuts the content into
  unfoldable pub plan_statute : ℕ → ℕ → Result PlanError Plan
  unfolding rank first_allowed
  plan_statute level chunk_count =
      let ranked = rank statute_embedding_profile level (statute_embedding_profile ∷ []) in
      if not (serves_statutes (find_profile profiles statute_embedding_profile))
      then err statute_profile_missing
      else if missing (first_allowed ranked)
      then err statute_refused
      else if chunk_count == 0
      then err statute_excluded
      else ok (record {
        embedding_profile_id = chosen_or (first_allowed ranked) statute_embedding_profile;
        candidates = ranked;
      })

  unfoldable pub plan_other : Option Text → ℕ → Plan
  unfolding preferred_profile candidate_ids rank first_allowed
  plan_other mode_profile level =
      let preferred = preferred_profile policy mode_profile level in
      let ranked = rank preferred level (candidate_ids preferred) in
      record {
        embedding_profile_id = chosen_or (first_allowed ranked) preferred;
        candidates = ranked;
      }

  unfoldable pub build_ingestion_plan : Bool → Option Text → ℕ → ℕ → Result PlanError Plan
  unfolding plan_statute plan_other
  build_ingestion_plan true mode_profile level chunk_count = plan_statute level chunk_count
  build_ingestion_plan false mode_profile level chunk_count = ok (plan_other mode_profile level)
