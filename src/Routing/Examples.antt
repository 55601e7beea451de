-- ===== src/Routing/Examples.antt =====
-- A small registry.
use exais_vector_store.Prelude.{
  ◌≡◌, ◌≤◌, ◌<◌, ◌⊎◌, refl, true, false, not, List, [], ◌∷◌, none, some, All,
}
use exais_vector_store.Prelude.Result.{ok}
use exais_vector_store.Prelude.Text.{Text, codes, text_eq}
use exais_vector_store.Routing.{
  RouterPolicy, Profile, Settings, Plan, build_ingestion_plan, plan_other, preferred_profile,
  privacy_allowed, statute_embedding_profile,
}
use exais_vector_store.Routing.Privacy.{
  IsPermitted, plan_other-IsPermitted, build_ingestion_plan-statute,
}

abbrev policy : RouterPolicy
policy = record {
  deny_external_above_security_level = 3;
  require_private_provider_above_security_level = 4;
  fallback_private_embedding_profile = codes "bge_m3_local";
  fallback_dev_embedding_profile = codes "hash_mock_1536";
  default_embedding_profile = codes "small";
}

abbrev external : Text → Text → Profile
external provider model = record {
  provider = some provider;
  model = some model;
  dimensions = some 1024;
  privacy = some (codes "external_api");
  candidates = [];
}

abbrev registry : List (Text × Profile)
registry =
    (codes "small", external (codes "openai") (codes "text-embedding-3-small"))
    ∷ (statute_embedding_profile, external (codes "voyage") (codes "voyage-4"))
    ∷ (
      codes "bge_m3_local",
      record {
        provider = some (codes "tei");
        model = some (codes "bge-m3");
        dimensions = some 1024;
        privacy = some (codes "private_gpu");
        candidates = [];
      },
    )
    ∷ []

-- keys for the external providers, no endpoint for the private one
abbrev external_only : Settings
external_only = record {
  configured = λ provider. not (text_eq provider (codes "tei"));
  mock_allowed = false;
}

-- at level 4 each candidate is refused, and the plan names the external profile that the mode prefers
refused_plan :
    (plan_other external_only policy registry (some (codes "small")) 4).embedding_profile_id
    ≡ codes "small"
unfolding plan_other
refused_plan = refl

not_permitted : privacy_allowed (codes "external_api") 4 policy ≡ false
unfolding privacy_allowed
not_permitted = refl

plan_other-IsPermitted_example :
    let plan = plan_other external_only policy registry (some (codes "small")) 2 in
    IsPermitted external_only policy registry 2 plan.embedding_profile_id
    ⊎ (All (λ c. c.allowed ≡ false) plan.candidates
        × (plan.embedding_profile_id ≡ preferred_profile policy (some (codes "small")) 2))
plan_other-IsPermitted_example =
    plan_other-IsPermitted external_only policy registry (some (codes "small")) 2

abbrev statute_plan : Plan
statute_plan = record {
  embedding_profile_id = statute_embedding_profile;
  candidates =
      record {
        model_profile_id = statute_embedding_profile;
        privacy = codes "external_api";
        gained = 1150;
        lost = 0;
        allowed = true;
      }
      ∷ [];
}

planned_statute : build_ingestion_plan external_only policy registry true none 1 3 ≡ ok statute_plan
unfolding build_ingestion_plan
planned_statute = refl

build_ingestion_plan-statute_run :
    (statute_plan.embedding_profile_id ≡ statute_embedding_profile)
    × (1 < policy.require_private_provider_above_security_level)
    × (1 ≤ policy.deny_external_above_security_level)
build_ingestion_plan-statute_run =
    build_ingestion_plan-statute external_only policy registry none 1 3 statute_plan planned_statute
