-- ===== src/VectorStores/Examples.antt =====
-- The expiry of a vector store at a concrete policy.
use exais_vector_store.Prelude.{◌≡◌, refl, none, some}
use exais_vector_store.Prelude.Result.{ok}
use exais_vector_store.Metadata.{object}
use exais_vector_store.Metadata.Requests.{policy_fields, validate_expires_after, positive_days}
use exais_vector_store.VectorStores.Policy.{
  Casts, expires_at_from_policy, expiration_policy_days, cast_days,
}

-- nothing but an integer is read as one
abbrev pub casts : Casts
casts = record { int_of = λ v. none; days_of = λ v. none }

pub accepted : validate_expires_after (object (policy_fields 7)) ≡ ok (some (policy_fields 7))
unfolding validate_expires_after positive_days
accepted = refl

week : expires_at_from_policy casts (some (policy_fields 7)) 100 ≡ some 604800000100
unfolding expires_at_from_policy expiration_policy_days cast_days
week = refl
