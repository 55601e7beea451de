-- ===== src/VectorStores/Policy.antt =====
-- The expiry of a vector store, vector_store_repo.py in packages/svs_common/svs_common: computed in
-- Python when a policy is set, and by PostgreSQL when the store is used. What `int` and the cast of
-- PostgreSQL answer on values other than integers are arguments.
use exais_vector_store.Prelude.{
  subst, some-inj, ℕ, ◌≡◌, refl, sym, true, not, List, [], ◌∷◌, Option, none, some, ◌+◌, ◌*◌, ltb,
  if◌then◌else◌, Bool, false, leb,
}
use exais_vector_store.Prelude.Int.{ℤ, pos, negsuc}
use exais_vector_store.Prelude.Result.{ok, both_ok, ok-inj, past_guard, past_need}
use exais_vector_store.Prelude.Text.{Text, codes}
use exais_vector_store.Metadata.{
  Value, Raw, null, boolean, integer, real, nonfinite, string, nested, absent, not_object, object,
}
use exais_vector_store.Metadata.Requests.{
  get, has_extra, is_text, positive_days, policy_fields, validate_expires_after,
}
use exais_vector_store.Metadata.Conforms.{has_key}

abbrev pub ExpiryPolicy : Type 0
ExpiryPolicy = List (Text × Value)

-- `int(v)`, none where it raises TypeError or ValueError; `d::int` where `d` is `v` as text and
-- matches the pattern of a positive integer
pub record Casts : Type 0 where
  pub int_of : Value → Option ℤ
  pub days_of : Value → Option ℕ

-- `expires_after.get('anchor', expires_after.get('anchor_timestamp'))`
abbrev pub anchor_of : ExpiryPolicy → Value
anchor_of policy =
    if has_key (codes "anchor") policy
    then get (codes "anchor") policy
    else get (codes "anchor_timestamp") policy

abbrev pub raw_days_of : ExpiryPolicy → Value
raw_days_of policy =
    if has_key (codes "days") policy
    then get (codes "days") policy
    else get (codes "duration_days") policy

abbrev pub to_days : Option ℤ → Option ℕ
to_days (some (pos n)) = if ltb 0 n then some n else none
to_days (some (negsuc n)) = none
to_days none = none

unfoldable pub cast_days : Casts → Value → Option ℕ
cast_days casts null = none
cast_days casts (boolean b) = none
cast_days casts (integer i) = to_days (some i)
cast_days casts (real r) = to_days (casts.int_of (real r))
cast_days casts nonfinite = to_days (casts.int_of nonfinite)
cast_days casts (string t) = to_days (casts.int_of (string t))
cast_days casts nested = to_days (casts.int_of nested)

-- `_expiration_policy_days`
unfoldable pub expiration_policy_days : Casts → Option ExpiryPolicy → Option ℕ
unfolding cast_days
expiration_policy_days casts none = none
expiration_policy_days casts (some []) = none
expiration_policy_days casts (some (entry ∷ policy)) =
    if is_text (codes "last_active_at") (anchor_of (entry ∷ policy))
    then cast_days casts (raw_days_of (entry ∷ policy))
    else none

-- times are in microseconds
abbrev pub day : ℕ
day = 86400000000

abbrev pub after_days : ℕ → Option ℕ → Option ℕ
after_days anchor none = none
after_days anchor (some days) = some (anchor + days * day)

-- `_expires_at_from_policy`, with the anchor that its callers leave to be now
unfoldable pub expires_at_from_policy : Casts → Option ExpiryPolicy → ℕ → Option ℕ
unfolding expiration_policy_days
expires_at_from_policy casts policy now = after_days now (expiration_policy_days casts policy)

-- the first microsecond after the calendar of Python, from 1970
abbrev pub calendar_end : ℕ
calendar_end = 253402300800000000

abbrev pub is_past_calendar : Option ℕ → Bool
is_past_calendar none = false
is_past_calendar (some t) = leb calendar_end t

-- whether `anchor + timedelta(days=days)` raises OverflowError, so that there is no expiry
unfoldable pub overflows : Casts → Option ExpiryPolicy → ℕ → Bool
unfolding expires_at_from_policy
overflows casts policy now = is_past_calendar (expires_at_from_policy casts policy now)

-- `coalesce(v->>a, v->>b)`
abbrev pub coalesce : Value → Value → Value
coalesce null w = w
coalesce (boolean b) w = boolean b
coalesce (integer i) w = integer i
coalesce (real r) w = real r
coalesce nonfinite w = nonfinite
coalesce (string t) w = string t
coalesce nested w = nested

-- the days of a policy as PostgreSQL reads them: an integer matches the pattern when it is positive
unfoldable pub sql_days : Casts → Value → Option ℕ
sql_days casts (integer (pos n)) = if ltb 0 n then some n else none
sql_days casts (integer (negsuc n)) = none
sql_days casts null = none
sql_days casts (boolean b) = none
sql_days casts (real r) = casts.days_of (real r)
sql_days casts nonfinite = casts.days_of nonfinite
sql_days casts (string t) = casts.days_of (string t)
sql_days casts nested = casts.days_of nested

abbrev pub or_kept : Option ℕ → Option ℕ → Option ℕ
or_kept (some t) kept = some t
or_kept none kept = kept

-- the CASE of `refresh_vector_store_activity`
unfoldable pub refreshed_expiry : Casts → Option ExpiryPolicy → Option ℕ → ℕ → Option ℕ
unfolding sql_days
refreshed_expiry casts none expires_at now = expires_at
refreshed_expiry casts (some policy) expires_at now =
    if is_text (codes "last_active_at")
      (coalesce (get (codes "anchor") policy) (get (codes "anchor_timestamp") policy))
    then or_kept
        (after_days now (
          sql_days casts
            (coalesce (get (codes "days") policy) (get (codes "duration_days") policy))))
        expires_at
    else expires_at

positive_days-positive : (v : Value) (days : ℕ) → positive_days v ≡ ok days → ltb 0 days ≡ true
unfolding positive_days
positive_days-positive null days is = cc
positive_days-positive (boolean b) days is = cc
positive_days-positive (integer (pos n)) days is =
    let (positive, same) = past_need (ltb 0 n) _ _ is in
    subst (λ k. ltb 0 k ≡ true) (ok-inj same) positive
positive_days-positive (integer (negsuc n)) days is = cc
positive_days-positive (real r) days is = cc
positive_days-positive nonfinite days is = cc
positive_days-positive (string t) days is = cc
positive_days-positive nested days is = cc

-- an accepted policy is the anchor with a positive count of days
pub accepted_policy :
    (raw : Raw) (policy : ExpiryPolicy)
    → validate_expires_after raw ≡ ok (some policy)
    → (days : ℕ) × (ltb 0 days ≡ true) × (policy ≡ policy_fields days)
unfolding validate_expires_after
accepted_policy absent policy is = cc
accepted_policy not_object policy is = cc
accepted_policy (object value) policy is =
    let (_, plain) = past_guard (has_extra (codes "anchor" ∷ codes "days" ∷ []) value) _ _ is in
    let (_, anchored) =
      past_guard (not (is_text (codes "last_active_at") (get (codes "anchor") value))) _ _ plain in
    let (days, counted, last) =
      both_ok (λ days. ok (some (policy_fields days))) (positive_days (get (codes "days") value))
        anchored in
    (
      days,
      positive_days-positive (get (codes "days") value) days counted,
      sym (some-inj (ok-inj last)),
    )

-- PostgreSQL and Python read the same days in an accepted policy
pub same_expiry :
    (casts : Casts) (days : ℕ) (expires_at : Option ℕ) (now : ℕ)
    → ltb 0 days ≡ true
    → refreshed_expiry casts (some (policy_fields days)) expires_at now
      ≡ expires_at_from_policy casts (some (policy_fields days)) now
unfolding refreshed_expiry expires_at_from_policy
same_expiry casts days expires_at now positive = rw (positive, if◌then◌else◌) refl
