-- ===== src/RequestControls.antt =====
-- Rate limits and idempotency keys, packages/svs_common/svs_common/request_controls.py. A minute is a
-- number, and the tables are lists of rows.
pub mod Limits
pub mod Replays
pub mod Examples
use exais_vector_store.Prelude.{
  ℕ, Bool, true, false, ◌&&◌, ◌||◌, List, [], ◌∷◌, ◌++◌, Option, none, some, ◌+◌, ltb, leb, ◌==◌,
  if◌then◌else◌,
}
use exais_vector_store.Prelude.Result.{Result, ok, err}
use exais_vector_store.Prelude.Text.{Text, codes, text_eq, contains, starts_with}

-- the fields of a principal that the limits read
pub record Caller : Type 0 where
  pub tenant_id : Text
  pub business_instance_id : Text
  pub user_id : Option Text
  pub api_key_id : Option Text
  pub scopes : List Text

-- the unique key of rate_limit_counters
pub record Window : Type 0 where
  pub tenant_id : Text
  pub business_instance_id : Text
  pub subject_id : Text
  pub bucket : Text
  pub window_start : ℕ

abbrev pub same_window : Window → Window → Bool
same_window v w =
    text_eq v.tenant_id w.tenant_id
    && text_eq v.business_instance_id w.business_instance_id
    && text_eq v.subject_id w.subject_id
    && text_eq v.bucket w.bucket
    && (v.window_start == w.window_start)

abbrev pub Counters : Type 0
Counters = List (Window × ℕ)

-- the count of the window's row, 0 where there is none
unfoldable pub count_of : Window → Counters → ℕ
count_of w [] = 0
count_of w ((v, n) ∷ counters) =
    let rest = count_of w counters in if same_window v w then n else rest

-- `INSERT ... ON CONFLICT DO UPDATE SET count=count + 1`
unfoldable pub bump : Window → Counters → Counters
bump w [] = (w, 1) ∷ []
bump w ((v, n) ∷ counters) =
    let rest = bump w counters in if same_window v w then (v, n + 1) ∷ counters else (v, n) ∷ rest

pub data LimitError : Type 0 where
  rate_limited : Text → ℕ → LimitError

-- `_enforce_rate_limit_for_subject`; the row is there once it was bumped
unfoldable pub enforce_for_subject :
    Caller → Text → Text → ℕ → ℕ → Counters → Result LimitError (Unit {0}) × Counters
unfolding count_of bump
enforce_for_subject p subject bucket limit minute counters =
    let w : Window = record {
      tenant_id = p.tenant_id;
      business_instance_id = p.business_instance_id;
      subject_id = subject;
      bucket = bucket;
      window_start = minute;
    } in
    let counted = bump w counters in
    (if ltb limit (count_of w counted) then err (rate_limited bucket limit) else ok tt, counted)

pub record LimitSettings : Type 0 where
  pub admin_per_minute : ℕ
  pub default_per_minute : ℕ

-- `limit_per_minute or (...)`
abbrev pub limit_or : Option ℕ → ℕ → ℕ
limit_or none limit = limit
limit_or (some n) limit = if n == 0 then limit else n

-- `a or b` on optional strings
abbrev pub text_or : Option Text → Text → Text
text_or none other = other
text_or (some []) other = other
text_or (some (x ∷ t)) other = x ∷ t

unfoldable pub enforce_rate_limit :
    LimitSettings
    → Caller
    → Text
    → Option ℕ
    → ℕ
    → Counters
    → Result LimitError (Unit {0}) × Counters
unfolding enforce_for_subject
enforce_rate_limit settings p bucket given minute counters =
    let limit = limit_or given (
      if starts_with (codes "admin") bucket
      then settings.admin_per_minute
      else settings.default_per_minute) in
    let subject = text_or p.api_key_id (text_or p.user_id (codes "anonymous")) in
    if contains p.scopes (codes "system")
    then (ok tt, counters)
    else enforce_for_subject p subject bucket limit minute counters

unfoldable pub enforce_resource_rate_limit :
    Caller → Text → Text → ℕ → ℕ → Counters → Result LimitError (Unit {0}) × Counters
unfolding enforce_for_subject
enforce_resource_rate_limit p resource_id bucket limit minute counters =
    if contains p.scopes (codes "system")
    then (ok tt, counters)
    else enforce_for_subject p (codes "resource:" ++ resource_id) bucket limit minute counters

-- a row of idempotency_keys
pub record Stored (R : Type 0) : Type 0 where
  pub tenant_id : Text
  pub business_instance_id : Text
  pub idempotency_key : Text
  pub request_fingerprint : Text
  pub response : R
  pub status_code : ℕ
  pub expires_at : ℕ

pub data ReplayError : Type 0 where
  key_reused : ReplayError

module _ {R : Type 0} where
  abbrev pub is_row : Caller → Text → Stored R → Bool
  is_row p key r =
      text_eq r.tenant_id p.tenant_id
      && text_eq r.business_instance_id p.business_instance_id
      && text_eq r.idempotency_key key

  unfoldable pub find_row : Caller → Text → ℕ → List (Stored R) → Option (Stored R)
  find_row p key now [] = none
  find_row p key now (r ∷ rows) =
      let rest = find_row p key now rows in
      if is_row p key r && ltb now r.expires_at then some r else rest

  -- `row['request_fingerprint'] != request_fingerprint`
  abbrev pub replay : Text → Option (Stored R) → Result ReplayError (Option R)
  replay fingerprint none = ok none
  replay fingerprint (some r) =
      if text_eq r.request_fingerprint fingerprint then ok (some r.response) else err key_reused

  -- a missing key is `none` or empty
  unfoldable pub check_idempotency :
      Caller → Option Text → Text → ℕ → List (Stored R) → Result ReplayError (Option R)
  unfolding find_row
  check_idempotency p none fingerprint now rows = ok none
  check_idempotency p (some []) fingerprint now rows = ok none
  check_idempotency p (some (x ∷ key)) fingerprint now rows =
      replay fingerprint (find_row p (x ∷ key) now rows)

  -- on a conflict only the response and its status change
  unfoldable pub upsert_row : Caller → Stored R → List (Stored R) → List (Stored R)
  upsert_row p new [] = new ∷ []
  upsert_row p new (r ∷ rows) =
      let rest = upsert_row p new rows in
      if is_row p new.idempotency_key r
      then record r { response = new.response; status_code = new.status_code } ∷ rows
      else r ∷ rest

  unfoldable pub store_idempotency :
      Caller → Option Text → Text → R → ℕ → ℕ → ℕ → List (Stored R) → List (Stored R)
  unfolding upsert_row
  store_idempotency p none fingerprint response status now ttl rows = rows
  store_idempotency p (some []) fingerprint response status now ttl rows = rows
  store_idempotency p (some (x ∷ key)) fingerprint response status now ttl rows =
      upsert_row p
        (record {
          tenant_id = p.tenant_id;
          business_instance_id = p.business_instance_id;
          idempotency_key = x ∷ key;
          request_fingerprint = fingerprint;
          response = response;
          status_code = status;
          expires_at = now + ttl;
        })
        rows
