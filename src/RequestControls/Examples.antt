-- ===== src/RequestControls/Examples.antt =====
-- Concrete calls and rows.
use exais_vector_store.Prelude.{ℕ, ◌≡◌, ◌≤◌, ◌-◌, refl, List, [], ◌∷◌, none, some, arith}
use exais_vector_store.Prelude.Result.{ok, err}
use exais_vector_store.Prelude.Text.{codes}
use exais_vector_store.RequestControls.{
  Caller, count_of, Stored, check_idempotency, store_idempotency, key_reused, enforce_for_subject,
}
use exais_vector_store.RequestControls.Limits.{Call, window_of, passed, passed-enforce}
use exais_vector_store.RequestControls.Replays.{check-store_idempotency, check-store_expired}

abbrev caller : Caller
caller = record {
  tenant_id = codes "t";
  business_instance_id = codes "b";
  user_id = none;
  api_key_id = some (codes "k");
  scopes = [];
}

abbrev call_at : ℕ → Call
call_at minute = record {
  caller = caller;
  subject = codes "k";
  bucket = codes "search";
  limit = 2;
  minute = minute;
}

abbrev calls : List Call
calls = call_at 7 ∷ call_at 8 ∷ call_at 7 ∷ call_at 7 ∷ []

-- the third call of minute 7 is refused
two_pass : passed (window_of (call_at 7)) calls [] ≡ 2
unfolding enforce_for_subject
two_pass = refl

passed-enforce_example :
    passed (window_of (call_at 7)) calls [] ≤ 2 - count_of (window_of (call_at 7)) []
passed-enforce_example =
    passed-enforce (window_of (call_at 7)) 2 calls []
      ((λ _. omega arith), ((λ _. omega arith), ((λ _. omega arith), ((λ _. omega arith), tt))))

abbrev old_row : Stored ℕ
old_row = record {
  tenant_id = codes "t";
  business_instance_id = codes "b";
  idempotency_key = codes "key";
  request_fingerprint = codes "fp";
  response = 1;
  status_code = 200;
  expires_at = 10;
}

check-store_idempotency_run :
    let stored =
      store_idempotency caller (some (codes "new")) (codes "fp") 5 200 20 24 (old_row ∷ []) in
    (check_idempotency caller (some (codes "new")) (codes "fp") 30 stored ≡ ok (some 5))
    × (check_idempotency caller (some (codes "new")) (codes "other") 30 stored ≡ err key_reused)
check-store_idempotency_run =
    check-store_idempotency caller b'n' (codes "ew") (codes "fp") 5 200 20 24 30 (codes "other")
      (old_row ∷ []) (refl, tt) (omega arith) refl

check-store_expired_run :
    check_idempotency caller
      (some (codes "key"))
      (codes "fp")
      30
      (store_idempotency caller (some (codes "key")) (codes "fp") 5 200 20 24 (old_row ∷ []))
    ≡ ok none
check-store_expired_run =
    check-store_expired caller b'k' (codes "ey") (codes "fp") 5 200 20 24 30 (old_row ∷ []) refl
      ((λ _. omega arith), tt) (omega arith)
