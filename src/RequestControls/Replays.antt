-- ===== src/RequestControls/Replays.antt =====
-- What a stored response gives back.
use exais_vector_store.Prelude.{
  ℕ, ◌≡◌, ◌≤◌, ◌<◌, refl, inl, inr, Bool, true, false, ◌&&◌, ◌||◌, List, [], ◌∷◌, none, some, ◌+◌,
  arith, ltb, if◌then◌else◌, Bool-cases, All,
}
use exais_vector_store.Prelude.Result.{ok, err}
use exais_vector_store.Prelude.Text.{Text, text_eq, text_eq_refl}
use exais_vector_store.RequestControls.{
  Caller, Stored, is_row, find_row, check_idempotency, upsert_row, store_idempotency, key_reused,
}

module _ {R : Type 0} (p : Caller) (key : Text) where
  -- no row of the key
  abbrev pub IsAbsent : Stored R → Type 0
  IsAbsent r = is_row p key r ≡ false

  -- the row of the key, if this is it, has expired
  abbrev pub IsExpired : ℕ → Stored R → Type 0
  IsExpired now r = is_row p key r ≡ true → r.expires_at ≤ now

  abbrev pub any_row : List (Stored R) → Bool
  any_row [] = false
  any_row (r ∷ rows) = is_row p key r || any_row rows

  find_row_expired :
      (now later : ℕ) (rows : List (Stored R))
      → now ≤ later
      → All (IsExpired now) rows
      → find_row p key later rows ≡ none
  unfolding find_row
  find_row_expired now later [] after a = refl
  find_row_expired now later (r ∷ rows) after (old, a) =
      let skipped : is_row p key r && ltb later r.expires_at ≡ false = ground (arith, old) in
      rw (skipped, if◌then◌else◌) (find_row_expired now later rows after a)

module _ {R : Type 0} (p : Caller) (x : ℕ) (t fingerprint : Text) (response : R)
    (status now ttl : ℕ) where
  -- the row that an insertion makes
  abbrev made : Stored R
  made = record {
    tenant_id = p.tenant_id;
    business_instance_id = p.business_instance_id;
    idempotency_key = x ∷ t;
    request_fingerprint = fingerprint;
    response = response;
    status_code = status;
    expires_at = now + ttl;
  }

  find_row-upsert_fresh :
      (later : ℕ) (rows : List (Stored R))
      → All (IsAbsent p (x ∷ t)) rows
      → later < now + ttl
      → find_row p (x ∷ t) later (upsert_row p made rows) ≡ some made
  unfolding find_row upsert_row
  find_row-upsert_fresh later [] a soon =
      let mine : is_row p (x ∷ t) made && ltb later (now + ttl) ≡ true = ground (
        arith,
        text_eq_refl p.tenant_id,
        text_eq_refl p.business_instance_id,
        text_eq_refl (x ∷ t),
      ) in
      rw (mine, if◌then◌else◌) refl
  find_row-upsert_fresh later (r ∷ rows) (absent, a) soon =
      rw (absent, if◌then◌else◌, absent) (find_row-upsert_fresh later rows a soon)

  find_row-upsert_expired :
      (later : ℕ) (rows : List (Stored R))
      → any_row p (x ∷ t) rows ≡ true
      → All (IsExpired p (x ∷ t) now) rows
      → now ≤ later
      → find_row p (x ∷ t) later (upsert_row p made rows) ≡ none
  unfolding find_row upsert_row
  find_row-upsert_expired later [] there a after = cc
  find_row-upsert_expired later (r ∷ rows) there (old, a) after =
      elim (Bool-cases (is_row p (x ∷ t) r)) [
        | inl mine ↦
            let skipped : is_row p (x ∷ t) r && ltb later r.expires_at ≡ false =
              ground (arith, old) in
            rw (mine, if◌then◌else◌, skipped) (find_row_expired p (x ∷ t) now later rows after a)
        | inr other ↦
            rw (other, if◌then◌else◌, other)
              (find_row-upsert_expired later rows (ground arith) a after)
      ]

  -- A response stored under a key that no row has is given back to the same request until it expires,
  -- and a request with another fingerprint is refused.
  pub check-store_idempotency :
      (later : ℕ) (other : Text) (rows : List (Stored R))
      → All (IsAbsent p (x ∷ t)) rows
      → later < now + ttl
      → text_eq fingerprint other ≡ false
      → let stored = store_idempotency p (some (x ∷ t)) fingerprint response status now ttl rows in
        (check_idempotency p (some (x ∷ t)) fingerprint later stored ≡ ok (some response))
        × (check_idempotency p (some (x ∷ t)) other later stored ≡ err key_reused)
  unfolding check_idempotency store_idempotency
  check-store_idempotency later other rows absent soon differs =
      rw
        (
          find_row-upsert_fresh later rows absent soon,
          text_eq_refl fingerprint,
          differs,
          if◌then◌else◌,
        )
        (refl, refl)

  -- A response stored under a key whose row has expired is never given back: the row keeps its old
  -- expiry, so that each later request with the key is run again.
  pub check-store_expired :
      (later : ℕ) (rows : List (Stored R))
      → any_row p (x ∷ t) rows ≡ true
      → All (IsExpired p (x ∷ t) now) rows
      → now ≤ later
      → check_idempotency p
          (some (x ∷ t))
          fingerprint
          later
          (store_idempotency p (some (x ∷ t)) fingerprint response status now ttl rows)
        ≡ ok none
  unfolding check_idempotency store_idempotency
  check-store_expired later rows there old after =
      rw (find_row-upsert_expired later rows there old after) refl
