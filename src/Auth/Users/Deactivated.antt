-- ===== src/Auth/Users/Deactivated.antt =====
-- After a user is deactivated, none of the user's keys resolves.
use exais_vector_store.Prelude.{
  ℕ, ◌≡◌, ◌≢◌, refl, sym, ap, ◌∙◌, subst, inl, inr, true, false, ◌&&◌, List, [], ◌∷◌, map, Option,
  none, some, arith, if◌then◌else◌, Bool-cases, All,
}
use exais_vector_store.Prelude.Result.{ok}
use exais_vector_store.Prelude.Text.{Text, text_eq, text_eq_refl}
use exais_vector_store.Auth.Keys.Rows.{
  Principal, ApiKey, User, Database, active, opt_eq, sql_eq, first_row,
}
use exais_vector_store.Auth.Keys.{is_live, principal_of_key, resolve_api_key_principal}
use exais_vector_store.Auth.Keys.Steps.{first_row-All, resolve-row}
use exais_vector_store.Auth.Keys.Authority.{opt_eq_refl}
use exais_vector_store.Auth.Users.{
  AuditEvent, revoke_keys, bound_to, revocable, revoke_bound, deactivate_row, deactivate_user,
  in_scope,
}

-- a key of the user is not active
abbrev IsIdle : Principal → Text → ApiKey → Type 0
IsIdle p user_id k = bound_to p user_id k ≡ true → text_eq k.status active ≡ false

revoke_bound-IsIdle :
    (p : Principal) (user_id : Text) (rows : List ApiKey)
    → All (IsIdle p user_id) (map (revoke_bound p user_id) rows)
unfolding revoke_bound
revoke_bound-IsIdle p user_id [] = tt
revoke_bound-IsIdle p user_id (k ∷ rows) = (
  elim (Bool-cases (revocable p user_id k)) [
    | inl hit ↦ rw (hit, if◌then◌else◌) (λ bound. refl)
    | inr miss ↦ rw (miss, if◌then◌else◌) (λ bound. ground arith)
  ],
  revoke_bound-IsIdle p user_id rows,
)

revoke_keys-map :
    (p : Principal) (user_id : Text) (users : List User) (db : Database) (audit : List AuditEvent)
    (found : Option User) (result : User × List Text)
    → (revoke_keys p user_id users db audit found).0 ≡ some result
    → (revoke_keys p user_id users db audit found).1.0.api_keys
      ≡ map (revoke_bound p user_id) db.api_keys
unfolding revoke_keys
revoke_keys-map p user_id users db audit none result done = cc
revoke_keys-map p user_id users db audit (some u) result done = refl

-- Once deactivate_user has returned a user, no key resolves to a principal bound to that user in the
-- tenant and instance of the caller.
pub deactivate-resolve_never :
    (h : Text → Text) (p : Principal) (user_id : Text) (db db2 : Database) (audit : List AuditEvent)
    (result : User × List Text) (now : ℕ) (auth : Option Text) (q : Principal)
    → (deactivate_user p user_id db audit).0 ≡ some result
    → resolve_api_key_principal h now auth (deactivate_user p user_id db audit).1.0 ≡ ok (q, db2)
    → q.tenant_id ≡ p.tenant_id
    → q.business_instance_id ≡ p.business_instance_id
    → q.user_id ≢ some user_id
unfolding principal_of_key is_live deactivate_user
deactivate-resolve_never h p user_id db db2 audit result now auth q done resolved qt qb same =
    let after : Database = (deactivate_user p user_id db audit).1.0 in
    let (raw, k, found, identity, is, _) = resolve-row h now auth after db2 q resolved in
    let idle =
      subst (All (IsIdle p user_id))
        (sym (
          revoke_keys-map p user_id (map (deactivate_row p user_id) db.users) db audit
            (first_row (λ u. text_eq u.id user_id && in_scope p u)
              (map (deactivate_row p user_id) db.users))
            result done))
        (revoke_bound-IsIdle p user_id db.api_keys) in
    let (silent, live) =
      first_row-All (IsIdle p user_id) (is_live h raw now) after.api_keys k idle found in
    let user : k.user_id ≡ some user_id = sym (ap (λ (r : Principal). r.user_id) is) ∙ same in
    let tenant : k.tenant_id ≡ p.tenant_id = sym (ap (λ (r : Principal). r.tenant_id) is) ∙ qt in
    let biz : k.business_instance_id ≡ p.business_instance_id =
      sym (ap (λ (r : Principal). r.business_instance_id) is) ∙ qb in
    let a : sql_eq k.user_id (some user_id) ≡ true = rw user (text_eq_refl user_id) in
    let b : text_eq k.tenant_id p.tenant_id ≡ true = rw tenant (text_eq_refl p.tenant_id) in
    let c : opt_eq k.business_instance_id p.business_instance_id ≡ true =
      rw biz (opt_eq_refl p.business_instance_id) in
    let bound : bound_to p user_id k ≡ true = ground (arith, a, b, c) in
    let quiet = silent bound in ground (arith, live, quiet)
