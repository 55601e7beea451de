-- ===== src/Auth/Users/Provisioned.antt =====
-- Provisioning a user twice.
use exais_vector_store.Prelude.{
  ◌≢◌, ◌≡◌, refl, subst, inl, inr, Bool, true, false, ◌&&◌, List, [], ◌∷◌, Option, none, some,
  arith, if◌then◌else◌, Bool-cases, Option-cases,
}
use exais_vector_store.Prelude.Result.{ok-inj, Result, ok, err}
use exais_vector_store.Prelude.Text.{Text, text_eq_refl}
use exais_vector_store.Auth.Keys.Rows.{Principal, User, Database, opt_eq, any_row, first_row}
use exais_vector_store.Auth.Keys.Authority.{opt_eq_refl}
use exais_vector_store.Auth.Users.{
  UserError, other_instance, email_taken, raced_or_refused, new_user, existing_or_new, in_tenant,
  in_scope, has_external, conflicts, get_user_by_external_id, tenant_user_by_external_id,
  email_owned, insert_user, create_or_get_user,
}

-- the external id leads to a user of the instance
abbrev IsFound : Principal → Text → (User × Bool) × Database → Type 0
IsFound p external ((u, created), db) =
    (tenant_user_by_external_id p external db ≡ some u)
    × (opt_eq u.business_instance_id p.business_instance_id ≡ true)

err-ne_ok :
    {A : Type 0} {e : UserError} {a : A} (same : Path (Result UserError A) (err e) (ok a)) → ⊥
err-ne_ok same = cc

-- a user of the instance is a user of the tenant
scoped-tenant :
    (p : Principal) (external : Text) (users : List User) (u : User)
    → first_row (λ u. in_scope p u && has_external external u) users ≡ some u
    → first_row (λ u. in_tenant p u && has_external external u) users ≢ none
scoped-tenant p external [] u e n = cc
scoped-tenant p external (v ∷ users) u e n =
    elim (Bool-cases (in_tenant p v && has_external external v)) [
      | inl hit ↦ ground arith
      | inr miss ↦ scoped-tenant p external users u (ground arith) (ground arith)
    ]

insert_user-IsFound :
    (p : Principal) (external : Text) (new : User) (db : Database)
    (result : (User × Bool) × Database)
    → tenant_user_by_external_id p external db ≡ none
    → (in_tenant p new && has_external external new ≡ true)
    → opt_eq new.business_instance_id p.business_instance_id ≡ true
    → insert_user p external new db ≡ ok result
    → IsFound p external result
unfolding insert_user tenant_user_by_external_id get_user_by_external_id
insert_user-IsFound p external new db result absent mine here done =
    let added : (User × Bool) × Database = ((new, true), record db { users = new ∷ db.users }) in
    let raced = first_row (λ u. in_scope p u && has_external external u) db.users in
    elim (Bool-cases (any_row (conflicts new) db.users)) [
      | inl clash ↦
          let lost : raced_or_refused raced db ≡ ok result =
            subst (λ b. (if b then raced_or_refused raced db else ok added) ≡ ok result) clash
              done in
          elim (Option-cases raced) [
            | inl nobody ↦
                absurd (err-ne_ok (subst (λ o. raced_or_refused o db ≡ ok result) nobody lost))
            | inr (u, somebody) ↦ absurd (scoped-tenant p external db.users u somebody absent)
          ]
      | inr free ↦
          let kept : ok added ≡ ok result =
            subst (λ b. (if b then raced_or_refused raced db else ok added) ≡ ok result) free
              done in
          subst (IsFound p external) (ok-inj kept) (rw (mine, if◌then◌else◌) refl, here)
    ]

create_or_get_user-IsFound :
    (user_id : Text) (p : Principal) (external : Text) (email display_name : Option Text)
    (db : Database) (found : Option User) (result : (User × Bool) × Database)
    → tenant_user_by_external_id p external db ≡ found
    → existing_or_new p external email (new_user user_id p external email display_name) db found
      ≡ ok result
    → IsFound p external result
unfolding existing_or_new
create_or_get_user-IsFound user_id p external email display_name db none result absent done =
    let new = new_user user_id p external email display_name in
    elim (Bool-cases (email_owned p email db)) [
      | inl taken ↦ absurd (
          err-ne_ok (
            subst (λ b. (if b then err email_taken else insert_user p external new db) ≡ ok result)
              taken done))
      | inr free ↦
          insert_user-IsFound p external new db result absent
            (ground (arith, text_eq_refl p.tenant_id, text_eq_refl external))
            (opt_eq_refl p.business_instance_id)
            (subst (λ b. (if b then err email_taken else insert_user p external new db) ≡ ok result)
              free done)
    ]
create_or_get_user-IsFound user_id p external email display_name db (some u) result there done =
    elim (Bool-cases (opt_eq u.business_instance_id p.business_instance_id)) [
      | inl same ↦
          let kept : ok ((u, false), db) ≡ ok result =
            subst (λ b. (if b then ok ((u, false), db) else err other_instance) ≡ ok result) same
              done in
          subst (IsFound p external) (ok-inj kept) (there, same)
      | inr other ↦ absurd (
          err-ne_ok (
            subst (λ b. (if b then ok ((u, false), db) else err other_instance) ≡ ok result) other
              done))
    ]

-- Provisioning is idempotent: once create_or_get_user has returned a user, the same external id gives
-- that user again, not created, and leaves the tables as they are, whatever the other arguments.
pub create_or_get_user-create_or_get_user :
    (user_id other_id : Text) (p : Principal) (external : Text)
    (email display_name other_email other_name : Option Text) (db db2 : Database) (u : User)
    (created : Bool)
    → create_or_get_user user_id p external email display_name db ≡ ok ((u, created), db2)
    → create_or_get_user other_id p external other_email other_name db2 ≡ ok ((u, false), db2)
unfolding create_or_get_user existing_or_new
create_or_get_user-create_or_get_user user_id other_id p external email display_name other_email
      other_name db db2 u created done =
    let (there, same) =
      create_or_get_user-IsFound user_id p external email display_name db
        (tenant_user_by_external_id p external db) ((u, created), db2) refl done in
    rw (there, same, if◌then◌else◌) refl
