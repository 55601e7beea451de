-- ===== src/Auth/Keys/Authority.antt =====
-- What holds of a key for ever: a minted key has no more than its creator, a revoked key is refused.
use exais_vector_store.Prelude.{
  ℕ, ◌≢◌, ◌≡◌, ◌≤◌, refl, sym, ap, ◌∙◌, subst, inl, inr, Bool, true, false, List, [], ◌∷◌, map,
  Option, none, some, ◌&&◌, arith, if◌then◌else◌, Bool-cases, All, ltb,
}
use exais_vector_store.Auth.Keys.Rows.{
  Principal, ApiKey, Database, has_id, any_row, first_row, owned, active, revoked, opt_eq,
}
use exais_vector_store.Auth.Keys.{
  create_api_key, revoke_api_key, revoke_row, touch_row, resolve_api_key_principal, is_live,
  or_else, default_api_key_scopes, is_some, ltb,
}
use exais_vector_store.Auth.Keys.Steps.{Steps, create-Inserted}
use exais_vector_store.Auth.Scopes.{principal_has_scope, validate_delegated_security_level}
use exais_vector_store.Auth.Scopes.Delegation.{has_scope-delegated}
use exais_vector_store.Prelude.Result.{ok-inj, ok}
use exais_vector_store.Prelude.Text.{Text, text_eq, text_eq_refl}
use exais_vector_store.Auth.Keys.Kept.{Kept, IsStable, Kept-Steps, resolve-Kept}

All-fresh :
    (key_id : Text) (P : ApiKey → Type 0) (rows : List ApiKey)
    → any_row (has_id key_id) rows ≡ false
    → All (λ k. has_id key_id k ≡ true → P k) rows
All-fresh key_id P [] e = tt
All-fresh key_id P (k ∷ rows) e =
    ((λ hit. absurd (ground arith)), All-fresh key_id P rows (ground arith))

-- the tenant, the instance, the level and the scopes of `k`
abbrev Matches : ApiKey → ApiKey → Type 0
Matches k r =
    (r.tenant_id ≡ k.tenant_id)
    × (r.business_instance_id ≡ k.business_instance_id)
    × (r.max_security_level ≡ k.max_security_level)
    × (r.scopes ≡ k.scopes)

Matches-IsStable : (k : ApiKey) → IsStable (Matches k)
unfolding revoke_row touch_row
Matches-IsStable k = record {
  revoking_keeps = λ p t r m. elim (Bool-cases (has_id t r && owned p r)) [
    | inl c ↦ rw (c, if◌then◌else◌) m
    | inr c ↦ rw (c, if◌then◌else◌) m
  ];
  touching_keeps = λ t now r m. elim (Bool-cases (has_id t r)) [
    | inl c ↦ rw (c, if◌then◌else◌) m
    | inr c ↦ rw (c, if◌then◌else◌) m
  ];
}

level-ok :
    (held level minted : ℕ)
    → validate_delegated_security_level held (some level) ≡ ok minted
    → ltb held level ≡ false
    → level ≡ minted
unfolding validate_delegated_security_level
level-ok held level minted e within = ground arith

level-le :
    (held : ℕ) (level : Option ℕ) (minted : ℕ)
    → validate_delegated_security_level held level ≡ ok minted
    → minted ≤ held
unfolding validate_delegated_security_level
level-le held none minted e = subst (λ n. n ≤ held) (ok-inj e) (omega arith)
level-le held (some level) minted e = elim (Bool-cases (ltb held level)) [
  | inl above ↦ ground arith
  | inr within ↦ subst (λ n. n ≤ held) (level-ok held level minted e within) (ground arith)
]

-- A key never has more authority than its creator, at any later time: a principal that it resolves
-- to is in the creator's tenant and instance, its level is at most the creator's, and each scope
-- check that it passes the creator passes.
pub create-resolve_authority :
    (h : Text → Text) (raw key_id label : Text) (now : ℕ) (p : Principal)
    (scopes : Option (List Text)) (level expires : Option ℕ) (user : Option Text)
    (db db2 db3 db4 : Database) (k : ApiKey) (later : ℕ) (auth : Option Text) (q : Principal)
    → create_api_key h raw key_id now p label scopes level expires user db ≡ ok (k, db2)
    → Steps h db2 db3
    → resolve_api_key_principal h later auth db3 ≡ ok (q, db4)
    → q.api_key_id ≡ some k.id
    → (q.tenant_id ≡ p.tenant_id)
      × (q.business_instance_id ≡ p.business_instance_id)
      × (q.max_security_level ≤ p.max_security_level)
      × ((required : List Text) (any_of : Bool)
          → principal_has_scope q.scopes required any_of ≡ true
          → principal_has_scope p.scopes required any_of ≡ true)
create-resolve_authority h raw key_id label now p scopes level expires user db db2 db3 db4 k later
      auth q e steps resolved same =
    let requested = or_else scopes default_api_key_scopes in
    let (fresh, grown, _, tenant, biz, held, minted) =
      create-Inserted h raw key_id label now p scopes level expires user db (k, db2) e in
    let start : Kept k.id (Matches k) db2.api_keys =
      subst (λ (d : Database). Kept k.id (Matches k) d.api_keys) (sym grown)
        (
          ground (arith, text_eq_refl k.id),
          ((λ hit. (refl, refl, refl, refl)), All-fresh k.id (Matches k) db.api_keys fresh),
        ) in
    let (_, r, (rt, rb, rl, rs), _, qt, qb, ql, qs) =
      resolve-Kept h k.id (Matches k) (Matches-IsStable k) later auth db3 db4 q
        (Kept-Steps h k.id (Matches k) (Matches-IsStable k) start steps) resolved same in
    (
      qt ∙ rt ∙ tenant,
      qb ∙ rb ∙ biz,
      subst (λ n. n ≤ p.max_security_level) (sym (ql ∙ rl))
          (level-le p.max_security_level level k.max_security_level held),
      λ required any_of passes.
          has_scope-delegated p.scopes requested (is_some user) k.scopes required any_of minted
            (subst (λ s. principal_has_scope s required any_of ≡ true) (qs ∙ rs) passes),
    )

-- the keys of the tenant and instance of `p` are revoked
abbrev Dead : Principal → ApiKey → Type 0
Dead p k = owned p k ≡ true → k.status ≡ revoked

Dead-IsStable : (p : Principal) → IsStable (Dead p)
unfolding revoke_row touch_row
Dead-IsStable p = record {
  revoking_keeps = λ by t r m. elim (Bool-cases (has_id t r && owned by r)) [
    | inl c ↦ rw (c, if◌then◌else◌) (λ _. refl)
    | inr c ↦ rw (c, if◌then◌else◌) m
  ];
  touching_keeps = λ t now r m. elim (Bool-cases (has_id t r)) [
    | inl c ↦ rw (c, if◌then◌else◌) m
    | inr c ↦ rw (c, if◌then◌else◌) m
  ];
}

revoke-Dead :
    (p : Principal) (key_id : Text) (rows : List ApiKey)
    → All (λ k. has_id key_id k ≡ true → Dead p k) (map (revoke_row p key_id) rows)
unfolding revoke_row
revoke-Dead p key_id [] = tt
revoke-Dead p key_id (k ∷ rows) = (
  elim (Bool-cases (has_id key_id k && owned p k)) [
    | inl c ↦ rw (c, if◌then◌else◌) (λ _ _. refl)
    | inr c ↦ rw (c, if◌then◌else◌) (λ hit own. absurd (ground arith))
  ],
  revoke-Dead p key_id rows,
)

any-first :
    (key_id : Text) (p : Principal) (rows : List ApiKey) (k : ApiKey)
    → first_row (λ r. has_id key_id r && owned p r) rows ≡ some k
    → any_row (has_id key_id) rows ≡ true
any-first key_id p [] k e = cc
any-first key_id p (r ∷ rows) k e = elim (Bool-cases (has_id key_id r)) [
  | inl hit ↦ ground arith
  | inr miss ↦ ground (arith, any-first key_id p rows k)
]

pub opt_eq_refl : (t : Option Text) → opt_eq t t ≡ true
opt_eq_refl none = refl
opt_eq_refl (some t) = text_eq_refl t

Dead-ne_live :
    (h : Text → Text) (p : Principal) (raw : Text) (now : ℕ) (k : ApiKey)
    → Dead p k
    → p.tenant_id ≡ k.tenant_id
    → p.business_instance_id ≡ k.business_instance_id
    → is_live h raw now k ≢ true
unfolding is_live
Dead-ne_live h p raw now k dead tenant biz live =
    let t : text_eq k.tenant_id p.tenant_id ≡ true =
      subst (λ s. text_eq k.tenant_id s ≡ true) (sym tenant) (text_eq_refl k.tenant_id) in
    let b : opt_eq k.business_instance_id p.business_instance_id ≡ true =
      subst (λ s. opt_eq k.business_instance_id s ≡ true) (sym biz)
        (opt_eq_refl k.business_instance_id) in
    let status : text_eq k.status active ≡ false =
      ap (λ s. text_eq s active) (dead (ground arith)) in
    ground arith

-- A key that `revoke_api_key` has returned never resolves again to a principal of the tenant and
-- instance that it was revoked in, whatever calls are made in between.
pub revoke-resolve_never :
    (h : Text → Text) (p : Principal) (key_id : Text) (db db2 db3 : Database) (row : ApiKey)
    (later : ℕ) (auth : Option Text) (q : Principal)
    → (revoke_api_key p key_id db).0 ≡ some row
    → Steps h (revoke_api_key p key_id db).1 db2
    → resolve_api_key_principal h later auth db2 ≡ ok (q, db3)
    → q.tenant_id ≡ p.tenant_id
    → q.business_instance_id ≡ p.business_instance_id
    → q.api_key_id ≢ some key_id
unfolding revoke_api_key is_live
revoke-resolve_never h p key_id db db2 db3 row later auth q found steps resolved qt qb same =
    let table = map (revoke_row p key_id) db.api_keys in
    let start : Kept key_id (Dead p) table =
      (any-first key_id p table row found, revoke-Dead p key_id db.api_keys) in
    let (raw, k, dead, live, kt, kb, _, _) =
      resolve-Kept h key_id (Dead p) (Dead-IsStable p) later auth db2 db3 q
        (Kept-Steps h key_id (Dead p) (Dead-IsStable p) start steps) resolved same in
    Dead-ne_live h p raw later k dead (sym qt ∙ kt) (sym qb ∙ kb) live
