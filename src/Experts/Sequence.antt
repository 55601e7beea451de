-- ===== src/Experts/Sequence.antt =====
-- Histories whose rows are numbered from 0 on, and what the queries read of them.
use exais_vector_store.Auth.Keys.Rows.{opt_eq}
use exais_vector_store.Experts.Rows.{SessionParams, Scope, same_session, same_scope}
use exais_vector_store.Auth.Keys.Authority.{opt_eq_refl}
use exais_vector_store.Prelude.Text.{Text, text_eq_sound, text_eq_refl}
use exais_vector_store.Prelude.{Option, ◌≡◌, true, some, arith, none, ap, refl}

opt_eq_sound : (a b : Option Text) → opt_eq a b ≡ true → a ≡ b
opt_eq_sound none none h = refl
opt_eq_sound none (some y) h = cc
opt_eq_sound (some x) none h = cc
opt_eq_sound (some x) (some y) h = ap some (text_eq_sound x y h)

pub same_scope_sound : (a b : Scope) → same_scope a b ≡ true → a ≡ b
same_scope_sound a b h =
    let tenant = text_eq_sound a.tenant_id b.tenant_id (ground (arith, h)) in
    let biz = text_eq_sound a.biz_id b.biz_id (ground (arith, h)) in
    let key = opt_eq_sound a.api_key_id b.api_key_id (ground (arith, h)) in
    let user = opt_eq_sound a.user_id b.user_id (ground (arith, h)) in cc

pub same_session_sound : (a b : SessionParams) → same_session a b ≡ true → a ≡ b
same_session_sound a b h =
    let scope = same_scope_sound a.scope b.scope (ground (arith, h)) in
    let expert = text_eq_sound a.expert_id b.expert_id (ground (arith, h)) in
    let external = opt_eq_sound a.external_user_id b.external_user_id (ground (arith, h)) in
    let conversation = opt_eq_sound a.conversation_id b.conversation_id (ground (arith, h)) in
    let id = text_eq_sound a.session_id b.session_id (ground (arith, h)) in
    let key = text_eq_sound a.session_key b.session_key (ground (arith, h)) in cc

pub same_scope_refl : (a : Scope) → same_scope a a ≡ true
same_scope_refl a =
    let tenant = text_eq_refl a.tenant_id in
    let biz = text_eq_refl a.biz_id in
    let key = opt_eq_refl a.api_key_id in
    let user = opt_eq_refl a.user_id in ground (arith, tenant, biz, key, user)

pub same_session_refl : (a : SessionParams) → same_session a a ≡ true
same_session_refl a =
    let scope = same_scope_refl a.scope in
    let expert = text_eq_refl a.expert_id in
    let external = opt_eq_refl a.external_user_id in
    let conversation = opt_eq_refl a.conversation_id in
    let id = text_eq_refl a.session_id in
    let key = text_eq_refl a.session_key in
    ground (arith, scope, expert, external, conversation, id, key)
