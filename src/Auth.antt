-- ===== src/Auth.antt =====
-- packages/svs_common/svs_common/auth.py
pub mod Scopes
pub mod Keys
pub mod Users
pub mod Examples
