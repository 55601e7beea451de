-- ===== src/Chunking.antt =====
-- packages/svs_common/svs_common/chunking.py
pub mod Words
pub mod Split
pub mod Examples
