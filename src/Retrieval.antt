-- ===== src/Retrieval.antt =====
-- packages/svs_common/svs_common/retrieval.py
pub mod Chunk
pub mod Context
pub mod Sections
pub mod Merge
pub mod Examples
