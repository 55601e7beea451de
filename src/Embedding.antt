-- ===== src/Embedding.antt =====
-- packages/svs_common/svs_common/providers.py
pub mod Plan
pub mod Slots
pub mod Send
pub mod Retry
mod Examples
