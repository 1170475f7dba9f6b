-- ===== src/Compaction.antt =====
-- The compaction of a conversation: src/pyclaw/core/agent/compaction.
pub mod Planning
pub mod Chunks
pub mod Dedup
pub mod Engine
mod Examples
