-- ===== src/Runner.antt =====
-- The agent loop: src/pyclaw/core/agent/runner.py and the helpers beside it.
pub mod LoopGuard
pub mod Gate
pub mod Compaction
pub mod Turn
pub mod Stream
pub mod State
pub mod Response
pub mod Loop
pub mod Kept
pub mod Ends
pub mod Samples
mod Examples
