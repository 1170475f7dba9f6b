-- ===== src/Tools.antt =====
-- The tools of the agent: src/pyclaw/core/agent/tools/registry.py.
pub mod Types
pub mod Names
pub mod Registry
pub mod Truncation
pub mod Execution
mod Examples
