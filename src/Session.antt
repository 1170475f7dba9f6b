-- ===== src/Session.antt =====
-- Sessions: src/pyclaw/models/session.py and the stores of src/pyclaw/storage/session.
pub mod Types
pub mod Tree
pub mod Context
pub mod Store
pub mod RedisStore
pub mod Router
mod Examples
