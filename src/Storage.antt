-- ===== src/Storage.antt =====
-- What several workers share through Redis: src/pyclaw/storage/lock/redis.py and src/pyclaw/gateway.
pub mod Redis
pub mod Lock
pub mod Mutex
pub mod Router
mod Examples
