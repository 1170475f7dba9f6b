-- ===== src/Storage/Lock.antt =====
-- `RedisLockManager` of src/pyclaw/storage/lock/redis.py.
pub mod Exclusion
use pyclaw.Prelude.{
  ℕ, Text, Bool, true, false, Option, none, some, List, [], ◌∷◌, ◌++◌, Result, ok, err,
  if◌then◌else◌, text_eq,
}
use pyclaw.Storage.Redis.{Commands}

-- The `LockAcquireError`, with the full key.
pub data LockError : Type 0 where
  not_acquired : Text → LockError

unfoldable pub full_key : (prefix : Text) → Text → Text
full_key prefix key = prefix ++ key

-- redis.call('get', KEYS[1]) == ARGV[1]
unfoldable pub owns : Option Text → Text → Bool
owns none token = false
owns (some value) token = text_eq value token

module _ {S : Type 0} (redis : Commands S) (prefix : Text) where
  -- The token comes from `secrets`.
  unfoldable pub acquire : S → (key token : Text) → (ttl_ms : ℕ) → S × Result LockError Text
  unfolding full_key
  acquire s key token ttl =
      let (after, set) = redis.set_nx s (full_key prefix key) token ttl in
      (after, (if set then ok token else err (not_acquired (full_key prefix key))))

  -- The release script.
  unfoldable pub release : S → (key token : Text) → S × Bool
  unfolding full_key owns
  release s key token =
      if owns (redis.get s (full_key prefix key)) token
      then redis.del s (full_key prefix key)
      else (s, false)

  -- The renewal script.
  unfoldable pub renew : S → (key token : Text) → (ttl_ms : ℕ) → S × Bool
  unfolding full_key owns
  renew s key token ttl =
      if owns (redis.get s (full_key prefix key)) token
      then redis.expire s (full_key prefix key) ttl
      else (s, false)
