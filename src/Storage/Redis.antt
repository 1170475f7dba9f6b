-- ===== src/Storage/Redis.antt =====
-- The Redis server, as src/pyclaw/storage/lock/redis.py and src/pyclaw/gateway/affinity.py use it: a parameter, with
-- the documented behaviour of its commands as laws. A Lua script runs as one step.
pub mod Memory
use pyclaw.Prelude.{ℕ, ◌<◌, Text, ◌≡◌, ◌≢◌, Bool, true, false, Option, none, some}

-- The commands on a server's state `S`. An expiry is a time to live in the command's unit.
pub record Commands (S : Type 0) : Type 0 where
  pub get : S → Text → Option Text
  -- SET key value EX ttl
  pub set : S → Text → Text → ℕ → S
  -- SET key value NX EX ttl, and whether the key was set
  pub set_nx : S → Text → Text → ℕ → S × Bool
  -- EXPIRE key ttl, and whether the key is there
  pub expire : S → Text → ℕ → S × Bool
  -- DEL key, and whether it was there
  pub del : S → Text → S × Bool

-- What the commands do to the values that `GET` gives, while no key expires.
pub record IsRedis {S : Type 0} (c : Commands S) : Type 0 where
  pub get-set : (s : S) (k v : Text) (ttl : ℕ) → c.get (c.set s k v ttl) k ≡ some v
  pub get-set_ne : (s : S) (k j v : Text) (ttl : ℕ) → k ≢ j → c.get (c.set s k v ttl) j ≡ c.get s j
  pub set_nx-absent :
      (s : S) (k v : Text) (ttl : ℕ)
      → c.get s k ≡ none
      → (c.get (c.set_nx s k v ttl).0 k ≡ some v) × ((c.set_nx s k v ttl).1 ≡ true)
  pub set_nx-present :
      (s : S) (k v : Text) (ttl : ℕ) {w : Text}
      → c.get s k ≡ some w
      → (c.get (c.set_nx s k v ttl).0 k ≡ some w) × ((c.set_nx s k v ttl).1 ≡ false)
  pub get-set_nx_ne :
      (s : S) (k j v : Text) (ttl : ℕ) → k ≢ j → c.get (c.set_nx s k v ttl).0 j ≡ c.get s j
  pub get-expire : (s : S) (k j : Text) (ttl : ℕ) → c.get (c.expire s k ttl).0 j ≡ c.get s j
  pub get-del : (s : S) (k : Text) → c.get (c.del s k).0 k ≡ none
  pub get-del_ne : (s : S) (k j : Text) → k ≢ j → c.get (c.del s k).0 j ≡ c.get s j
  pub del-present : (s : S) (k : Text) {w : Text} → c.get s k ≡ some w → (c.del s k).1 ≡ true
