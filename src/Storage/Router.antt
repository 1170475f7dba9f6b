-- ===== src/Storage/Router.antt =====
-- `AffinityRegistry` of src/pyclaw/gateway/affinity.py and `GatewayRouter` of src/pyclaw/gateway/router.py: which
-- worker handles the events of a session. The forwarder, a publication on Redis, is an argument, and so is what
-- other workers and expiry do to the server between the router's calls.
pub mod Ownership
use pyclaw.Prelude.{
  ℕ, Text, codes, Bool, true, false, Option, none, some, ◌++◌, Result, ok, err, if◌then◌else◌,
  text_eq,
}
use pyclaw.Storage.Redis.{Commands}
use pyclaw.Storage.Lock.{owns}

pub record Worker : Type 0 where
  pub worker_id : Text
  pub key_prefix : Text
  pub ttl_seconds : ℕ

unfoldable pub affinity_key : Worker → Text → Text
affinity_key w session_key = w.key_prefix ++ codes "affinity:" ++ session_key

pub data Route : Type 0 where
  local forwarded : Route

module _ {S : Type 0} (redis : Commands S) (w : Worker) where
  unfoldable pub resolve : S → Text → Option Text
  unfolding affinity_key
  resolve s session_key = redis.get s (affinity_key w session_key)

  unfoldable pub claim : S → Text → S × Bool
  unfolding affinity_key
  claim s session_key = redis.set_nx s (affinity_key w session_key) w.worker_id w.ttl_seconds

  unfoldable pub renew : S → Text → S
  unfolding affinity_key
  renew s session_key = (redis.expire s (affinity_key w session_key) w.ttl_seconds).0

  unfoldable pub release : S → Text → S × Bool
  unfolding affinity_key owns
  release s session_key =
      if owns (redis.get s (affinity_key w session_key)) w.worker_id
      then redis.del s (affinity_key w session_key)
      else (s, false)

  unfoldable pub force_claim : S → Text → S
  unfolding affinity_key
  force_claim s session_key = redis.set s (affinity_key w session_key) w.worker_id w.ttl_seconds

  unfoldable pub is_mine : Option Text → Bool
  unfolding owns
  is_mine owner = owns owner w.worker_id

  -- The end of `_route_inner`: the event goes to the owner, and to this worker where that is not reached.
  unfoldable pub deliver : (forward : Text → Bool) → S → Text → (owner : Text) → Route × S
  unfolding force_claim
  deliver forward s session_key owner =
      if forward owner then (forwarded, s) else (local, force_claim s session_key)

  -- Another worker was faster: who owns the session now.
  unfoldable pub deliver_unless_mine :
      (forward : Text → Bool) → S → Text → (owner : Option Text) → Route × S
  unfolding is_mine deliver
  deliver_unless_mine forward s session_key none = (local, s)
  deliver_unless_mine forward s session_key (some owner) =
      if is_mine (some owner) then (local, s) else deliver forward s session_key owner

  -- No one owned the session when it was looked up.
  unfoldable pub route_unowned :
      (meanwhile : ℕ → S → S) → (forward : Text → Bool) → S → Text → Route × S
  unfolding claim resolve deliver_unless_mine
  route_unowned meanwhile forward s session_key =
      let (after, claimed) = claim (meanwhile 0 s) session_key in
      let lost = meanwhile 1 after in
      if claimed
      then (local, after)
      else deliver_unless_mine forward lost session_key (resolve lost session_key)

  route_owner :
      (meanwhile : ℕ → S → S) → (forward : Text → Bool) → S → Text → Option Text → Route × S
  unfolding is_mine renew route_unowned deliver
  route_owner meanwhile forward s session_key none = route_unowned meanwhile forward s session_key
  route_owner meanwhile forward s session_key (some owner) =
      if is_mine (some owner)
      then (local, renew (meanwhile 0 s) session_key)
      else deliver forward (meanwhile 0 s) session_key owner

  -- `_route_inner`. `meanwhile` is what happens to the server before the router's second and third call.
  unfoldable pub route : (meanwhile : ℕ → S → S) → (forward : Text → Bool) → S → Text → Route × S
  unfolding resolve route_owner
  route meanwhile forward s session_key =
      route_owner meanwhile forward s session_key (resolve s session_key)
