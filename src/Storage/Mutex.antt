-- ===== src/Storage/Mutex.antt =====
-- `DistributedMutex` of src/pyclaw/storage/lock/mutex.py: a lock that a background task renews. Of the task manager
-- it has the state of that task (`get_state` of src/pyclaw/infra/task_manager.py), which is gone once it is pruned.
pub mod FailSafe
use pyclaw.Prelude.{
  ℕ, ◌*◌, Text, Bool, true, false, not, ◌||◌, Option, none, some, List, [], ◌∷◌, Result, ok, err,
  if◌then◌else◌, leb, ltb, ◌==◌,
}
use pyclaw.Storage.Redis.{Commands}
use pyclaw.Storage.Lock.{LockError, acquire, release, renew}

pub data TaskState : Type 0 where
  running done cancelled failed : TaskState

-- `heartbeat` is none before a task is spawned, and `some none` when its handle is gone.
pub record Mutex : Type 0 where
  pub key : Text
  pub ttl_ms : ℕ
  pub token : Option Text
  pub lost_event : Option Bool
  pub heartbeat : Option (Option TaskState)

-- The `ValueError`s of the constructor.
pub data ConfigError : Type 0 where
  ttl_not_positive interval_not_positive interval_too_long : ConfigError

-- The interval is in milliseconds here, so that `interval_ms >= ttl_ms / 2` is a test on numbers.
unfoldable pub new_mutex : Text → (ttl_ms interval_ms : ℕ) → Result ConfigError Mutex
new_mutex key ttl_ms interval_ms =
    if ttl_ms == 0
    then err ttl_not_positive
    else if interval_ms == 0
    then err interval_not_positive
    else if leb ttl_ms (2 * interval_ms)
    then err interval_too_long
    else ok
        (record { key = key; ttl_ms = ttl_ms; token = none; lost_event = none; heartbeat = none })

is_running : TaskState → Bool
is_running running = true
is_running _ = false

-- `_heartbeat_task_finished`
unfoldable pub heartbeat_task_finished : Option (Option TaskState) → Bool
unfolding is_running
heartbeat_task_finished none = false
heartbeat_task_finished (some none) = true
heartbeat_task_finished (some (some state)) = not (is_running state)

unfoldable pub lost_by : Option Bool → Option (Option TaskState) → Bool
unfolding heartbeat_task_finished
lost_by none heartbeat = false
lost_by (some true) heartbeat = true
lost_by (some false) heartbeat = heartbeat_task_finished heartbeat

-- The property `lost`, which `check_alive` raises on.
unfoldable pub lost : Mutex → Bool
unfolding lost_by
lost m = lost_by m.lost_event m.heartbeat

-- What can happen to a held mutex: the heartbeat wakes up and renews the lock, or meets a network error, or fails in
-- another way; the task manager prunes the task; the mutex is left; or the server changes by the work of others. To enter
-- the mutex again, which gives it a new event, is not one of these.
pub data Event (S : Type 0) : Type 0 where
  beats network_error crashes pruned leaves : Event S
  others : (S → S) → Event S

unfoldable pub set_lost : Mutex → Mutex
set_lost m = record m { lost_event = some true; heartbeat = some (some failed) }

unfoldable pub after_renewal : Mutex → Bool → Mutex
unfolding set_lost
after_renewal m true = m
after_renewal m false = set_lost m

-- Only a task that is not running is pruned.
unfoldable pub prune : Option (Option TaskState) → Option (Option TaskState)
unfolding is_running
prune none = none
prune (some none) = some none
prune (some (some state)) = if is_running state then some (some state) else some none

unfoldable pub is_beating : Mutex → Bool
unfolding is_running
is_beating m = elim m.heartbeat [
  | none ↦ false
  | some handle ↦ elim handle [ none ↦ false | some state ↦ is_running state ]
]

cancel : Option (Option TaskState) → Option (Option TaskState)
unfolding is_running
cancel none = none
cancel (some none) = some none
cancel (some (some state)) = if is_running state then some (some cancelled) else some (some state)

module _ {S : Type 0} (redis : Commands S) (prefix : Text) where
  -- `__aenter__`
  unfoldable pub enter : S → Mutex → (token : Text) → S × Result LockError Mutex
  enter s m token =
      let (after, result) = acquire redis prefix s m.key token m.ttl_ms in
      elim result [
        | err e ↦ (after, err e)
        | ok t ↦ (
          after,
          ok (record m {
            token = some t;
            lost_event = some false;
            heartbeat = some (some running);
          }),
        )
      ]

  renew_token : S → Mutex → Option Text → S × Mutex
  unfolding after_renewal
  renew_token s m none = (s, m)
  renew_token s m (some token) =
      let (after, renewed) = renew redis prefix s m.key token m.ttl_ms in
      (after, after_renewal m renewed)

  release_token : S → Mutex → Option Text → S
  release_token s m none = s
  release_token s m (some token) = (release redis prefix s m.key token).0

  -- `__aexit__`, where the server answers; an error of the release is swallowed, and the lock then expires.
  unfoldable pub exit : S → Mutex → S × Mutex
  unfolding cancel release_token
  exit s m = (release_token s m m.token, record m { heartbeat = cancel m.heartbeat })

  -- One event; the heartbeat's own need it to run.
  unfoldable pub step : S → Mutex → Event S → S × Mutex
  unfolding set_lost prune is_beating renew_token exit
  step s m beats = if is_beating m then renew_token s m m.token else (s, m)
  step s m network_error = if is_beating m then (s, set_lost m) else (s, m)
  step s m crashes =
      if is_beating m then (s, record m { heartbeat = some (some failed) }) else (s, m)
  step s m pruned = (s, record m { heartbeat = prune m.heartbeat })
  step s m leaves = exit s m
  step s m (others f) = (f s, m)

  unfoldable pub steps : S → Mutex → List (Event S) → S × Mutex
  unfolding step
  steps s m [] = (s, m)
  steps s m (e ∷ es) = let (after, held) = step s m e in steps after held es
