-- ===== src/Storage/Examples.antt =====
-- A lock and a session's owner in a server that keeps its keys in memory.
use pyclaw.Prelude.{
  some, false, ℕ, Text, codes, ◌≡◌, ◌≢◌, refl, true, none, List, [], ◌∷◌, err, text_key, arith,
}
use pyclaw.Prelude.Dict
use pyclaw.Prelude.Dict.{Dict}
use pyclaw.Storage.Redis.Memory.{memory, memory-IsRedis}
use pyclaw.Storage.Lock.{not_acquired, full_key, acquire, release}
use pyclaw.Storage.Lock.Exclusion.{Action, acquires, acts, acquire-excludes}
use pyclaw.Storage.Mutex.{
  running, failed, Mutex, heartbeat_task_finished, lost_by, lost, beats, pruned, steps,
}
use pyclaw.Storage.Mutex.FailSafe.{steps-lost}
use pyclaw.Storage.Router.{Worker, route}
use pyclaw.Storage.Router.Ownership.{IsRouted, route-IsRouted}

abbrev locked : Dict Text Text
locked = (codes "pyclaw:job", codes "t1") ∷ []

abbrev rivals : List Action
rivals = acquires (codes "job") (codes "t2") ∷ []

rival_token : (a b : ℕ) → a ∷ 50 ∷ [] ≢ b ∷ 49 ∷ []
rival_token a b h = ground (arith, h)

acquire-excludes_example :
    ((t : Text)
      → (acquire memory
          (codes "pyclaw:")
          (acts memory memory-IsRedis (codes "pyclaw:") locked rivals)
          (codes "job")
          t
          30000).1
        ≡ err (not_acquired (full_key (codes "pyclaw:") (codes "job"))))
    × ((release memory
          (codes "pyclaw:")
          (acts memory memory-IsRedis (codes "pyclaw:") locked rivals)
          (codes "job")
          (codes "t1")).1
        ≡ true)
    × (memory.get
          (release memory
            (codes "pyclaw:")
            (acts memory memory-IsRedis (codes "pyclaw:") locked rivals)
            (codes "job")
            (codes "t1")).0
          (full_key (codes "pyclaw:") (codes "job"))
        ≡ none)
unfolding acquire full_key Dict.has Dict.put
acquire-excludes_example =
    acquire-excludes memory memory-IsRedis (codes "pyclaw:") [] (codes "job") (codes "t1") 30000
      rivals {after = locked} refl (rival_token 116 116, tt)

abbrev worker : Worker
worker = record { worker_id = codes "w1"; key_prefix = codes "pyclaw:"; ttl_seconds = 300 }

abbrev owned : Dict Text Text
owned = (codes "pyclaw:affinity:u", codes "w2") ∷ []

route-IsRouted_example :
    IsRouted memory memory-IsRedis worker
      (λ o. true)
      owned
      (codes "u")
      (route memory worker (λ i s. s) (λ o. true) owned (codes "u"))
route-IsRouted_example = route-IsRouted memory memory-IsRedis worker (λ o. true) owned (codes "u")

-- Another worker takes the session before this one can.
abbrev taken : ℕ → Dict Text Text → Dict Text Text
taken i s = owned

abbrev held_mutex : Mutex
held_mutex = record {
  key = codes "job";
  ttl_ms = 30000;
  token = some (codes "t1");
  lost_event = some false;
  heartbeat = some (some running);
}

abbrev failed_mutex : Mutex
failed_mutex = record held_mutex { heartbeat = some (some failed) }

-- The lock of another worker.
abbrev taken_over : Dict Text Text
taken_over = (codes "pyclaw:job", codes "t2") ∷ []

steps-lost_example :
    lost (steps memory (codes "pyclaw:") locked failed_mutex (pruned ∷ beats ∷ [])).1 ≡ true
unfolding lost lost_by heartbeat_task_finished
steps-lost_example =
    steps-lost memory (codes "pyclaw:") locked failed_mutex (pruned ∷ beats ∷ []) refl
