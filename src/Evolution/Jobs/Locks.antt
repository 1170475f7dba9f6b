-- ===== src/Evolution/Jobs/Locks.antt =====
-- The lock of an extraction.
use pyclaw.Prelude.{Text, codes, Bool, true, false, Option, none, some, ◌≡◌, refl}
use pyclaw.Storage.Redis.{IsRedis}
use pyclaw.Evolution.Segments.{is_empty}
use pyclaw.Evolution.Extraction.{
  SkipReason, ExtractionError, Extracting, candidates_key, extract_sop_background, lock_held,
}
use pyclaw.Evolution.Jobs.{
  Job, lock_key, take_lock, extract_and_release, refused, extract_locked, extract_sops_sync,
  not_spawned, Refusal, first_refusal, after_refusal, is_below,
}

-- The end of a job, by what the lock was before it: a lock that is held stays and keeps the job from the memory, a free
-- one is free again.
abbrev pub IsReleased : {S M : Type 0} → Job S M → Text → M → Option Text → Extracting S M → Type 0
IsReleased job session_id memory none x = job.env.redis.get x.server (lock_key session_id) ≡ none
IsReleased job session_id memory (some w) x =
    (job.env.redis.get x.server (lock_key session_id) ≡ some w)
    × (x.memory ≡ memory)
    × (x.result.spawned ≡ false)

module _ {S M : Type 0} (job : Job S M) (session_id : Text) (laws : IsRedis job.env.redis)
    (releases : job.release_fails ≡ false) (memory : M) where
  abbrev Released : S → Extracting S M → Type 0
  Released server x =
      IsReleased job session_id memory (job.env.redis.get server (lock_key session_id)) x

  refused-Released :
      (o : Option Text) (server : S) (reason : SkipReason) (error : Option ExtractionError)
      → job.env.redis.get server (lock_key session_id) ≡ o
      → IsReleased job session_id memory o (refused job session_id server memory reason error)
  unfolding refused not_spawned
  refused-Released none server reason error e = e
  refused-Released (some w) server reason error e = (e, refl, refl)

  extract_and_release-frees :
      (server : S)
      → job.env.redis.get
          (extract_and_release job session_id server memory).server
          (lock_key session_id)
        ≡ none
  unfolding extract_and_release
  extract_and_release-frees server = rw releases (
      laws.get-del (extract_sop_background job.env job.settings session_id server memory).server
        (lock_key session_id))

  granted-Released :
      (a : S × Bool)
      → a.1 ≡ true
      → IsReleased job session_id memory none (extract_locked job session_id memory a)
  unfolding extract_locked
  granted-Released (s, true) h = extract_and_release-frees s
  granted-Released (s, false) h = cc

  denied-Released :
      (w : Text) (a : S × Bool)
      → (job.env.redis.get a.0 (lock_key session_id) ≡ some w) × (a.1 ≡ false)
      → IsReleased job session_id memory (some w) (extract_locked job session_id memory a)
  unfolding extract_locked
  denied-Released w (s, true) h = cc
  denied-Released w (s, false) h = refused-Released (some w) s lock_held none h.0

  locked-Released :
      (o : Option Text) (server : S)
      → job.env.redis.get server (lock_key session_id) ≡ o
      → IsReleased job session_id memory o
          (extract_locked job session_id memory (take_lock job session_id server))
  unfolding take_lock
  locked-Released none server e =
      granted-Released (job.env.redis.set_nx server (lock_key session_id) (codes "1") 600)
        (laws.set_nx-absent server (lock_key session_id) (codes "1") 600 e).1
  locked-Released (some w) server e =
      denied-Released w (job.env.redis.set_nx server (lock_key session_id) (codes "1") 600)
        (laws.set_nx-present server (lock_key session_id) (codes "1") 600 e)

  refusal-Released :
      (server : S) (o : Option Refusal)
      → Released server (after_refusal job session_id server memory o)
  unfolding after_refusal
  refusal-Released server (some (reason, error)) =
      refused-Released (job.env.redis.get server (lock_key session_id)) server reason error refl
  refusal-Released server none =
      locked-Released (job.env.redis.get server (lock_key session_id)) server refl

-- With a server that behaves as documented and a release that does not fail: while another extraction of the session holds
-- the lock, a job changes neither the memory nor the lock and reports that it did not run; otherwise the lock is free
-- after the job, on every exit.
pub extract_sops_sync-IsReleased :
    {S M : Type 0} (job : Job S M) (session_id : Text)
    → IsRedis job.env.redis
    → job.release_fails ≡ false
    → (server : S) (memory : M)
    → IsReleased job session_id memory
        (job.env.redis.get server (lock_key session_id))
        (extract_sops_sync job session_id server memory)
unfolding extract_sops_sync
extract_sops_sync-IsReleased job session_id laws releases server memory =
    let entries = job.env.hgetall server (candidates_key session_id) in
    refusal-Released job session_id laws releases memory server (
      first_refusal job.settings.enabled job.hgetall_fails (is_empty entries)
        (is_below job session_id entries) job.lock_fails)
