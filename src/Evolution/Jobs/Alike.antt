-- ===== src/Evolution/Jobs/Alike.antt =====
-- The two ways to start an extraction in src/pyclaw/core/sop_extraction.py.
use pyclaw.Prelude.{
  Text, Bool, true, false, not, ◌||◌, Option, none, some, ◌≡◌, refl, ◌∙◌, ap, if◌then◌else◌, sym, ℕ,
  ◌+◌, ltb, arith, [], ◌∷◌,
}
use pyclaw.Prelude.Dict.{Dict}
use pyclaw.Evolution.Segments.{is_empty}
use pyclaw.Evolution.Extraction.{Extracting, candidates_key, extract_sop_background}
use pyclaw.Evolution.Jobs.{
  Job, lock_key, take_lock, free_lock, extract_then_reset, extract_and_release, refused,
  extract_locked, extract_sops_sync, spawn_locked, maybe_spawn_extraction, first_refusal,
  after_refusal, is_below, threshold, count_of, total_tool_calls, spawn_total, spawn_is_below,
}

-- The server and the memory.
abbrev pub state_of : {S M : Type 0} → Extracting S M → S × M
state_of x = (x.server, x.memory)

-- A task that was spawned runs, and no task runs otherwise.
abbrev pub spawned_run : {S M : Type 0} → Job S M → Text → M → S × Bool → S × M
spawned_run job session_id memory (server, true) =
    state_of (extract_then_reset job session_id server memory)
spawned_run job session_id memory (server, false) = (server, memory)

state_of-released :
    {S M : Type 0} (fails : Bool) (x : Extracting S M) (freed : S)
    → state_of (if fails then x else record x { server = freed })
      ≡ (if fails then x.server else freed, x.memory)
state_of-released true x freed = refl
state_of-released false x freed = refl

-- The two ways to release the lock leave the same.
extract_and_release-extract_then_reset :
    {S M : Type 0} (job : Job S M) (session_id : Text) (server : S) (memory : M)
    → state_of (extract_and_release job session_id server memory)
      ≡ state_of (extract_then_reset job session_id server memory)
unfolding extract_and_release extract_then_reset free_lock
extract_and_release-extract_then_reset job session_id server memory =
    let x = extract_sop_background job.env job.settings session_id server memory in
    state_of-released job.release_fails x (job.env.redis.del x.server (lock_key session_id)).0

counted :
    {S M : Type 0} (job : Job S M) (session_id : Text) (o : Option ℕ)
    → elim o [ none ↦ 1 | some n ↦ n ] ≡ count_of job session_id o
unfolding count_of
counted job session_id none = refl
counted job session_id (some n) = refl

spawn_total-total_tool_calls :
    {S M : Type 0} (job : Job S M) (session_id : Text) (n : ℕ) (entries : Dict Text Text)
    → spawn_total job session_id n entries ≡ n + total_tool_calls job session_id entries
unfolding spawn_total total_tool_calls count_of
spawn_total-total_tool_calls job session_id n [] = omega arith
spawn_total-total_tool_calls job session_id n ((turn_id, value) ∷ entries) =
    let count = count_of job session_id (job.tool_names value) in
    ap (λ k. spawn_total job session_id (n + k) entries)
      (counted job session_id (job.tool_names value))
    ∙ spawn_total-total_tool_calls job session_id (n + count) entries
    ∙ omega arith

-- The two count the candidates alike.
spawn_is_below-is_below :
    {S M : Type 0} (job : Job S M) (session_id : Text) (entries : Dict Text Text)
    → spawn_is_below job session_id entries ≡ is_below job session_id entries
unfolding spawn_is_below is_below threshold
spawn_is_below-is_below job session_id entries =
    let total : spawn_total job session_id 0 entries ≡ total_tool_calls job session_id entries =
      spawn_total-total_tool_calls job session_id 0 entries ∙ omega arith in
    ap
      (λ n. ltb n (elim job.min_tool_calls [
        | none ↦ job.settings.min_tool_calls_for_extraction
        | some m ↦ m
      ]))
      total

locked-spawned :
    {S M : Type 0} (job : Job S M) (session_id : Text) (memory : M) (a : S × Bool)
    → job.spawn_fails ≡ false
    → state_of (extract_locked job session_id memory a)
      ≡ spawned_run job session_id memory (spawn_locked job session_id a)
unfolding extract_locked spawn_locked refused
locked-spawned job session_id memory (server, true) h =
    extract_and_release-extract_then_reset job session_id server memory
    ∙ ap
        (λ b.
          spawned_run job session_id memory
            (if b then (free_lock job session_id server, false) else (server, true)))
        (sym h)
locked-spawned job session_id memory (server, false) h = refl

refusal-spawned :
    {S M : Type 0} (job : Job S M) (session_id : Text) (server : S) (memory : M)
    (enabled hgetall_fails below lock_fails : Bool)
    → job.spawn_fails ≡ false
    → state_of (
        after_refusal job session_id server memory
          (first_refusal enabled hgetall_fails false below lock_fails))
      ≡ spawned_run job session_id memory (
          if not enabled || hgetall_fails || below || lock_fails
          then (server, false)
          else spawn_locked job session_id (take_lock job session_id server))
unfolding after_refusal first_refusal refused
refusal-spawned job session_id server memory false h b l spawns = refl
refusal-spawned job session_id server memory true true b l spawns = refl
refusal-spawned job session_id server memory true false true l spawns = refl
refusal-spawned job session_id server memory true false false true spawns = refl
refusal-spawned job session_id server memory true false false false spawns =
    locked-spawned job session_id memory (take_lock job session_id server) spawns

-- Where there are candidates and a task can be spawned, the job that the user waits for and the job in the background, once
-- its task has run, change the server and the memory in the same way.
pub extract_sops_sync-maybe_spawn_extraction :
    {S M : Type 0} (job : Job S M) (session_id : Text) (server : S) (memory : M)
    → job.spawn_fails ≡ false
    → is_empty (job.env.hgetall server (candidates_key session_id)) ≡ false
    → state_of (extract_sops_sync job session_id server memory)
      ≡ spawned_run job session_id memory (maybe_spawn_extraction job session_id server)
unfolding extract_sops_sync maybe_spawn_extraction refused take_lock
extract_sops_sync-maybe_spawn_extraction job session_id server memory spawns filled =
    let below = is_below job session_id (job.env.hgetall server (candidates_key session_id)) in
    ap
      (λ b. state_of (
        after_refusal job session_id server memory
          (first_refusal job.settings.enabled job.hgetall_fails b below job.lock_fails)))
      filled
    ∙ refusal-spawned job session_id server memory job.settings.enabled job.hgetall_fails below
        job.lock_fails spawns
    ∙ ap
        (λ b. spawned_run job session_id memory (
          if not job.settings.enabled || job.hgetall_fails || b || job.lock_fails
          then (server, false)
          else spawn_locked job session_id (take_lock job session_id server)))
        (sym (
          spawn_is_below-is_below job session_id
            (job.env.hgetall server (candidates_key session_id))))
