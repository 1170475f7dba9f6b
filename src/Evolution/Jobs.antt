-- ===== src/Evolution/Jobs.antt =====
-- `extract_sops_sync`, `maybe_spawn_extraction` and `_extract_then_reset` of src/pyclaw/core/sop_extraction.py: an extraction
-- runs under a lock on the server. The counter of the nudge hook is left out.
pub mod Locks
pub mod Alike
use mathlib.Core.Option
use pyclaw.Prelude.{
  ℕ, zero, suc, ◌+◌, Text, codes, Bool, true, false, ◌&&◌, ◌||◌, not, Option, none, some, List, [],
  ◌∷◌, ◌++◌, length, if◌then◌else◌, ltb, leb, ◌==◌, decimal,
}
use pyclaw.Prelude.Dict
use pyclaw.Prelude.Dict.{Dict}
use pyclaw.Evolution.Segments.{join, is_empty}
use pyclaw.Evolution.Extraction.{
  SkipReason, disabled, no_candidates, below_threshold, lock_held, session_not_found, no_segments,
  redis_error, ExtractionError, hgetall_failed, redis_read_failed, session_load_failed,
  lock_acquire_failed, ExtractionResult, new_result, Surroundings, EvolutionSettings, Extracting,
  candidates_key, extract_sop_background,
}

unfoldable pub lock_key : Text → Text
lock_key session_id = codes "pyclaw:sop_extracting:" ++ session_id

unfoldable pub ratelimit_key : Text → Text
ratelimit_key session_key = codes "pyclaw:sop_ratelimit:" ++ session_key

-- What stands around a job. `tool_names` is the length of the list `tool_names` in the text of a candidate, none where
-- there is none; the Booleans say which calls raise.
pub record Job (S M : Type 0) : Type 0 where
  pub env : Surroundings S M
  pub settings : EvolutionSettings
  pub min_tool_calls : Option ℕ
  pub tool_names : Text → Option ℕ
  pub hgetall_fails : Bool
  pub lock_fails : Bool
  pub spawn_fails : Bool
  pub release_fails : Bool

-- Why no extraction starts, and what happened.
unfoldable pub not_spawned : SkipReason → Option ExtractionError → ExtractionResult
unfolding new_result
not_spawned reason error = record (new_result false) { skip_reason = some reason; error = error }

abbrev pub Refusal : Type 0
Refusal = SkipReason × Option ExtractionError

-- The early returns of `extract_sops_sync` before the lock is taken, in their order.
unfoldable pub first_refusal :
    (enabled hgetall_fails no_entries below lock_fails : Bool) → Option Refusal
first_refusal enabled hgetall_fails no_entries below lock_fails =
    if not enabled
    then some (disabled, none)
    else if hgetall_fails
    then some (redis_error, some hgetall_failed)
    else if no_entries
    then some (no_candidates, none)
    else if below
    then some (below_threshold, none)
    else if lock_fails
    then some (redis_error, some lock_acquire_failed)
    else none

module _ {S M : Type 0} (job : Job S M) (session_id : Text) where
  unfoldable pub threshold : ℕ
  threshold = elim job.min_tool_calls [
    | none ↦ job.settings.min_tool_calls_for_extraction
    | some n ↦ n
  ]

  unfoldable pub count_of : Option ℕ → ℕ
  count_of none = 1
  count_of (some n) = n

  unfoldable pub total_tool_calls : Dict Text Text → ℕ
  unfolding count_of
  total_tool_calls [] = 0
  total_tool_calls ((turn_id, value) ∷ entries) =
      count_of (job.tool_names value) + total_tool_calls entries

  -- SET lock_key "1" EX 600 NX
  unfoldable pub take_lock : S → S × Bool
  unfolding lock_key
  take_lock server = job.env.redis.set_nx server (lock_key session_id) (codes "1") 600

  unfoldable pub free_lock : S → S
  unfolding lock_key
  free_lock server =
      if job.release_fails then server else (job.env.redis.del server (lock_key session_id)).0

  -- `_extract_then_reset`, the task: the extraction, and the `finally` after it.
  unfoldable pub extract_then_reset : S → M → Extracting S M
  unfolding free_lock
  extract_then_reset server memory =
      let x = extract_sop_background job.env job.settings session_id server memory in
      record x { server = free_lock x.server }

  -- The `try` of `extract_sops_sync`, with its own `finally`.
  unfoldable pub extract_and_release : S → M → Extracting S M
  unfolding lock_key
  extract_and_release server memory =
      let x = extract_sop_background job.env job.settings session_id server memory in
      if job.release_fails
      then x
      else record x { server = (job.env.redis.del x.server (lock_key session_id)).0 }

  unfoldable pub refused : S → M → SkipReason → Option ExtractionError → Extracting S M
  unfolding not_spawned
  refused server memory reason error = record {
    server = server;
    memory = memory;
    result = not_spawned reason error;
  }

  unfoldable pub extract_locked : M → S × Bool → Extracting S M
  unfolding extract_and_release refused
  extract_locked memory (server, true) = extract_and_release server memory
  extract_locked memory (server, false) = refused server memory lock_held none

  unfoldable pub is_below : Dict Text Text → Bool
  unfolding threshold total_tool_calls
  is_below entries = ltb (total_tool_calls entries) threshold

  unfoldable pub after_refusal : S → M → Option Refusal → Extracting S M
  unfolding extract_locked refused take_lock
  after_refusal server memory (some (reason, error)) = refused server memory reason error
  after_refusal server memory none = extract_locked memory (take_lock server)

  unfoldable pub extract_sops_sync : S → M → Extracting S M
  unfolding after_refusal is_below is_empty first_refusal
  extract_sops_sync server memory =
      let entries = job.env.hgetall server (candidates_key session_id) in
      after_refusal server memory (
        first_refusal job.settings.enabled job.hgetall_fails (is_empty entries) (is_below entries)
          job.lock_fails)

  -- The loop of `maybe_spawn_extraction` over the candidates, with the total so far.
  unfoldable pub spawn_total : ℕ → Dict Text Text → ℕ
  spawn_total total [] = total
  spawn_total total ((turn_id, value) ∷ entries) =
      spawn_total (total + elim (job.tool_names value) [ none ↦ 1 | some n ↦ n ]) entries

  unfoldable pub spawn_is_below : Dict Text Text → Bool
  unfolding spawn_total
  spawn_is_below entries =
      ltb (spawn_total 0 entries)
        (elim job.min_tool_calls [ none ↦ job.settings.min_tool_calls_for_extraction | some n ↦ n ])

  -- A task that is not spawned frees the lock.
  unfoldable pub spawn_locked : S × Bool → S × Bool
  unfolding free_lock
  spawn_locked (server, true) =
      if job.spawn_fails then (free_lock server, false) else (server, true)
  spawn_locked (server, false) = (server, false)

  -- Whether a task was spawned, which then runs `extract_then_reset`.
  unfoldable pub maybe_spawn_extraction : S → S × Bool
  unfolding spawn_locked spawn_is_below lock_key
  maybe_spawn_extraction server =
      let entries = job.env.hgetall server (candidates_key session_id) in
      if not job.settings.enabled || job.hgetall_fails || spawn_is_below entries || job.lock_fails
      then (server, false)
      else spawn_locked (job.env.redis.set_nx server (lock_key session_id) (codes "1") 600)

-- `_check_user_ratelimit`: whether the user may start an extraction; an error of the server allows it.
unfoldable pub check_user_ratelimit :
    {S M : Type 0} → Surroundings S M → (fails : Bool) → S → Text → S × Bool
unfolding ratelimit_key
check_user_ratelimit env fails server session_key =
    if fails
    then (server, true)
    else env.redis.set_nx server (ratelimit_key session_key) (codes "1") 60

-- The two parts in brackets, where there is one.
unfoldable pub extras_text : List Text → Text
unfolding join
extras_text [] = []
extras_text (t ∷ ts) = codes "（" ++ join (codes "，") (t ∷ ts) ++ codes "）"

unfoldable pub counted_text : ℕ → Text → List Text
counted_text zero t = []
counted_text (suc n) t = (decimal (suc n) ++ t) ∷ []

-- The sign with its variation selector.
abbrev pub warning_sign : Text
warning_sign = codes "⚠" ++ 0xfe0f ∷ []

unfoldable pub skip_text : SkipReason → Text
skip_text disabled = warning_sign ++ codes " 自我进化功能未启用。"
skip_text no_candidates = codes "💡 当前会话还没有 tool 调用。先让 bot 执行一些实际操作（bash/read/write 等），再试 /extract。"
skip_text below_threshold = codes "💡 当前会话工作量不足，再多用几次工具后再试。"
skip_text lock_held = codes "⏳ 已有学习任务在进行中，请稍后再试。"
skip_text session_not_found = warning_sign ++ codes " 找不到当前会话，请确认是否已切换。"
skip_text no_segments = warning_sign ++ codes " 候选数据已被压缩清理，本次无法提取。"
skip_text redis_error = warning_sign ++ codes " 存储服务暂时不可用，请稍后再试。"

unfoldable pub error_name : ExtractionError → Text
error_name redis_read_failed = codes "redis_read_failed"
error_name session_load_failed = codes "session_load_failed"
error_name hgetall_failed = codes "hgetall_failed"
error_name lock_acquire_failed = codes "lock_acquire_failed"

unfoldable pub counts_text : ExtractionResult → Text
unfolding extras_text counted_text
counts_text r =
    if r.llm_returned_count == 0
    then codes "🤔 本次会话的工作模式不够通用，没有学到新 SOP。"
    else if ltb 0 r.written
    then codes "✅ 学到 "
      ++ decimal r.written
      ++ codes " 条新 SOP！"
      ++ extras_text (
          counted_text r.skipped_duplicate (codes " 条已存在")
          ++ counted_text r.skipped_invalid (codes " 条未通过质量检查"))
    else if ltb 0 r.skipped_duplicate && r.skipped_invalid == 0
    then codes "💡 识别出 " ++ decimal r.skipped_duplicate ++ codes " 个模式，但都已学习过。"
    else if ltb 0 r.skipped_invalid && r.skipped_duplicate == 0
    then warning_sign ++ codes " 识别出 " ++ decimal r.skipped_invalid ++ codes " 个候选模式，但都未通过质量检查。"
    else codes "💡 识别出 "
      ++ decimal r.llm_returned_count
      ++ codes " 个候选模式："
      ++ decimal r.skipped_duplicate
      ++ codes " 条已存在，"
      ++ decimal r.skipped_invalid
      ++ codes " 条未通过检查。"

unfoldable pub error_text : Option ExtractionError → ExtractionResult → Text
unfolding error_name counts_text
error_text (some e) r = warning_sign ++ codes " 学习过程出错（" ++ error_name e ++ codes "），请查看后台日志。"
error_text none r = counts_text r

unfoldable pub format_extraction_result_zh : ExtractionResult → Text
unfolding skip_text error_text
format_extraction_result_zh r = elim r.skip_reason [
  | some reason ↦ skip_text reason
  | none ↦ error_text r.error r
]
