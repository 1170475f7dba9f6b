-- ===== src/Compaction/Engine.antt =====
-- `DefaultContextEngine.compact` of src/pyclaw/core/context_engine.py. How the summarizer ends, with its stages and its
-- guards or with the fallback, is an argument, and so are `str.lower`, the normalisation of texts, and the product of
-- the token budget and the threshold that an unforced compaction has. The messages have no details to be stripped.
pub mod Cuts
use pyclaw.Prelude.{
  ℕ, zero, suc, ◌+◌, ◌*◌, Text, codes, Bool, true, false, not, Option, none, some, List, [], ◌∷◌,
  ◌++◌, map, take, if◌then◌else◌, text_eq, decimal,
}
use pyclaw.Messages.{MessageRole, MessageContent, LlmMessage}
use pyclaw.Compaction.Planning.{estimate_messages_tokens, CompactionPlan, plan_compaction}
use pyclaw.Compaction.Chunks.{
  has_real_conversation, filter_oversized_messages, sanity_check_token_estimate,
}
use pyclaw.Compaction.Dedup.{Timed, dedupe_duplicate_user_messages}
use pyclaw.Runner.Compaction.{CompactResult}

-- How the summarizer ends.
pub data Summarized : Type 0 where
  summary : Text → Summarized
  timeout aborted : Summarized
  failed : (what : Text) → Summarized

pub record Settings : Type 0 where
  pub lower : Text → Text
  pub normalize : Text → Text
  pub window : ℕ
  pub min_chars : ℕ
  pub keep_recent_tokens : ℕ

refused : (reason reason_code : Text) → (tokens_before : ℕ) → CompactResult
refused reason reason_code tokens_before = record {
  ok = false;
  compacted = false;
  reason = some reason;
  reason_code = some reason_code;
  summary = none;
  tokens_before = tokens_before;
  tokens_after = none;
}

idle : (reason : Option Text) → (reason_code : Text) → (tokens_before : ℕ) → CompactResult
idle reason reason_code tokens_before = record {
  ok = true;
  compacted = false;
  reason = reason;
  reason_code = some reason_code;
  summary = none;
  tokens_before = tokens_before;
  tokens_after = none;
}

-- The code of a plan that does not compact.
idle_code : Option Text → Text
idle_code none = codes "no_compactable_entries"
idle_code (some reason) =
    if text_eq reason (codes "within-budget")
    then codes "below_threshold"
    else codes "no_compactable_entries"

summary_only : Text → List LlmMessage
summary_only text =
    record {
      role = MessageRole.assistant;
      content = MessageContent.plain text;
      tool_calls = [];
      tool_call_id = none;
    }
    ∷ []

finished : CompactionPlan → (cut : ℕ) → Summarized → CompactResult
unfolding refused summary_only
finished plan cut timeout =
    refused (codes "summarizer timeout") (codes "timeout") plan.estimated_tokens
finished plan cut aborted = refused (codes "aborted") (codes "aborted") plan.estimated_tokens
finished plan cut (failed what) =
    refused (codes "summary failed: " ++ what) (codes "summary_failed") plan.estimated_tokens
finished plan cut (summary text) = record {
  ok = true;
  compacted = true;
  reason = some (codes "compacted-at-" ++ decimal cut);
  reason_code = some (codes "compacted");
  summary = some text;
  tokens_before = plan.estimated_tokens;
  tokens_after =
      sanity_check_token_estimate plan.estimated_tokens
        (some (plan.kept_tokens + estimate_messages_tokens (summary_only text)));
}

-- filter_oversized_messages(to_summarize, context_window=token_budget), with int(token_budget * 0.5 * 4)
unfoldable pub filtered : (token_budget : ℕ) → List LlmMessage → List LlmMessage
filtered zero messages = messages
filtered (suc b) messages = filter_oversized_messages (2 * suc b) messages

unfoldable pub carry_out :
    (summarize : List LlmMessage → Summarized)
    → (token_budget : ℕ) → List LlmMessage
    → CompactionPlan
    → Option ℕ
    → CompactResult
unfolding finished idle idle_code filtered
carry_out summarize token_budget deduped plan none =
    idle plan.reason (idle_code plan.reason) plan.estimated_tokens
carry_out summarize token_budget deduped plan (some cut) =
    if not plan.should_compact
    then idle plan.reason (idle_code plan.reason) plan.estimated_tokens
    else finished plan cut (summarize (filtered token_budget (take cut deduped)))

unfoldable pub dedup : Settings → List Timed → List LlmMessage
dedup s messages =
    map (λ (m : Timed). m.message)
      (dedupe_duplicate_user_messages s.normalize s.window s.min_chars messages)

-- `threshold_budget` is int(token_budget * threshold); a forced compaction has the threshold 1.
unfoldable pub compact :
    Settings
    → (summarize : List LlmMessage → Summarized) → (abort_set : Bool)
    → (threshold_budget token_budget : ℕ) → (force : Bool) → List Timed
    → CompactResult
unfolding refused idle carry_out dedup
compact s summarize abort_set threshold_budget token_budget force messages =
    let budget = if force then token_budget else threshold_budget in
    let deduped = dedup s messages in
    let plan = plan_compaction budget s.keep_recent_tokens deduped in
    if abort_set
    then refused (codes "aborted") (codes "aborted") 0
    else (if not (has_real_conversation s.lower (map (λ (m : Timed). m.message) messages))
        then idle (some (codes "no real conversation")) (codes "no_compactable_entries") 0
        else carry_out summarize token_budget deduped plan plan.cut_index)
