-- ===== src/Compaction/Examples.antt =====
-- A conversation of four messages, with small limits.
use pyclaw.Prelude.{
  Text, codes, ◌≡◌, refl, none, some, List, [], ◌∷◌, All, map, false, true, none, select, length,
}
use pyclaw.Tools.Types.{absent}
use pyclaw.Messages.{MessageRole, MessageContent, LlmMessage}
use pyclaw.Compaction.Engine.{Summarized, summary, Settings, dedup, compact}
use pyclaw.Compaction.Engine.Cuts.{IsCompaction, compact-IsCompaction}
use pyclaw.Compaction.Planning.{
  estimate_tokens, estimate_message_tokens, estimate_messages_tokens, is_tool_at, skip_tools,
  adjust_for_tool_boundaries, find_cut_point, plan_compaction,
}
use pyclaw.Compaction.Planning.Plan.{IsPlan, plan_compaction-IsPlan}
use pyclaw.Compaction.Dedup.{Timed, is_exempt, dedupe_duplicate_user_messages}
use pyclaw.Compaction.Dedup.Kept.{IsKept, dedupe_duplicate_user_messages-IsCovered}
use pyclaw.Compaction.Chunks.{split_into_chunks}

abbrev says : MessageRole → Text → LlmMessage
says role t = record {
  role = role;
  content = MessageContent.plain t;
  tool_calls = [];
  tool_call_id = none;
}

-- The same question twice, a second apart.
abbrev asked : List Timed
asked =
    record { message = says MessageRole.user (codes "list the files"); timestamp = some 100 }
    ∷ record { message = says MessageRole.user (codes "list the files"); timestamp = some 101 }
    ∷ []

abbrev conversation : List LlmMessage
conversation =
    says MessageRole.user (codes "list the files")
    ∷ record {
      role = MessageRole.assistant;
      content = MessageContent.nothing;
      tool_calls = record { id = codes "c"; name = codes "bash"; arguments = absent } ∷ [];
      tool_call_id = none;
    }
    ∷ says MessageRole.tool (codes "a.txt b.txt")
    ∷ says MessageRole.assistant (codes "two files")
    ∷ []

program : Unit {0}
unfolding estimate_tokens estimate_message_tokens estimate_messages_tokens is_tool_at skip_tools
    adjust_for_tool_boundaries find_cut_point plan_compaction split_into_chunks
program = tt

-- With 15 tokens to keep, the cut goes back over the tool message to the call.
cut_at_call : find_cut_point 15 conversation ≡ some 1
unfolding program
cut_at_call = refl

plan_compaction-IsPlan_example : IsPlan 30 15 conversation (plan_compaction 30 15 conversation)
plan_compaction-IsPlan_example = plan_compaction-IsPlan 30 15 conversation

two_chunks : length (split_into_chunks 20 conversation) ≡ 2
unfolding program
two_chunks = refl

dedupe_duplicate_user_messages-IsCovered_example :
    (select
        (λ (m : Timed). is_exempt (λ t. t) 10 m.message)
        (dedupe_duplicate_user_messages (λ t. t) 60 10 asked)
      ≡ select (λ (m : Timed). is_exempt (λ t. t) 10 m.message) asked)
    × All (IsKept (λ t. t) 60 10 (dedupe_duplicate_user_messages (λ t. t) 60 10 asked)) asked
dedupe_duplicate_user_messages-IsCovered_example =
    dedupe_duplicate_user_messages-IsCovered (λ t. t) 60 10 asked

abbrev settings : Settings
settings = record {
  lower = λ t. t;
  normalize = λ t. t;
  window = 60;
  min_chars = 24;
  keep_recent_tokens = 15;
}

abbrev summarize : List LlmMessage → Summarized
summarize messages = summary (codes "files were listed")

abbrev timed : List Timed
timed = map (λ (m : LlmMessage). record { message = m; timestamp = none }) conversation

compact-IsCompaction_example :
    IsCompaction summarize 30 15 30
      (dedup settings timed)
      (compact settings summarize false 24 30 true timed)
compact-IsCompaction_example = compact-IsCompaction settings summarize false 24 30 true timed
