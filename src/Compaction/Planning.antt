-- ===== src/Compaction/Planning.antt =====
-- src/pyclaw/core/agent/compaction/planning.py: token estimates and the plan where to cut. The product of
-- the context window and the threshold, a float that `int` cuts to a number, is the argument `budget`.
pub mod Cut
pub mod Plan
use pyclaw.Prelude.{
  ℕ, zero, suc, ◌+◌, ◌/◌, Text, codes, Bool, true, false, Option, none, some, List, [], ◌∷◌, length,
  get_elem?, drop, if◌then◌else◌, leb, ltb,
}
use pyclaw.Tools.Types.{Arguments, raw, fields, absent, Call}
use pyclaw.Messages.{MessageRole, system, user, assistant, tool, Part, MessageContent, LlmMessage}

-- max(1, len(text) // 4), and 0 for an empty text
unfoldable pub estimate_tokens : Text → ℕ
estimate_tokens [] = 0
estimate_tokens (c ∷ s) = let n = length (c ∷ s) / 4 in if leb n 1 then 1 else n

abbrev pub image_token_estimate : ℕ
image_token_estimate = 1600

unfoldable pub part_tokens : List Part → ℕ
unfolding estimate_tokens
part_tokens [] = 0
part_tokens (Part.text t ∷ ps) = estimate_tokens t + part_tokens ps
part_tokens (Part.image u ∷ ps) = image_token_estimate + part_tokens ps
part_tokens (Part.other_type t ∷ ps) = estimate_tokens t + part_tokens ps

content_tokens : MessageContent → ℕ
unfolding estimate_tokens part_tokens
content_tokens (MessageContent.plain t) = estimate_tokens t
content_tokens (MessageContent.parts ps) = part_tokens ps
content_tokens MessageContent.nothing = 0

call_tokens : Text → Arguments → ℕ
unfolding estimate_tokens
call_tokens name (raw t) = estimate_tokens name + estimate_tokens t
call_tokens name (fields printed) = estimate_tokens name + estimate_tokens printed
call_tokens name absent = 0

calls_tokens : List Call → ℕ
unfolding call_tokens
calls_tokens [] = 0
calls_tokens (c ∷ cs) = call_tokens c.name c.arguments + calls_tokens cs

unfoldable pub estimate_message_tokens : LlmMessage → ℕ
unfolding content_tokens calls_tokens
estimate_message_tokens msg = 8 + content_tokens msg.content + calls_tokens msg.tool_calls

unfoldable pub estimate_messages_tokens : List LlmMessage → ℕ
estimate_messages_tokens [] = 0
estimate_messages_tokens (m ∷ ms) = estimate_message_tokens m + estimate_messages_tokens ms

unfoldable pub should_compact : (budget : ℕ) → List LlmMessage → Bool
should_compact budget messages = ltb budget (estimate_messages_tokens messages)

-- The tokens of messages[i]; the loops below stay inside the list.
unfoldable pub tokens_at : List LlmMessage → ℕ → ℕ
tokens_at messages i = elim (get_elem? messages i) [ none ↦ 0 | some m ↦ estimate_message_tokens m ]

is_tool : MessageRole → Bool
is_tool tool = true
is_tool _ = false

-- messages[i].get("role") == "tool"
unfoldable pub is_tool_at : List LlmMessage → ℕ → Bool
unfolding is_tool
is_tool_at messages i = elim (get_elem? messages i) [ none ↦ false | some m ↦ is_tool m.role ]

makes_calls : MessageRole → List Call → Bool
makes_calls assistant (c ∷ cs) = true
makes_calls _ _ = false

-- prev.get("role") == "assistant" and prev.get("tool_calls")
unfoldable pub makes_calls_at : List LlmMessage → ℕ → Bool
unfolding makes_calls
makes_calls_at messages i = elim (get_elem? messages i) [
  | none ↦ false
  | some m ↦ makes_calls m.role m.tool_calls
]

-- The loop of `find_cut_point`, over the indices below its second argument, the last one first.
unfoldable pub cut_loop :
    List LlmMessage → (keep_recent_tokens : ℕ) → ℕ → (accumulated : ℕ) → Option ℕ
unfolding tokens_at
cut_loop messages keep zero accumulated = none
cut_loop messages keep (suc i) accumulated =
    let more = accumulated + tokens_at messages i in
    let rest = cut_loop messages keep i more in if leb keep more then some i else rest

-- The first loop of `_adjust_for_tool_boundaries`.
unfoldable pub skip_tools : List LlmMessage → ℕ → ℕ
unfolding is_tool_at
skip_tools messages zero = zero
skip_tools messages (suc i) =
    let rest = skip_tools messages i in if is_tool_at messages (suc i) then rest else suc i

-- The second loop.
unfoldable pub skip_calls : List LlmMessage → ℕ → ℕ
unfolding is_tool_at makes_calls_at
skip_calls messages zero = zero
skip_calls messages (suc i) =
    let rest = skip_calls messages i in
    if makes_calls_at messages i
    then suc i
    else (if leb (length messages) (suc i)
        then suc i
        else (if is_tool_at messages (suc i) then rest else suc i))

unfoldable pub adjust_for_tool_boundaries : List LlmMessage → ℕ → ℕ
unfolding skip_tools skip_calls
adjust_for_tool_boundaries messages cut_index = skip_calls messages (skip_tools messages cut_index)

-- cut_index if cut_index > 0 else None
unfoldable pub positive : ℕ → Option ℕ
positive zero = none
positive (suc i) = some (suc i)

unfoldable pub adjusted : List LlmMessage → Option ℕ → Option ℕ
unfolding adjust_for_tool_boundaries positive
adjusted messages none = none
adjusted messages (some zero) = none
adjusted messages (some (suc i)) = positive (adjust_for_tool_boundaries messages (suc i))

unfoldable pub find_cut_point : (keep_recent_tokens : ℕ) → List LlmMessage → Option ℕ
unfolding cut_loop adjusted
find_cut_point keep messages =
    if leb (length messages) 1
    then none
    else adjusted messages (cut_loop messages keep (length messages) 0)

pub record CompactionPlan : Type 0 where
  pub should_compact : Bool
  pub estimated_tokens : ℕ
  pub cut_index : Option ℕ
  pub kept_tokens : ℕ
  pub reason : Option Text

plan_at : ℕ → List LlmMessage → Option ℕ → CompactionPlan
unfolding estimate_messages_tokens
plan_at estimated messages none = record {
  should_compact = false;
  estimated_tokens = estimated;
  cut_index = none;
  kept_tokens = 0;
  reason = some (codes "no-safe-cut-point");
}
plan_at estimated messages (some cut) = record {
  should_compact = true;
  estimated_tokens = estimated;
  cut_index = some cut;
  kept_tokens = estimate_messages_tokens (drop cut messages);
  reason = none;
}

unfoldable pub plan_compaction : (budget keep_recent_tokens : ℕ) → List LlmMessage → CompactionPlan
unfolding plan_at find_cut_point estimate_messages_tokens
plan_compaction budget keep messages =
    let estimated = estimate_messages_tokens messages in
    if leb estimated budget
    then record {
      should_compact = false;
      estimated_tokens = estimated;
      cut_index = none;
      kept_tokens = 0;
      reason = some (codes "within-budget");
    }
    else plan_at estimated messages (find_cut_point keep messages)
