-- ===== src/Compaction/Chunks.antt =====
-- src/pyclaw/core/agent/compaction/hardening.py: which messages a summary is made of, and in which chunks.
-- `str.lower` and the summarizer, a call of the language model, are arguments.
pub mod Split
use pyclaw.Prelude.{
  ℕ, zero, suc, ◌+◌, ◌≤◌, Text, codes, Bool, true, false, ◌||◌, Option, none, some, List, [], ◌∷◌,
  ◌++◌, Result, ok, err, length, any, drop, if◌then◌else◌, leb, ltb, ◌==◌, starts_with, has_part,
}
use pyclaw.Messages.{
  MessageRole, system, user, assistant, tool, other, MessageContent, LlmMessage, is_space,
  extract_text_from_content, strip,
}
use pyclaw.Compaction.Planning.{estimate_message_tokens}

abbrev pub heartbeat_markers : List Text
heartbeat_markers =
    codes "heartbeat" ∷ codes "ping" ∷ codes "pong" ∷ codes "[heartbeat]" ∷ codes "[system]" ∷ []

is_system : MessageRole → Bool
is_system system = true
is_system _ = false

-- role in ("user", "assistant", "tool")
is_conversational : MessageRole → Bool
is_conversational user = true
is_conversational assistant = true
is_conversational tool = true
is_conversational _ = false

is_empty : {A : Type 0} → List A → Bool
is_empty [] = true
is_empty (x ∷ xs) = false

-- Whether a message decides that the conversation is a real one.
unfoldable pub is_real : (lower : Text → Text) → LlmMessage → Bool
unfolding is_system is_conversational is_empty strip extract_text_from_content
is_real lower msg =
    let lowered = lower (strip (extract_text_from_content msg.content)) in
    if is_system msg.role
    then false
    else (if is_empty lowered
        then (if is_empty msg.tool_calls then false else true)
        else (if any (λ marker. has_part marker lowered) heartbeat_markers
            then false
            else is_conversational msg.role))

unfoldable pub has_real_conversation : (lower : Text → Text) → List LlmMessage → Bool
unfolding is_real
has_real_conversation lower messages = any (is_real lower) messages

role_name : MessageRole → Text
role_name system = codes "system"
role_name user = codes "user"
role_name assistant = codes "assistant"
role_name tool = codes "tool"
role_name (other name) = name

omitted : MessageRole → LlmMessage
unfolding role_name
omitted role = record {
  role = role;
  content =
      MessageContent.plain
        (codes "[omitted oversized message from " ++ role_name role ++ codes "]");
  tool_calls = [];
  tool_call_id = none;
}

-- The loop of `filter_oversized_messages`; the threshold is int(context_window * oversized_fraction * 4), and
-- the whole function is the identity where the context window is not positive.
unfoldable pub filter_oversized_messages : (threshold_chars : ℕ) → List LlmMessage → List LlmMessage
unfolding omitted extract_text_from_content
filter_oversized_messages threshold [] = []
filter_oversized_messages threshold (m ∷ ms) =
    (if ltb threshold (length (extract_text_from_content m.content)) then omitted m.role else m)
    ∷ filter_oversized_messages threshold ms

-- if current: chunks.append(current)
unfoldable pub flush : List LlmMessage → List (List LlmMessage) → List (List LlmMessage)
flush [] chunks = chunks
flush (m ∷ ms) chunks = (m ∷ ms) ∷ chunks

is_full : List LlmMessage → (total budget : ℕ) → Bool
is_full [] total budget = false
is_full (m ∷ ms) total budget = ltb budget total

-- The loop, on the current chunk and its tokens; the result is the chunks from the current one on.
unfoldable pub split_loop :
    (budget : ℕ) → List LlmMessage → List LlmMessage → ℕ → List (List LlmMessage)
unfolding flush is_full
split_loop budget [] current current_tokens = flush current []
split_loop budget (msg ∷ rest) current current_tokens =
    let msg_tokens = estimate_message_tokens msg in
    let closed = split_loop budget rest (msg ∷ []) msg_tokens in
    let kept_open = split_loop budget rest (current ++ msg ∷ []) (current_tokens + msg_tokens) in
    if is_full current (current_tokens + msg_tokens) budget then current ∷ closed else kept_open

-- chunks or [[]]
unfoldable pub or_one : List (List LlmMessage) → List (List LlmMessage)
or_one [] = [] ∷ []
or_one (c ∷ cs) = c ∷ cs

unfoldable pub split_into_chunks :
    (chunk_token_budget : ℕ) → List LlmMessage → List (List LlmMessage)
unfolding split_loop or_one
split_into_chunks zero messages = messages ∷ []
split_into_chunks (suc b) messages = or_one (split_loop (suc b) messages [] 0)

-- `tokens_after`, where it is no more than before.
unfoldable pub sanity_check_token_estimate : ℕ → Option ℕ → Option ℕ
sanity_check_token_estimate before none = none
sanity_check_token_estimate before (some after) = if ltb before after then none else some after
