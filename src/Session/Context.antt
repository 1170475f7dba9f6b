-- ===== src/Session/Context.antt =====
-- `SessionTree.build_session_context` of src/pyclaw/models/session.py: the messages of the branch, or from
-- the last compaction on its summary and what it keeps.
pub mod Compacted
use mathlib.Core.Option
use pyclaw.Prelude.{
  ℕ, zero, suc, ◌+◌, Text, codes, Bool, true, false, not, ◌||◌, Option, none, some, List, [], ◌∷◌,
  ◌++◌, map, drop, if◌then◌else◌, text_eq,
}
use pyclaw.Messages
use pyclaw.Messages.{MessageRole, Part, MessageContent, LlmMessage, is_blank}
use pyclaw.Session.Types.{
  Role, user, assistant, tool, Block, text, image, Content, plain, blocks, Message, Compaction,
  Body, message, compaction, model_change, custom, Entry, SessionTree,
}
use pyclaw.Session.Tree.{get_branch}

-- The url of an image block.
image_url : Text → Text → Text
image_url bytes mime_type = codes "data:" ++ mime_type ++ codes ";base64," ++ bytes

-- A text block that is empty or blank is left out.
unfoldable pub content_blocks_to_llm : List Block → List Part
unfolding image_url
content_blocks_to_llm [] = []
content_blocks_to_llm (image bytes mime_type ∷ bs) =
    Part.image (image_url bytes mime_type) ∷ content_blocks_to_llm bs
content_blocks_to_llm (text t ∷ bs) =
    let rest = content_blocks_to_llm bs in if is_blank t then rest else Part.text t ∷ rest

to_role : Role → MessageRole
to_role user = MessageRole.user
to_role assistant = MessageRole.assistant
to_role tool = MessageRole.tool

to_content : Role → Content → MessageContent
unfolding content_blocks_to_llm
to_content tool (plain t) = MessageContent.parts (Part.text t ∷ [])
to_content role (plain t) = MessageContent.plain t
to_content role (blocks bs) = MessageContent.parts (content_blocks_to_llm bs)

-- An id that is empty is left out.
to_call_id : Option Text → Option Text
to_call_id none = none
to_call_id (some []) = none
to_call_id (some (c ∷ s)) = some (c ∷ s)

unfoldable pub message_entry_to_dict : Message → LlmMessage
unfolding to_role to_content to_call_id
message_entry_to_dict m = record {
  role = to_role m.role;
  content = to_content m.role m.content;
  tool_calls = m.tool_calls;
  tool_call_id = to_call_id m.tool_call_id;
}

-- The messages among the entries of a branch.
unfoldable pub message_dicts : List Entry → List LlmMessage
message_dicts [] = []
message_dicts (e ∷ es) = elim e.body [
  | message m ↦ message_entry_to_dict m ∷ message_dicts es
  | _ ↦ message_dicts es
]

-- The messages among the entries that a compaction keeps, itself left out.
unfoldable pub kept_dicts : Text → List Entry → List LlmMessage
kept_dicts compaction_id [] = []
kept_dicts compaction_id (e ∷ es) =
    let rest = kept_dicts compaction_id es in
    elim e.body [
      | message m ↦
          if not (text_eq e.id compaction_id) then message_entry_to_dict m ∷ rest else rest
      | _ ↦ rest
    ]

-- The last compaction of a branch, with its index and its id.
pub record Latest : Type 0 where
  pub index : ℕ
  pub id : Text
  pub content : Compaction

unfoldable pub latest_compaction : ℕ → List Entry → Option Latest → Option Latest
latest_compaction i [] found = found
latest_compaction i (e ∷ es) found =
    latest_compaction (i + 1) es (elim e.body [
      | compaction c ↦ some (record { index = i; id = e.id; content = c })
      | _ ↦ found
    ])

-- The index of the first entry with the id.
unfoldable pub index_of : ℕ → Text → List Entry → Option ℕ
index_of i id [] = none
index_of i id (e ∷ es) = if text_eq e.id id then some i else index_of (i + 1) id es

unfoldable pub summary_message : Compaction → LlmMessage
summary_message c = record {
  role = MessageRole.assistant;
  content = MessageContent.plain (codes "[Previous conversation summary]" ++ 10 ∷ c.summary);
  tool_calls = [];
  tool_call_id = none;
}

unfoldable pub context_from : List Entry → Option Latest → List LlmMessage
unfolding message_dicts kept_dicts index_of
context_from branch none = message_dicts branch
context_from branch (some latest) =
    let first_kept = index_of 0 latest.content.first_kept_entry_id branch in
    let start : ℕ = elim first_kept [ none ↦ latest.index + 1 | some i ↦ i ] in
    summary_message latest.content ∷ kept_dicts latest.id (drop start branch)

unfoldable pub context_of_branch : List Entry → List LlmMessage
unfolding latest_compaction context_from
context_of_branch branch = context_from branch (latest_compaction 0 branch none)

-- `none` where `get_branch` would not return.
unfoldable pub build_session_context : SessionTree → Option (List LlmMessage)
unfolding context_of_branch
build_session_context tree = Option.map context_of_branch (get_branch tree none)
