-- ===== src/Evolution/Segments.antt =====
-- `_build_segments` of src/pyclaw/core/sop_extraction.py: the text of the turns of a session that the language model is
-- shown. The blocks of an entry are objects and no dicts, so that no text is taken from a content that is a list.
pub mod Private
use pyclaw.Prelude.{
  ℕ, ◌+◌, Text, codes, Bool, true, false, ◌&&◌, not, Option, none, some, List, [], ◌∷◌, ◌++◌, map,
  any, select, take, length, if◌then◌else◌, ltb, text_eq, text_key, decimal,
}
use pyclaw.Prelude.Dict
use pyclaw.Messages.{join_lines}
use pyclaw.Tools.Types.{Call, Arguments, raw, fields, absent}
use pyclaw.Session.Types.{
  Entry, Message, Content, plain, blocks, Body, message, SessionTree, Role, user, assistant, tool,
}

-- sep.join(ts)
unfoldable pub join : (sep : Text) → List Text → Text
join sep [] = []
join sep (t ∷ []) = t
join sep (t ∷ u ∷ us) = t ++ sep ++ join sep (u ∷ us)

unfoldable pub is_empty : {A : Type 0} → List A → Bool
is_empty [] = true
is_empty (x ∷ xs) = false

-- t in ts
unfoldable pub is_in : Text → List Text → Bool
is_in t ts = any (text_eq t) ts

-- `_extract_assistant_text`
unfoldable pub extract_assistant_text : Content → Text
extract_assistant_text (plain t) = t
extract_assistant_text (blocks bs) = []

unfoldable pub call_ids : List Call → List Text
unfolding is_empty
call_ids calls = select (λ id. not (is_empty id)) (map (λ (c : Call). c.id) calls)

unfoldable pub arguments_text : Arguments → Text
arguments_text (raw t) = t
arguments_text (fields printed) = printed
arguments_text absent = []

-- f"  - {name}({args})"
unfoldable pub tool_line : Call → Text
unfolding arguments_text
tool_line c = codes "  - " ++ c.name ++ codes "(" ++ arguments_text c.arguments ++ codes ")"

-- f"    -> {truncated}", for a text that is not empty
unfoldable pub add_result : Text → List Text → List Text
add_result [] rest = rest
add_result (c ∷ t) rest =
    (codes "    -> " ++ take 300 (c ∷ t) ++ (if ltb 300 (length (c ∷ t)) then codes "..." else []))
    ∷ rest

unfoldable pub answers : List Text → Option Text → Bool
unfolding is_in
answers ids none = false
answers ids (some id) = is_in id ids

-- A part of a segment, where there is something to say.
unfoldable pub when : {A : Type 0} → List A → Text → List Text → List Text
when [] part rest = rest
when (x ∷ xs) part rest = part ∷ rest

unfoldable pub segment : ℕ → Message → List Text → Text
unfolding when tool_line extract_assistant_text
segment n m results =
    let said = extract_assistant_text m.content in
    let lines = map tool_line m.tool_calls in
    join_lines (
      (codes "# Task Segment " ++ decimal n)
      ∷ when said (codes "ASSISTANT INTENT (for context): " ++ take 200 said) (
          when lines (codes "TOOL CALLS:\n" ++ join_lines lines)
            (when results (codes "TOOL RESULTS:\n" ++ join_lines results) [])))

-- What follows the last place of an entry in the order.
unfoldable pub after_last : Text → List Text → Option (List Text)
after_last id [] = none
after_last id (j ∷ order) = elim (after_last id order) [
  | some rest ↦ some rest
  | none ↦ if text_eq j id then some order else none
]

unfoldable pub or_nothing : Option (List Text) → List Text
or_nothing none = []
or_nothing (some rest) = rest

-- The message of an entry, where it is a MessageEntry.
unfoldable pub body_message : Body → Option Message
body_message (message m) = some m
body_message _ = none

unfoldable pub message_of : Option Entry → Option Message
unfolding body_message
message_of none = none
message_of (some e) = body_message e.body

-- `seen_assistant_ids` and `segments`
pub record Segments : Type 0 where
  pub seen : List Text
  pub segments : List Text

-- One of the entries that follow a turn, with what the rest of them give.
unfoldable pub follow_role : Role → List Text → Message → List Text → List Text
unfolding answers add_result extract_assistant_text
follow_role user ids m rest = []
follow_role assistant ids m rest = []
follow_role tool ids m rest =
    if answers ids m.tool_call_id then add_result (extract_assistant_text m.content) rest else rest

unfoldable pub follow : List Text → Option Message → List Text → List Text
unfolding follow_role
follow ids none rest = rest
follow ids (some m) rest = follow_role m.role ids m rest

module _ (tree : SessionTree) (candidates : List Text) where
  unfoldable pub tool_results : List Text → List Text → List Text
  unfolding follow message_of
  tool_results ids [] = []
  tool_results ids (id ∷ order) =
      follow ids (message_of (Dict.get tree.entries id)) (tool_results ids order)

  unfoldable pub add_segment : Text → Text → Message → Segments → Segments
  unfolding segment or_nothing after_last tool_results call_ids is_in
  add_segment key id m s =
      if any (λ c. is_in c candidates) (call_ids m.tool_calls) && not (is_in id s.seen)
      then record {
        seen = id ∷ s.seen;
        segments =
            s.segments
            ++ segment (length s.segments + 1) m
                (tool_results (call_ids m.tool_calls) (or_nothing (after_last key tree.order)))
              ∷ [];
      }
      else s

  unfoldable pub visit_role : Role → Text → Text → Message → Segments → Segments
  unfolding add_segment
  visit_role user key id m s = s
  visit_role assistant key id m s = add_segment key id m s
  visit_role tool key id m s = s

  unfoldable pub visit_message : Text → Text → Option Message → Segments → Segments
  unfolding visit_role
  visit_message key id none s = s
  visit_message key id (some m) s = visit_role m.role key id m s

  unfoldable pub visit : Text → Option Entry → Segments → Segments
  unfolding visit_message body_message
  visit key none s = s
  visit key (some e) s = visit_message key e.id (body_message e.body) s

  unfoldable pub visit_all : List Text → Segments → Segments
  unfolding visit
  visit_all [] s = s
  visit_all (id ∷ order) s = visit_all order (visit id (Dict.get tree.entries id) s)

  unfoldable pub build_segments : Text
  unfolding visit_all join
  build_segments =
      join (codes "\n\n---\n\n")
        (visit_all tree.order (record { seen = []; segments = [] })).segments
