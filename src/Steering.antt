-- ===== src/Steering.antt =====
-- The control of a run from outside: `RunControl` of src/pyclaw/core/agent/run_control.py, the commands /steer and
-- /btw of src/pyclaw/core/commands/steering.py and the hook of src/pyclaw/core/agent/hooks/steer_hook.py that hands
-- the messages to the model. What `xml_escape` makes of a text is an argument.
pub mod Cap
pub mod Delivery
mod Examples
use pyclaw.Prelude.{
  ℕ, zero, suc, ◌+◌, Text, codes, Bool, true, false, ◌&&◌, ◌||◌, not, Option, none, some, List, [],
  ◌∷◌, ◌++◌, map, length, select, if◌then◌else◌, leb, ltb, text_key,
}
use pyclaw.Prelude.Dict
use pyclaw.Prelude.Dict.{Dict}
use pyclaw.Messages.{join_lines, strip}

pub data Kind : Type 0 where
  steer sidebar : Kind

pub record SteerMessage : Type 0 where
  pub kind : Kind
  pub text : Text

-- `abort_event` by whether it is set.
pub record RunControl : Type 0 where
  pub aborted : Bool
  pub active : Bool
  pub chat_done_handled_externally : Bool
  pub pending_steers : List SteerMessage

unfoldable pub stop : RunControl → RunControl
stop rc = record rc { aborted = true; pending_steers = [] }

unfoldable pub is_active : RunControl → Bool
is_active rc = rc.active && not rc.aborted

abbrev pub cap_count : ℕ
cap_count = 5

abbrev pub cap_chars : ℕ
cap_chars = 2000

unfoldable pub total_chars : List SteerMessage → ℕ
total_chars [] = 0
total_chars (m ∷ ms) = length m.text + total_chars ms

-- The first loop of `enforce_cap`.
unfoldable pub drop_count : List SteerMessage → List SteerMessage
drop_count [] = []
drop_count (m ∷ ms) =
    let rest = drop_count ms in if leb cap_count (length (m ∷ ms)) then rest else m ∷ ms

-- The second loop, for a new text of the length.
unfoldable pub drop_chars : ℕ → List SteerMessage → List SteerMessage
unfolding total_chars
drop_chars size [] = []
drop_chars size (m ∷ ms) =
    let rest = drop_chars size ms in
    if ltb cap_chars (total_chars (m ∷ ms) + size) then rest else m ∷ ms

too_long : Text
too_long = codes "⚠ 单条消息超过 2000 字符，已拒绝"

dropped_oldest : Text
dropped_oldest = codes "⚠ 已接收，但 buffer 满，丢弃最旧的 steer"

-- Whether the text is taken, the warning, and the control. Something was dropped if fewer messages are left.
unfoldable pub enforce_cap : RunControl → Text → Bool × Text × RunControl
unfolding drop_count drop_chars too_long dropped_oldest
enforce_cap rc new_text =
    let kept = drop_chars (length new_text) (drop_count rc.pending_steers) in
    if ltb cap_chars (length new_text) then (false, too_long, rc) else (
      true,
      (if ltb (length kept) (length rc.pending_steers) then dropped_oldest else []),
      record rc { pending_steers = kept },
    )

-- The replies of a command.
pub data Reply : Type 0 where
  no_argument no_control not_running : Reply
  refused : Text → Reply
  accepted : (warning : Text) → Reply

take_payload : Kind → Text → RunControl → Reply × RunControl
unfolding is_active enforce_cap
take_payload kind payload rc =
    let (ok, warning, capped) = enforce_cap rc payload in
    let taken = record capped {
      pending_steers = capped.pending_steers ++ record { kind = kind; text = payload } ∷ [];
    } in
    if not (is_active rc)
    then (not_running, rc)
    else (if not ok then (refused warning, capped) else (accepted warning, taken))

-- `_handle` once `args` is stripped; `none` is a session without a control.
unfoldable pub handle_payload : Kind → Text → Option RunControl → Reply × Option RunControl
unfolding take_payload
handle_payload kind [] rc = (no_argument, rc)
handle_payload kind (c ∷ s) none = (no_control, none)
handle_payload kind (c ∷ s) (some rc) =
    let (reply, after) = take_payload kind (c ∷ s) rc in (reply, some after)

unfoldable pub handle : Kind → (args : Text) → Option RunControl → Reply × Option RunControl
unfolding handle_payload
handle kind args rc = handle_payload kind (strip args) rc

-- `SteerHook`: the controls of the runs, by session.
abbrev pub SteerHook : Type 0
SteerHook = Dict Text RunControl

unfoldable pub on_run_start : SteerHook → Text → RunControl → SteerHook
on_run_start hook session_id control =
    Dict.put hook session_id (record control { pending_steers = [] })

unfoldable pub on_run_end : SteerHook → Text → SteerHook
on_run_end hook session_id = Dict.remove hook session_id

is_steer : SteerMessage → Bool
is_steer m = elim m.kind [ steer ↦ true | sidebar ↦ false ]

unfoldable pub steers : List SteerMessage → List SteerMessage
unfolding is_steer
steers ms = select is_steer ms

unfoldable pub sidebars : List SteerMessage → List SteerMessage
unfolding is_steer
sidebars ms = select (λ m. not (is_steer m)) ms

steer_header : Text
steer_header =
    codes "IMPORTANT: The user has issued mid-run steering directives via /steer. "
    ++ codes "These instructions OVERRIDE any conflicting directions from the main user "
    ++ codes "message. You MUST follow them even if they contradict what the user "
    ++ codes "originally asked for."

sidebar_instruction : Text
sidebar_instruction =
    codes "(Please answer the side question(s) briefly, then return to the main task.)"

unfoldable pub bullets : (xml_escape : Text → Text) → List SteerMessage → List Text
bullets xml_escape ms = map (λ (m : SteerMessage). codes "- " ++ xml_escape m.text) ms

steer_part : (xml_escape : Text → Text) → List SteerMessage → List Text
unfolding steer_header bullets
steer_part xml_escape [] = []
steer_part xml_escape (m ∷ ms) =
    join_lines (
      codes "<user_steer>" ∷ steer_header ∷ bullets xml_escape (m ∷ ms)
      ++ codes "</user_steer>" ∷ [])
    ∷ []

sidebar_part : (xml_escape : Text → Text) → List SteerMessage → List Text
unfolding sidebar_instruction bullets
sidebar_part xml_escape [] = []
sidebar_part xml_escape (m ∷ ms) =
    join_lines (
      codes "<user_sidebar>" ∷ bullets xml_escape (m ∷ ms)
      ++ codes "</user_sidebar>" ∷ sidebar_instruction ∷ [])
    ∷ []

-- "\n\n".join(parts)
join_parts : List Text → Text
join_parts [] = []
join_parts (t ∷ []) = t
join_parts (t ∷ u ∷ us) = t ++ 10 ∷ 10 ∷ join_parts (u ∷ us)

-- The text that the messages become.
unfoldable pub render : (xml_escape : Text → Text) → List SteerMessage → Text
unfolding steer_part sidebar_part join_parts steers sidebars
render xml_escape ms =
    join_parts (steer_part xml_escape (steers ms) ++ sidebar_part xml_escape (sidebars ms))

-- The swap of the pending messages for none, and their text. Rendering raises nothing.
unfoldable pub drain :
    (xml_escape : Text → Text)
    → SteerHook
    → Text
    → RunControl
    → List SteerMessage
    → Option Text × SteerHook
unfolding render
drain xml_escape hook session_id rc [] = (none, hook)
drain xml_escape hook session_id rc (m ∷ ms) = (
  some (render xml_escape (m ∷ ms)),
  Dict.put hook session_id (record rc { pending_steers = [] }),
)

-- What is appended to the prompt of the next turn, and the hook afterwards.
unfoldable pub before_prompt_build :
    (xml_escape : Text → Text) → SteerHook → Text → Option Text × SteerHook
unfolding drain
before_prompt_build xml_escape hook session_id = elim (Dict.get hook session_id) [
  | none ↦ (none, hook)
  | some rc ↦ drain xml_escape hook session_id rc rc.pending_steers
]
