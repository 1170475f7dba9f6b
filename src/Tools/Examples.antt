-- ===== src/Tools/Examples.antt =====
-- Two tool calls, and a result that is too long.
use pyclaw.Prelude.{ℕ, codes, ◌≡◌, false, none, some, List, [], ◌∷◌, arith}
use pyclaw.Session.Types.{text, image}
use pyclaw.Tools.Types.{Tool, ToolClass, Call, absent}
use pyclaw.Tools.Registry.{Registry}
use pyclaw.Tools.Truncation.{ToolResult, truncate_tool_result}
use pyclaw.Tools.Truncation.Bounds.{IsTruncated, truncate_tool_result-IsTruncated}
use pyclaw.Tools.Execution.{Ending, aborted, dispatch_single, execute_tool_calls}
use pyclaw.Tools.Execution.Answers.{IsSchedule, answers, execute_tool_calls-answers}

abbrev long_result : ToolResult
long_result = record {
  tool_call_id = codes "c1";
  content =
      text (codes "abcdef") ∷ image (codes "AA==") (codes "image/png") ∷ text (codes "gh") ∷ [];
  is_error = false;
}

truncate_tool_result-IsTruncated_example :
    IsTruncated 4 long_result (truncate_tool_result long_result 4)
truncate_tool_result-IsTruncated_example =
    truncate_tool_result-IsTruncated long_result 4 (omega arith)

abbrev read_file : Tool
read_file = record {
  name = codes "read";
  description = [];
  side_effect = false;
  tool_class = some ToolClass.read;
  server = none;
}

abbrev tools : Registry
tools = (codes "read", read_file) ∷ []

abbrev calls : List Call
calls =
    record { id = codes "c1"; name = codes "read"; arguments = absent }
    ∷ record { id = codes "c2"; name = codes "write"; arguments = absent }
    ∷ []

abbrev execute : ℕ → Tool → Call → Ending
execute i tool call = aborted

in_order-IsSchedule : IsSchedule (λ ps. ps)
in_order-IsSchedule = record { all_run = λ ps i h. h; no_others = λ P ps h. h }

execute_tool_calls-answers_example :
    execute_tool_calls (λ t. t) execute (λ ps. ps) tools calls
    ≡ some (answers (λ i call. dispatch_single (λ t. t) (execute i) tools call) 0 calls)
execute_tool_calls-answers_example =
    execute_tool_calls-answers (λ t. t) execute (λ ps. ps) tools calls in_order-IsSchedule
