-- ===== src/Tools/Execution.antt =====
-- `execute_tool_calls` and `_dispatch_single` of src/pyclaw/core/agent/tools/registry.py. What a tool's own
-- `execute` comes to, under the time limit and the abort event of the run, is an argument, and so is the order in
-- which the event loop completes the calls that run together. `repr` of a text is an argument as well.
pub mod Answers
use pyclaw.Prelude.{
  ℕ, zero, suc, ◌+◌, Text, codes, Bool, true, false, ◌||◌, Option, none, some, List, [], ◌∷◌, ◌++◌,
  Result, ok, err, length, if◌then◌else◌, select, not,
}
use pyclaw.Session.Types.{text}
use pyclaw.Tools.Types.{Tool, Call}
use pyclaw.Tools.Registry
use pyclaw.Tools.Registry.{Registry}
use pyclaw.Tools.Truncation.{ToolResult}

-- How `run_with_timeout(tool.execute(args, context))` ends. The limit is given as it is printed.
pub data Ending : Type 0 where
  returned : ToolResult → Ending
  timed_out : (limit_seconds : Text) → Ending
  aborted : Ending
  server_dead : (server_name : Text) → Ending
  raised : (type_name what : Text) → Ending

unfoldable pub error : Text → Text → ToolResult
error tool_call_id message = record {
  tool_call_id = tool_call_id;
  content = text message ∷ [];
  is_error = true;
}

unavailable : (repr : Text → Text) → Text → Text
unavailable repr server =
    codes "MCP server "
    ++ repr server
    ++ codes " is unavailable. "
    ++ codes "Removed from this conversation. Use /mcp restart "
    ++ server
    ++ codes " to retry."

-- The result of a call of a registered tool, by how it ends.
unfoldable pub result_of : (repr : Text → Text) → Call → Ending → ToolResult
unfolding error unavailable
result_of repr call (returned r) = r
result_of repr call (timed_out limit) =
    error call.id (call.name ++ codes " timed out after " ++ limit ++ codes "s")
result_of repr call aborted = error call.id (call.name ++ codes " aborted")
result_of repr call (server_dead server) = error call.id (unavailable repr server)
result_of repr call (raised type_name what) =
    error call.id (call.name ++ codes " raised " ++ type_name ++ codes ": " ++ what)

is_empty : Text → Bool
is_empty [] = true
is_empty (c ∷ s) = false

-- The spawn of the death handler is left out: nothing here reads it.
unfoldable pub dispatch_single :
    (repr : Text → Text) (execute : Tool → Call → Ending) → Registry → Call → ToolResult
unfolding result_of error is_empty
dispatch_single repr execute tools call =
    if is_empty call.name
    then error call.id (codes "tool call missing function name")
    else elim (Registry.get tools call.name) [
      | none ↦ error call.id (codes "tool " ++ repr call.name ++ codes " not registered")
      | some tool ↦ result_of repr call (execute tool call)
    ]

-- tool is None or tool.side_effect
unfoldable pub runs_alone : Registry → Call → Bool
runs_alone tools call = elim (Registry.get tools call.name) [
  | none ↦ true
  | some tool ↦ tool.side_effect
]

-- enumerate(tool_calls), from an index on
unfoldable pub enumerate : ℕ → List Call → List (ℕ × Call)
enumerate i [] = []
enumerate i (c ∷ cs) = (i, c) ∷ enumerate (i + 1) cs

unfoldable pub parallel : Registry → List Call → List (ℕ × Call)
unfolding runs_alone enumerate
parallel tools calls = select (λ (p : ℕ × Call). not (runs_alone tools p.1)) (enumerate 0 calls)

unfoldable pub sequential : Registry → List Call → List (ℕ × Call)
unfolding runs_alone enumerate
sequential tools calls = select (λ (p : ℕ × Call). runs_alone tools p.1) (enumerate 0 calls)

-- [None] * n
unfoldable pub nones : ℕ → List (Option ToolResult)
nones zero = []
nones (suc n) = none ∷ nones n

-- results[i] = r
unfoldable pub set : ℕ → ToolResult → List (Option ToolResult) → List (Option ToolResult)
set i r [] = []
set zero r (o ∷ os) = some r ∷ os
set (suc i) r (o ∷ os) = o ∷ set i r os

-- `run_one` of each, in the order in which they complete; `answer` is the dispatch of one call.
unfoldable pub run_all :
    (answer : ℕ → Call → ToolResult)
    → List (ℕ × Call)
    → List (Option ToolResult)
    → List (Option ToolResult)
unfolding set
run_all answer [] results = results
run_all answer ((i, call) ∷ rest) results = run_all answer rest (set i (answer i call) results)

-- The loop that asserts that no result is missing.
unfoldable pub collect : List (Option ToolResult) → Option (List ToolResult)
collect [] = some []
collect (none ∷ os) = none
collect (some r ∷ os) = elim (collect os) [ none ↦ none | some rs ↦ some (r ∷ rs) ]

-- The order in which the calls complete: those that run together in the order that `schedule` makes of them,
-- then the others one by one.
unfoldable pub execution_order :
    (schedule : List (ℕ × Call) → List (ℕ × Call)) → Registry → List Call → List (ℕ × Call)
unfolding parallel sequential
execution_order schedule tools calls = schedule (parallel tools calls) ++ sequential tools calls

-- `execute` is given the index of the call too, as it may end differently for equal calls. `none` is a failed
-- assertion.
unfoldable pub execute_tool_calls :
    (repr : Text → Text) (execute : ℕ → Tool → Call → Ending)
    (schedule : List (ℕ × Call) → List (ℕ × Call))
    → Registry
    → List Call
    → Option (List ToolResult)
unfolding run_all collect execution_order nones dispatch_single
execute_tool_calls repr execute schedule tools calls = collect (
    run_all (λ i call. dispatch_single repr (execute i) tools call)
      (execution_order schedule tools calls) (nones (length calls)))
