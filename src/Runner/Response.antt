-- ===== src/Runner/Response.antt =====
-- What `run_agent_stream` of src/pyclaw/core/agent/runner.py does with a response of the model: a response without tool
-- calls is an answer or is tried again; the calls of another go through the loop guard and the approval gate
-- to the tools, whose results are truncated and appended.
use pyclaw.Prelude.{
  ℕ, ◌+◌, Text, codes, false, Option, none, some, List, [], ◌∷◌, ◌++◌, map, if◌then◌else◌, ltb,
}
use pyclaw.Messages.{join_lines}
use pyclaw.Session.Types.{user, assistant, tool, Block, text, image, plain, Message}
use pyclaw.Tools.Types.{Call}
use pyclaw.Tools.Registry
use pyclaw.Tools.Registry.{Registry}
use pyclaw.Tools.Truncation.{ToolResult, truncate_tool_result}
use pyclaw.Tools.Execution.{execute_tool_calls}
use pyclaw.Tools.Execution as Execution
use pyclaw.Runner.Gate.{Evaluated, gate_calls, asked_calls}
use pyclaw.Runner.Gate as Gate
use pyclaw.Runner.LoopGuard.{LoopAction, warn, terminate, update_tool_loop_state}
use pyclaw.Runner.Turn.{
  TurnClassification, complete, planning, reasoning, empty, classify_turn, retry_message_for,
}
use pyclaw.Runner.Stream.{Usage}
use pyclaw.Runner.State.{
  Event, tool_call_start, tool_approval_request, tool_call_end, error, done, Retries, Run, Turn,
  Config, Environment, Next, continue, stop, raises, said, append_message, then_do,
}

abbrev pub no_retries : Retries
no_retries = record { planning = 0; reasoning = 0; empty = 0 }

-- yield ErrorEvent(error_code=code), with terminated_by = code
unfoldable pub fail : Run → List Event → Text → Next
fail run events code = stop run (events ++ error code ∷ []) code

unfoldable pub retry_count : TurnClassification → Retries → ℕ
retry_count planning r = r.planning
retry_count reasoning r = r.reasoning
retry_count empty r = r.empty
retry_count complete r = 0

unfoldable pub retry_limit_for : TurnClassification → Config → ℕ
retry_limit_for planning c = c.planning_only_limit
retry_limit_for reasoning c = c.reasoning_only_limit
retry_limit_for empty c = c.empty_response_limit
retry_limit_for complete c = 0

unfoldable pub count_retry : TurnClassification → Retries → Retries
count_retry planning r = record r { planning = r.planning + 1 }
count_retry reasoning r = record r { reasoning = r.reasoning + 1 }
count_retry empty r = record r { empty = r.empty + 1 }
count_retry complete r = r

unfoldable pub add_usage : Usage → Usage → Usage
add_usage a b = record {
  input_tokens = a.input_tokens + b.input_tokens;
  output_tokens = a.output_tokens + b.output_tokens;
  cache_creation_input_tokens = a.cache_creation_input_tokens + b.cache_creation_input_tokens;
  cache_read_input_tokens = a.cache_read_input_tokens + b.cache_read_input_tokens;
}

text_blocks : List Block → List Text
text_blocks [] = []
text_blocks (text t ∷ bs) = t ∷ text_blocks bs
text_blocks (image bytes mime_type ∷ bs) = text_blocks bs

unfoldable pub tool_result_to_llm_content : ToolResult → Text
unfolding text_blocks
tool_result_to_llm_content result = join_lines (text_blocks result.content)

unfoldable pub tool_message : (tool_call_id : Text) → ToolResult → Message
tool_message id result = record {
  role = tool;
  content = plain (tool_result_to_llm_content result);
  tool_calls = [];
  tool_call_id = some id;
  partial = false;
}

unfoldable pub after_tools : Run → List Event → Next
after_tools run events = continue (record run { retries = no_retries }) events

unfoldable pub denial : Text × Text → Text × ToolResult
denial (id, why) = (id, Execution.error id why)

module _ (env : Environment) where
  -- A tool entry and a `ToolCallEnd` for each of the results, then the rest.
  unfoldable pub append_results :
      List (Text × ToolResult) → Run → List Event → (Run → List Event → Next) → Next
  append_results [] run events rest = rest run events
  append_results ((id, result) ∷ rs) run events rest =
      then_do (append_message env.draw run (tool_message id result)) events
        λ after. append_results rs after (events ++ tool_call_end id result ∷ []) rest

  -- resolve_max_output_chars(tool_obj, default) of the called tool, or the default
  unfoldable pub cap_of : Turn → Call → ℕ
  cap_of turn call = elim (Registry.get turn.tools call.name) [
    | none ↦ env.config.max_output_chars
    | some t ↦ elim (turn.max_output_chars t) [
      | none ↦ env.config.max_output_chars
      | some cap ↦ cap
    ]
  ]

  -- zip(response.tool_calls, results), each result truncated
  unfoldable pub truncated_results : Turn → List Call → List ToolResult → List (Text × ToolResult)
  unfolding cap_of
  truncated_results turn (c ∷ cs) (r ∷ rs) =
      (c.id, truncate_tool_result r (cap_of turn c)) ∷ truncated_results turn cs rs
  truncated_results turn [] rs = []
  truncated_results turn (c ∷ cs) [] = []

  unfoldable pub executed : Turn → List Call → Option (List ToolResult) → Run → List Event → Next
  unfolding append_results truncated_results after_tools
  executed turn calls none run events = raises run events
  executed turn calls (some results) run events =
      append_results (truncated_results turn calls results) run events after_tools

  -- `if not response.tool_calls: continue` stands under `if denied_ids`; without a denial no call is dropped.
  unfoldable pub execute_kept : Turn → List Call → Run → List Event → Next
  unfolding executed
  execute_kept turn [] run events = continue run events
  execute_kept turn (c ∷ cs) run events =
      executed turn (c ∷ cs)
        (execute_tool_calls env.repr turn.execute turn.schedule turn.tools (c ∷ cs)) run events

  -- Where the hook raises, its requests have been yielded.
  unfoldable pub gated :
      Turn → (asked : List Evaluated) → Option Gate.Outcome → Run → List Event → Next
  unfolding append_results execute_kept denial
  gated turn asked none run events = raises run (events ++ map tool_approval_request asked)
  gated turn asked (some outcome) run events =
      append_results (map denial outcome.denials) run
        (events ++ map tool_approval_request outcome.requests)
        λ after shown. execute_kept turn outcome.executed after shown

  unfoldable pub after_guard : Turn → List Call → LoopAction → Option Text → Run → List Event → Next
  unfolding gated fail
  after_guard turn calls terminate guidance run events = fail run events (codes "tool_loop")
  after_guard turn calls warn (some guidance) run events =
      then_do (append_message env.draw run (said user guidance)) events
        λ after. continue after events
  after_guard turn calls action guidance run events =
      gated turn (asked_calls turn.tools turn.approval_hook env.tier_override calls)
        (gate_calls turn.tools turn.approval_hook env.tier_override calls) run
        (events ++ map tool_call_start calls)

  -- A response with tool calls: its entry, the loop guard, then the tools.
  unfoldable pub call_tools : Turn → Text → List Call → Run → List Event → Next
  unfolding after_guard
  call_tools turn answer calls run events =
      then_do (append_message env.draw run (record (said assistant answer) { tool_calls = calls }))
        events
        λ after.
          let guard =
            update_tool_loop_state calls turn.tools after.loop env.config.unknown_tool_threshold in
          after_guard turn calls guard.1 guard.2 (record after { loop = guard.0 }) events

  unfoldable pub retry_prompt : Option Text → Run → List Event → Next
  retry_prompt none run events = continue run events
  retry_prompt (some prompt) run events =
      then_do (append_message env.draw run (said user prompt)) events λ after. continue after events

  -- A response without tool calls: it is tried again while its kind has tries left, else it is the answer.
  unfoldable pub answer : Text → TurnClassification → Run → List Event → Next
  unfolding retry_prompt
  answer reply kind run events =
      if ltb (retry_count kind run.retries) (retry_limit_for kind env.config)
      then then_do
          (append_message env.draw (record run { retries = count_retry kind run.retries })
            (said assistant reply))
          events (λ after. retry_prompt (retry_message_for kind) after events)
      else then_do (append_message env.draw run (said assistant reply)) events
          (λ after. stop after (events ++ done reply run.totals ∷ []) (codes "done"))

  unfoldable pub respond : Turn → Text → List Call → Run → List Event → Next
  unfolding answer call_tools
  respond turn reply [] run events = answer reply (classify_turn env.is_digit reply) run events
  respond turn reply (c ∷ cs) run events = call_tools turn reply (c ∷ cs) run events
