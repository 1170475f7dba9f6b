-- ===== src/Runner/Kept/Calls.antt =====
-- What the tool calls and the answers of a turn keep: src/pyclaw/core/agent/runner.py.
use pyclaw.Prelude.{
  Text, false, Option, none, some, List, [], ◌∷◌, ◌++◌, map, ◌≡◌, refl, sym, All, All-append,
  if_elim, text_key, ltb,
}
use pyclaw.Prelude.Dict
use pyclaw.Session.Types.{user, assistant, SessionTree}
use pyclaw.Tools.Types.{Call}
use pyclaw.Tools.Truncation.{ToolResult}
use pyclaw.Runner.Gate.{gate_calls, Evaluated}
use pyclaw.Runner.Gate as Gate
use pyclaw.Runner.LoopGuard.{LoopAction, proceed, warn, terminate}
use pyclaw.Runner.Turn.{TurnClassification, retry_message_for}
use pyclaw.Runner.State.{
  Event, tool_call_start, tool_approval_request, tool_call_end, done, Run, Turn, Environment, Next,
  said,
}
use pyclaw.Runner.Response.{
  append_results, tool_message, executed, after_tools, execute_kept, truncated_results, gated,
  denial, after_guard, call_tools, retry_prompt, answer, respond, retry_count, retry_limit_for,
  count_retry,
}
use pyclaw.Runner.Kept.{
  IsKept, IsQuiet, IsKeptBy, append-IsQuiet, tool_call_start-IsQuiet, tool_approval_request-IsQuiet,
  fail-IsKeptBy, then_do-IsKeptBy,
}

module _ (env : Environment)
    (fresh : (tree : SessionTree) → Dict.has tree.entries (env.draw tree).longer ≡ false) where
  append_results-IsKeptBy :
      (rs : List (Text × ToolResult)) (run : Run) (events : List Event)
      (rest : Run → List Event → Next)
      → IsKept run
      → All IsQuiet events
      → ((after : Run) (more : List Event)
          → IsKept after
          → All IsQuiet more
          → IsKeptBy (rest after more))
      → IsKeptBy (append_results env rs run events rest)
  unfolding append_results
  append_results-IsKeptBy [] run events rest k q h = h run events k q
  append_results-IsKeptBy ((id, result) ∷ rs) run events rest k q h =
      then_do-IsKeptBy env fresh run (tool_message id result) events _ k λ after kept leaf totals.
        append_results-IsKeptBy rs after (events ++ tool_call_end id result ∷ []) rest kept
          (append-IsQuiet events _ q tt) h

  executed-IsKeptBy :
      (turn : Turn) (calls : List Call) (results : Option (List ToolResult)) (run : Run)
      (events : List Event)
      → IsKept run
      → All IsQuiet events
      → IsKeptBy (executed env turn calls results run events)
  unfolding executed after_tools
  executed-IsKeptBy turn calls none run events k q = (k, q)
  executed-IsKeptBy turn calls (some results) run events k q =
      append_results-IsKeptBy (truncated_results env turn calls results) run events after_tools k q
        (λ after more kept quiet. (kept, quiet))

  execute_kept-IsKeptBy :
      (turn : Turn) (calls : List Call) (run : Run) (events : List Event)
      → IsKept run
      → All IsQuiet events
      → IsKeptBy (execute_kept env turn calls run events)
  unfolding execute_kept
  execute_kept-IsKeptBy turn [] run events k q = (k, q)
  execute_kept-IsKeptBy turn (c ∷ cs) run events k q =
      executed-IsKeptBy turn (c ∷ cs) _ run events k q

  gated-IsKeptBy :
      (turn : Turn) (asked : List Evaluated) (outcome : Option Gate.Outcome) (run : Run)
      (events : List Event)
      → IsKept run
      → All IsQuiet events
      → IsKeptBy (gated env turn asked outcome run events)
  unfolding gated
  gated-IsKeptBy turn asked none run events k q = (
    k,
    All-append IsQuiet events (map tool_approval_request asked) q
        (tool_approval_request-IsQuiet asked),
  )
  gated-IsKeptBy turn asked (some outcome) run events k q =
      append_results-IsKeptBy (map denial outcome.denials) run _ _ k
        (All-append IsQuiet events (map tool_approval_request outcome.requests) q
          (tool_approval_request-IsQuiet outcome.requests))
        (λ after shown kept quiet.
          execute_kept-IsKeptBy turn outcome.executed after shown kept quiet)

  after_guard-IsKeptBy :
      (turn : Turn) (calls : List Call) (action : LoopAction) (guidance : Option Text) (run : Run)
      (events : List Event)
      → IsKept run
      → All IsQuiet events
      → IsKeptBy (after_guard env turn calls action guidance run events)
  unfolding after_guard
  after_guard-IsKeptBy turn calls terminate guidance run events k q = fail-IsKeptBy run events _ k q
  after_guard-IsKeptBy turn calls warn (some guidance) run events k q =
      then_do-IsKeptBy env fresh run (said user guidance) events _ k
        (λ after kept leaf totals. (kept, q))
  after_guard-IsKeptBy turn calls warn none run events k q =
      gated-IsKeptBy turn _ _ run _ k
        (All-append IsQuiet events (map tool_call_start calls) q (tool_call_start-IsQuiet calls))
  after_guard-IsKeptBy turn calls proceed guidance run events k q =
      gated-IsKeptBy turn _ _ run _ k
        (All-append IsQuiet events (map tool_call_start calls) q (tool_call_start-IsQuiet calls))

  call_tools-IsKeptBy :
      (turn : Turn) (reply : Text) (calls : List Call) (run : Run) (events : List Event)
      → IsKept run
      → All IsQuiet events
      → IsKeptBy (call_tools env turn reply calls run events)
  unfolding call_tools
  call_tools-IsKeptBy turn reply calls run events k q =
      then_do-IsKeptBy env fresh run _ events _ k λ after kept leaf totals.
        after_guard-IsKeptBy turn calls _ _ (record after { loop = _ }) events kept q

  retry_prompt-IsKeptBy :
      (prompt : Option Text) (run : Run) (events : List Event)
      → IsKept run
      → All IsQuiet events
      → IsKeptBy (retry_prompt env prompt run events)
  unfolding retry_prompt
  retry_prompt-IsKeptBy none run events k q = (k, q)
  retry_prompt-IsKeptBy (some prompt) run events k q =
      then_do-IsKeptBy env fresh run (said user prompt) events _ k
        (λ after kept leaf totals. (kept, q))

  answer-IsKeptBy :
      (reply : Text) (kind : TurnClassification) (run : Run) (events : List Event)
      → IsKept run
      → All IsQuiet events
      → IsKeptBy (answer env reply kind run events)
  unfolding answer
  answer-IsKeptBy reply kind run events k q =
      if_elim IsKeptBy (ltb (retry_count kind run.retries) (retry_limit_for kind env.config))
        (λ _.
          then_do-IsKeptBy env fresh (record run { retries = count_retry kind run.retries })
            (said assistant reply) events _ k
            (λ after kept leaf totals.
              retry_prompt-IsKeptBy (retry_message_for kind) after events kept q))
        (λ _.
          then_do-IsKeptBy env fresh run (said assistant reply) events _ k
            (λ after kept leaf totals.
              (kept, (events, done reply run.totals, refl, q, (refl, sym totals, leaf)))))

  pub respond-IsKeptBy :
      (turn : Turn) (reply : Text) (calls : List Call) (run : Run) (events : List Event)
      → IsKept run
      → All IsQuiet events
      → IsKeptBy (respond env turn reply calls run events)
  unfolding respond
  respond-IsKeptBy turn reply [] run events k q = answer-IsKeptBy reply _ run events k q
  respond-IsKeptBy turn reply (c ∷ cs) run events k q =
      call_tools-IsKeptBy turn reply (c ∷ cs) run events k q
