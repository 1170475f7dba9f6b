-- ===== src/Runner/Examples.antt =====
-- Runs of the tool registry, the loop guard and the approval gate on small inputs.
use mathlib.Core.List.{Perm}
use pyclaw.Prelude.{
  Text, codes, ◌≡◌, ◌≢◌, refl, true, false, not, Option, none, some, List, [], ◌∷◌, map, ◌++◌, ok,
  text_key, text_eq, All,
}
use pyclaw.Prelude.Dict
use pyclaw.Tools.Types.{read_only, approval, yolo, read, write, Tool, absent, Call}
use pyclaw.Tools.Names.{llm_name, has_dunder, colon_count, server_part, replace_dunder}
use pyclaw.Tools.Names.RoundTrip.{ends_in_underscore}
use pyclaw.Tools.Registry.{Registry, register, get, contains, is_mcp_imported, is_valid_class}
use pyclaw.Tools.Registry.Lookup.{IsRegistry}
use pyclaw.Runner.LoopGuard.{terminate, unknown_names}
use pyclaw.Runner.LoopGuard.Turns.{action, turns}
use pyclaw.Runner.LoopGuard.McpNames.{call_of, mcp_calls_terminate}
use pyclaw.Runner.Gate.{
  deny, wait, evaluate_call, evaluate_calls, rank, forced_tier, ApprovalHook, Outcome, gate_calls,
  verdict, partition, record_verdict, deny_without_hook, apply_decisions, decided, kept_calls,
  denial_results, finish, ask_hook, after_partition, turn_tier, turn_source,
}
use pyclaw.Runner.Gate.Safety.{read_only-IsHarmless, IsHarmless, gate_calls-answered}
use pyclaw.Runner.Gate.Decisions.{deny-not_executed}

abbrev read_file : Tool
read_file = record {
  name = codes "read_file";
  description = [];
  side_effect = false;
  tool_class = some read;
  server = none;
}

abbrev bash : Tool
bash = record {
  name = codes "bash";
  description = [];
  side_effect = true;
  tool_class = some write;
  server = none;
}

abbrev git_log : Tool
git_log = record {
  name = codes "git:log";
  description = [];
  side_effect = true;
  tool_class = some read;
  server = some (record { server_name = codes "git"; forced_tier = some approval });
}

abbrev local_tools : Registry
local_tools = (codes "read_file", read_file) ∷ (codes "bash", bash) ∷ []

abbrev tools : Registry
tools = local_tools ++ (codes "git:log", git_log) ∷ []

program : Unit {0}
unfolding Dict.get Dict.has Dict.put text_eq has_dunder colon_count server_part replace_dunder
    llm_name ends_in_underscore register is_mcp_imported is_valid_class get contains unknown_names
    evaluate_call rank forced_tier verdict partition record_verdict deny_without_hook
    apply_decisions decided kept_calls denial_results finish ask_hook after_partition turn_tier
    turn_source evaluate_calls gate_calls
program = tt

local_tools-IsRegistry : IsRegistry local_tools
unfolding program
local_tools-IsRegistry = (
  (refl, record { plain_name = λ _. (refl, refl); qualified_name = λ h. cc }, refl),
  ((refl, record { plain_name = λ _. (refl, refl); qualified_name = λ h. cc }, refl), tt),
)

register-git_log : register local_tools git_log ≡ ok tools
unfolding program
register-git_log = refl

mcp_calls_terminate_example :
    (get tools (llm_name git_log.name) ≡ some git_log)
    × (action
          (call_of (llm_name git_log.name) ∷ [])
          tools
          3
          (turns (call_of (llm_name git_log.name) ∷ []) tools 3 3)
        ≡ terminate)
unfolding program
mcp_calls_terminate_example =
    mcp_calls_terminate local_tools git_log 2 local_tools-IsRegistry refl refl register-git_log

-- A server whose name ends in an underscore.
abbrev odd_tool : Tool
odd_tool = record git_log { name = codes "git_:log" }

odd_tools-IsRegistry : IsRegistry ((odd_tool.name, odd_tool) ∷ [])
unfolding program
odd_tools-IsRegistry =
    ((refl, record { plain_name = λ h. cc; qualified_name = λ _. (refl, refl) }, refl), tt)

abbrev call : Text → Text → Call
call id name = record { id = id; name = name; arguments = absent }

abbrev calls : List Call
calls =
    call (codes "1") (codes "read_file")
    ∷ call (codes "2") (codes "bash")
    ∷ call (codes "3") (codes "git__log")
    ∷ []

-- A hook that gates all but `read_file`, denies the first call that it is asked about, and leaves the
-- second one open.
abbrev hook : ApprovalHook
hook = record {
  should_gate = λ name. some (not (text_eq name (codes "read_file")));
  before_tool_execution = λ es. some (deny ∷ wait ∷ []);
}

abbrev outcome_of : Option Outcome → Outcome
outcome_of none = record { requests = []; denials = []; executed = []; audits = [] }
outcome_of (some out) = out

unfoldable read_only_outcome : Outcome
read_only_outcome = outcome_of (gate_calls tools none (some read_only) calls)

read_only_run : gate_calls tools none (some read_only) calls ≡ some read_only_outcome
unfolding program read_only_outcome
read_only_run = refl

read_only-IsHarmless_example : All (IsHarmless tools) read_only_outcome.executed
read_only-IsHarmless_example = read_only-IsHarmless tools none calls read_only_run

gate_calls-answered_example :
    Perm
      (map (λ r. r.0) read_only_outcome.denials ++ map (λ c. c.id) read_only_outcome.executed)
      (map (λ c. c.id) calls)
gate_calls-answered_example = gate_calls-answered tools none (some read_only) calls read_only_run

unfoldable unattended_outcome : Outcome
unattended_outcome = outcome_of (gate_calls tools none (some yolo) calls)

unattended_run : gate_calls tools none (some yolo) calls ≡ some unattended_outcome
unfolding program unattended_outcome
unattended_run = refl

unfoldable attended_outcome : Outcome
attended_outcome = outcome_of (gate_calls tools (some hook) none calls)

attended_run : gate_calls tools (some hook) none calls ≡ some attended_outcome
unfolding program attended_outcome
attended_run = refl

deny-not_executed_example : All (λ c. c.id ≢ codes "2") attended_outcome.executed
unfolding program attended_outcome
deny-not_executed_example =
    deny-not_executed tools hook none calls (deny ∷ wait ∷ []) 0 attended_run refl refl refl

-- The call that the hook answered with `wait` is executed.
wait_is_executed : map (λ c. c.id) attended_outcome.executed ≡ codes "1" ∷ codes "3" ∷ []
unfolding program attended_outcome
wait_is_executed = refl
