-- ===== src/Runner/Gate.antt =====
-- The approval gate of `run_agent_stream`, src/pyclaw/core/agent/runner.py: between the tool calls of
-- a response and their execution. The hook is `ToolApprovalHook` of src/pyclaw/core/hooks.py.
-- An audit record leaves out what is the same for all calls of a request (session, channel, user,
-- role, sandbox), and the events `ToolCallStart` and `ToolCallEnd` are not recorded.
pub mod Tiers
pub mod Denials
pub mod Safety
pub mod Decisions
pub mod Waits
use mathlib.Core.Option
use pyclaw.Prelude.{
  ℕ, Text, codes, Bool, true, false, not, Option, none, some, List, [], ◌∷◌, ◌++◌, map, ltb,
  if◌then◌else◌, select, text_key,
}
use pyclaw.Prelude.Dict
use pyclaw.Prelude.Dict.{Dict}
use pyclaw.Tools.Types.{Tier, read_only, approval, yolo, ToolClass, write, Tool, Call}
use pyclaw.Tools.Registry
use pyclaw.Tools.Registry.{Registry}

-- `ApprovalDecision`
pub data Decision : Type 0 where
  approve deny wait : Decision

-- `tier_source`
pub data TierSource : Type 0 where
  per_turn channel_default forced_by_server_config : TierSource

-- `decided_by`
pub data DecidedBy : Type 0 where
  auto_yolo auto_read_only auto_not_gated auto_no_hook : DecidedBy

-- A call with its effective tier: an element of `per_call_evaluated`.
pub record Evaluated : Type 0 where
  pub call : Call
  pub canonical_name : Text
  pub call_tier : Tier
  pub source : TierSource
  pub forced_server : Option Text

pub record Audit : Type 0 where
  pub tool_name : Text
  pub tool_call_id : Text
  pub tier : Tier
  pub decision : Decision
  pub decided_by : DecidedBy
  pub tier_source : TierSource
  pub server : Option Text

-- `should_gate` is `none` where it raises; `before_tool_execution` is `none` where it raises, and
-- then the exception leaves the run.
pub record ApprovalHook : Type 0 where
  pub should_gate : Text → Option Bool
  pub before_tool_execution : List Evaluated → Option (List Decision)

-- _RANK
unfoldable pub rank : Tier → ℕ
rank read_only = 2
rank approval = 1
rank yolo = 0

-- getattr(tool_obj.server_config, "forced_tier", None), or None without such a tool or config
unfoldable pub forced_tier : Option Tool → Option Tier
forced_tier none = none
forced_tier (some tool) = elim tool.server [ none ↦ none | some server ↦ server.forced_tier ]

unfoldable pub server_name : Option Tool → Option Text
server_name none = none
server_name (some tool) = elim tool.server [ none ↦ none | some server ↦ some server.server_name ]

unfoldable pub canonical : Option Tool → Text → Text
canonical none name = name
canonical (some tool) name = tool.name

unfoldable pub evaluate_call : Registry → Tier → TierSource → Call → Evaluated
unfolding rank forced_tier server_name canonical
evaluate_call tools tier source call =
    let tool = Registry.get tools call.name in
    let unforced : Evaluated = record {
      call = call;
      canonical_name = canonical tool call.name;
      call_tier = tier;
      source = source;
      forced_server = none;
    } in
    elim (forced_tier tool) [
      | none ↦ unforced
      | some forced ↦
          if ltb (rank tier) (rank forced)
          then record unforced {
            call_tier = forced;
            source = forced_by_server_config;
            forced_server = server_name tool;
          }
          else unforced
    ]

-- What one round of the loop over `per_call_evaluated` does with its call.
pub data Verdict : Type 0 where
  auto_approve : DecidedBy → Verdict
  auto_deny : Text → DecidedBy → Verdict
  gate : Verdict

read_only_message : Text → Text
read_only_message name =
    codes "Tool '"
    ++ name
    ++ codes "' is not available in read-only mode. (Mode can be changed in the input footer.)"

-- getattr(tool_obj, "tool_class", "write") == "write"
unfoldable pub is_write : Option Tool → Bool
is_write none = true
is_write (some tool) = elim tool.tool_class [
  | none ↦ true
  | some cls ↦ elim cls [ write ↦ true | _ ↦ false ]
]

is_forced : TierSource → Bool
is_forced forced_by_server_config = true
is_forced _ = false

-- A hook that raises is taken to gate.
unfoldable pub asks_gate : Option ApprovalHook → Text → Bool
asks_gate none name = false
asks_gate (some hook) name = elim (hook.should_gate name) [ none ↦ true | some answer ↦ answer ]

unfoldable pub verdict : Registry → Option ApprovalHook → Evaluated → Verdict
unfolding read_only_message is_write is_forced asks_gate
verdict tools hook e = elim e.call_tier [
  | yolo ↦ auto_approve auto_yolo
  | read_only ↦
      if is_write (Registry.get tools e.call.name)
      then auto_deny (read_only_message e.canonical_name) auto_read_only
      else auto_approve auto_read_only
  | approval ↦
      if is_forced e.source
      then gate
      else if asks_gate hook e.canonical_name
      then gate
      else auto_approve auto_not_gated
]

-- `denied_ids`, `actually_gated` and what was written to the audit log.
pub record Parts : Type 0 where
  pub denied : Dict Text Text
  pub gated : List Evaluated
  pub audits : List Audit

abbrev pub audit : Evaluated → Tier → Decision → DecidedBy → Audit
audit e tier decision decided_by = record {
  tool_name = e.canonical_name;
  tool_call_id = e.call.id;
  tier = tier;
  decision = decision;
  decided_by = decided_by;
  tier_source = e.source;
  server = e.forced_server;
}

unfoldable pub record_verdict : Evaluated → Verdict → Parts → Parts
record_verdict e (auto_approve by) parts = record parts {
  audits = parts.audits ++ audit e e.call_tier approve by ∷ [];
}
record_verdict e (auto_deny message by) parts = record parts {
  denied = Dict.put parts.denied e.call.id message;
  audits = parts.audits ++ audit e e.call_tier deny by ∷ [];
}
record_verdict e gate parts = record parts { gated = parts.gated ++ e ∷ [] }

unfoldable pub partition : Registry → Option ApprovalHook → List Evaluated → Parts → Parts
partition tools hook [] parts = parts
partition tools hook (e ∷ es) parts =
    partition tools hook es (record_verdict e (verdict tools hook e) parts)

no_hook_message : Text → Text
no_hook_message name =
    codes "Tool '"
    ++ name
    ++ codes "' requires approval but no approval hook is configured for this channel."

-- The loop under `if actually_gated and deps.tool_approval_hook is None`.
unfoldable pub deny_without_hook : List Evaluated → Parts → Parts
unfolding no_hook_message
deny_without_hook [] parts = parts
deny_without_hook (e ∷ es) parts = deny_without_hook es (record parts {
  denied = Dict.put parts.denied e.call.id (no_hook_message e.canonical_name);
  audits = parts.audits ++ audit e approval deny auto_no_hook ∷ [];
})

denied_message : Text → Text
denied_message name = codes "Tool '" ++ name ++ codes "' was denied by approval hook."

-- The loop over `enumerate(decisions)`; `none` is the `IndexError` of `actually_gated[idx]`.
unfoldable pub apply_decisions :
    List Decision → List Evaluated → Dict Text Text → Option (Dict Text Text)
unfolding denied_message
apply_decisions [] gated denied = some denied
apply_decisions (d ∷ ds) [] denied = none
apply_decisions (deny ∷ ds) (e ∷ es) denied =
    apply_decisions ds es (Dict.put denied e.call.id (denied_message e.canonical_name))
apply_decisions (_ ∷ ds) (e ∷ es) denied = apply_decisions ds es denied

pub record Outcome : Type 0 where
  -- the calls of the `ToolApprovalRequest` events, in order
  pub requests : List Evaluated
  -- the tool results that stand for the denied calls, in the order of the calls
  pub denials : List (Text × Text)
  -- what is handed to `execute_tool_calls`
  pub executed : List Call
  pub audits : List Audit

unfoldable pub kept_calls : Dict Text Text → List Call → List Call
kept_calls denied calls = select (λ c. not (Dict.has denied c.id)) calls

unfoldable pub denial_results : Dict Text Text → List Call → List (Text × Text)
denial_results denied [] = []
denial_results denied (c ∷ cs) = elim (Dict.get denied c.id) [
  | none ↦ denial_results denied cs
  | some message ↦ (c.id, message) ∷ denial_results denied cs
]

-- The part under `if denied_ids`, which changes nothing where no call is denied.
unfoldable pub finish : List Call → List Evaluated → Dict Text Text → List Audit → Outcome
finish calls requests denied audits = record {
  requests = requests;
  denials = denial_results denied calls;
  executed = kept_calls denied calls;
  audits = audits;
}

unfoldable pub decided :
    Option (List Decision) → List Evaluated → Dict Text Text → Option (Dict Text Text)
decided none gated denied = none
decided (some decisions) gated denied = apply_decisions decisions gated denied

-- The hook is asked only if a call is gated.
unfoldable pub ask_hook :
    ApprovalHook → List Call → List Evaluated → Dict Text Text → List Audit → Option Outcome
ask_hook hook calls [] denied audits = some (finish calls [] denied audits)
ask_hook hook calls (e ∷ es) denied audits =
    Option.map (λ d. finish calls (e ∷ es) d audits)
      (decided (hook.before_tool_execution (e ∷ es)) (e ∷ es) denied)

unfoldable pub after_partition : Option ApprovalHook → List Call → Parts → Option Outcome
after_partition none calls parts =
    let all = deny_without_hook parts.gated parts in some (finish calls [] all.denied all.audits)
after_partition (some hook) calls parts = ask_hook hook calls parts.gated parts.denied parts.audits

-- request.permission_tier_override or "approval"
unfoldable pub turn_tier : Option Tier → Tier
turn_tier none = approval
turn_tier (some tier) = tier

unfoldable pub turn_source : Option Tier → TierSource
turn_source none = channel_default
turn_source (some _) = per_turn

abbrev pub no_parts : Parts
no_parts = record { denied = []; gated = []; audits = [] }

unfoldable pub evaluate_calls : Registry → Option Tier → List Call → List Evaluated
evaluate_calls tools override calls =
    map (evaluate_call tools (turn_tier override) (turn_source override)) calls

-- The calls of the `ToolApprovalRequest` events, which come before the hook is asked.
unfoldable pub asked_of : Option ApprovalHook → Parts → List Evaluated
asked_of none parts = []
asked_of (some hook) parts = parts.gated

unfoldable pub asked_calls :
    Registry → Option ApprovalHook → Option Tier → List Call → List Evaluated
unfolding asked_of
asked_calls tools hook override calls =
    asked_of hook (partition tools hook (evaluate_calls tools override calls) no_parts)

-- From the parsed calls of a response to what is executed; `none` is an exception that leaves the
-- run.
unfoldable pub gate_calls :
    Registry → Option ApprovalHook → Option Tier → List Call → Option Outcome
gate_calls tools hook override calls =
    after_partition hook calls (partition tools hook (evaluate_calls tools override calls) no_parts)
