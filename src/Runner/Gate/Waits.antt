-- ===== src/Runner/Gate/Waits.antt =====
-- The decision `wait` of the approval hook counts as an approval.
use mathlib.Core.Option
use pyclaw.Prelude.{Text, ◌≡◌, refl, Option, none, some, List, [], ◌∷◌, map, text_key}
use pyclaw.Prelude.Dict.{Dict}
use pyclaw.Tools.Types.{Tier, Call}
use pyclaw.Tools.Registry.{Registry}
use pyclaw.Runner.Gate.{
  Decision, approve, deny, wait, Evaluated, ApprovalHook, Parts, no_parts, Audit, evaluate_calls,
  verdict, partition, decided, apply_decisions, ask_hook, after_partition, gate_calls,
}

-- `wait` is read as `approve`.
abbrev pub wait_to_approve : Decision → Decision
wait_to_approve wait = approve
wait_to_approve d = d

abbrev pub without_wait : ApprovalHook → ApprovalHook
without_wait hook = record hook {
  before_tool_execution = λ es. Option.map (map wait_to_approve) (hook.before_tool_execution es);
}

apply_decisions-wait :
    (ds : List Decision) (es : List Evaluated) (d : Dict Text Text)
    → apply_decisions (map wait_to_approve ds) es d ≡ apply_decisions ds es d
unfolding apply_decisions
apply_decisions-wait [] es d = refl
apply_decisions-wait (x ∷ ds) [] d = refl
apply_decisions-wait (deny ∷ ds) (e ∷ es) d = apply_decisions-wait ds es _
apply_decisions-wait (approve ∷ ds) (e ∷ es) d = apply_decisions-wait ds es d
apply_decisions-wait (wait ∷ ds) (e ∷ es) d = apply_decisions-wait ds es d

decided-wait :
    (ds : Option (List Decision)) (es : List Evaluated) (d : Dict Text Text)
    → decided (Option.map (map wait_to_approve) ds) es d ≡ decided ds es d
unfolding decided
decided-wait none es d = refl
decided-wait (some ds) es d = apply_decisions-wait ds es d

ask_hook-wait :
    (hook : ApprovalHook) (calls : List Call) (gated : List Evaluated) (d : Dict Text Text)
    (audits : List Audit)
    → ask_hook (without_wait hook) calls gated d audits ≡ ask_hook hook calls gated d audits
unfolding ask_hook
ask_hook-wait hook calls [] d audits = refl
ask_hook-wait hook calls (e ∷ es) d audits =
    rw (decided-wait (hook.before_tool_execution (e ∷ es)) (e ∷ es) d)

verdict-wait :
    (tools : Registry) (hook : ApprovalHook) (e : Evaluated)
    → verdict tools (some (without_wait hook)) e ≡ verdict tools (some hook) e
unfolding verdict
verdict-wait tools hook e = refl

partition-wait :
    (tools : Registry) (hook : ApprovalHook) (es : List Evaluated) (parts : Parts)
    → partition tools (some (without_wait hook)) es parts ≡ partition tools (some hook) es parts
unfolding partition
partition-wait tools hook [] parts = refl
partition-wait tools hook (e ∷ es) parts =
    rw (verdict-wait tools hook e) (partition-wait tools hook es _)

-- For a hook that answers `wait` the outcome is the same as if it had answered `approve` there: the
-- calls that it has not decided are executed.
pub gate_calls-wait :
    (tools : Registry) (hook : ApprovalHook) (override : Option Tier) (calls : List Call)
    → gate_calls tools (some (without_wait hook)) override calls
      ≡ gate_calls tools (some hook) override calls
unfolding gate_calls after_partition
gate_calls-wait tools hook override calls =
    rw (partition-wait tools hook (evaluate_calls tools override calls) no_parts)
      (ask_hook-wait hook calls _ _ _)
