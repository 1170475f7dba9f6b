-- ===== src/Runner/Gate/Safety.antt =====
-- What reaches execution, and that every call of a response is answered.
use mathlib.Core.List.{Perm, perm_middle}
use mathlib.Core.List.Perm
use mathlib.Core.Option
use pyclaw.Prelude.{
  Text, ◌≡◌, ap, sym, ◌∙◌, ◌≢◌, true, false, not, Option, none, some, List, [], ◌∷◌, ◌++◌, map,
  arith, All, All-of_map, All-imp, All-select_of, Bool-cases, inl, inr, Option-cases, text_key,
}
use pyclaw.Prelude.Dict
use pyclaw.Prelude.Dict.{Dict}
use pyclaw.Tools.Types.{Tier, read_only, write, Tool, Call}
use pyclaw.Tools.Registry
use pyclaw.Tools.Registry.{Registry}
use pyclaw.Runner.Gate.{
  Evaluated, ApprovalHook, Verdict, Parts, no_parts, rank, evaluate_call, evaluate_calls, is_write,
  verdict, partition, deny_without_hook, decided, Decision, Outcome, kept_calls, denial_results,
  finish, ask_hook, after_partition, gate_calls, turn_tier, turn_source,
}
use pyclaw.Runner.Gate.Tiers.{call-evaluate_call}
use pyclaw.Runner.Gate.Denials.{
  IsDenied, is_auto_deny, partition-denies, deny_without_hook-IsDenied, apply_decisions-IsDenied,
}

-- The entries of `denied_ids` at the end decide what runs and what is answered at once.
pub record Finished (calls : List Call) (parts : Parts) (out : Outcome) : Type 0 where
  pub denied : Dict Text Text
  pub executed : out.executed ≡ kept_calls denied calls
  pub denials : out.denials ≡ denial_results denied calls
  pub grows : (id : Text) → IsDenied parts.denied id → IsDenied denied id

decided-IsDenied :
    (ds : Option (List Decision)) (es : List Evaluated) (d : Dict Text Text) (id : Text)
    {d' : Dict Text Text}
    → decided ds es d ≡ some d'
    → IsDenied d id
    → IsDenied d' id
unfolding decided
decided-IsDenied none es d id e h = cc
decided-IsDenied (some ds) es d id e h = apply_decisions-IsDenied ds es d id e h

module _ (calls : List Call) {out : Outcome} where
  ask_hook-Finished :
      (hook : ApprovalHook) (parts : Parts) (gated : List Evaluated)
      → ask_hook hook calls gated parts.denied parts.audits ≡ some out
      → Finished calls parts out
  unfolding ask_hook finish
  ask_hook-Finished hook parts [] h = record {
    denied = parts.denied;
    executed = ground arith;
    denials = ground arith;
    grows = λ id d. d;
  }
  ask_hook-Finished hook parts (e ∷ es) h =
      elim (Option-cases (decided (hook.before_tool_execution (e ∷ es)) (e ∷ es) parts.denied)) [
        | inl q ↦ cc (ap (Option.map (λ d. finish calls (e ∷ es) d parts.audits)) q)
        | inr (d, q) ↦ record {
          denied = d;
          executed = ground arith;
          denials = ground arith;
          grows = λ id k. decided-IsDenied _ (e ∷ es) parts.denied id q k;
        }
      ]

  pub after_partition-Finished :
      (hook : Option ApprovalHook) (parts : Parts)
      → after_partition hook calls parts ≡ some out
      → Finished calls parts out
  unfolding after_partition finish
  after_partition-Finished none parts h = record {
    denied = (deny_without_hook parts.gated parts).denied;
    executed = ground arith;
    denials = ground arith;
    grows = λ id d. deny_without_hook-IsDenied parts.gated parts id d;
  }
  after_partition-Finished (some hook) parts h = ask_hook-Finished hook parts parts.gated h

-- What holds of each call that has no entry in `denied_ids` holds of what is executed.
pub kept_calls-All :
    (d : Dict Text Text) (P : Call → Type 0) (calls : List Call)
    → All (λ c. Dict.has d c.id ≡ false → P c) calls
    → All P (kept_calls d calls)
unfolding kept_calls
kept_calls-All d P calls h =
    All-select_of P (λ c. not (Dict.has d c.id)) calls (All-imp (λ c k t. k (ground arith)) calls h)

-- The verdict on a call, and whether it denies the call without a question.
abbrev pub verdict_of : Registry → Option ApprovalHook → Option Tier → Call → Verdict
verdict_of tools hook override c =
    verdict tools hook (evaluate_call tools (turn_tier override) (turn_source override) c)

not_denied :
    (tools : Registry) (hook : Option ApprovalHook) (d : Dict Text Text) (e : Evaluated) (c : Call)
    → e.call ≡ c
    → (is_auto_deny (verdict tools hook e) ≡ true → IsDenied d e.call.id)
    → Dict.has d c.id ≡ false
    → is_auto_deny (verdict tools hook e) ≡ false
not_denied tools hook d e c q h k = elim (Bool-cases (is_auto_deny (verdict tools hook e))) [
  | inl t ↦ cc (h t, ap (λ (c : Call). Dict.has d c.id) q)
  | inr f ↦ f
]

-- No call is executed that the gate denies without a question.
pub executed-not_denied :
    (tools : Registry) (hook : Option ApprovalHook) (override : Option Tier) (calls : List Call)
    {out : Outcome}
    → gate_calls tools hook override calls ≡ some out
    → All (λ c. is_auto_deny (verdict_of tools hook override c) ≡ false) out.executed
unfolding gate_calls evaluate_calls
executed-not_denied tools hook override calls h =
    let evaluate = evaluate_call tools (turn_tier override) (turn_source override) in
    let parts = partition tools hook (map evaluate calls) no_parts in
    let f = after_partition-Finished calls hook parts h in
    rw f.executed (
      kept_calls-All f.denied _ calls (
        All-imp
          (λ c k.
            not_denied tools hook f.denied (evaluate c) c
              (call-evaluate_call tools (turn_tier override) (turn_source override) c)
              (λ t. f.grows _ (k t)))
          calls
          (All-of_map _ evaluate calls
            (partition-denies tools hook (map evaluate calls) no_parts))))

read_only-verdict :
    (tools : Registry) (hook : Option ApprovalHook) (c : Call)
    → is_auto_deny (verdict_of tools hook (some read_only) c) ≡ is_write (Registry.get tools c.name)
unfolding verdict evaluate_call rank turn_tier turn_source
read_only-verdict tools hook c = ground arith

-- A tool that is registered and is not of the class `write`.
abbrev pub IsHarmless : Registry → Call → Type 0
IsHarmless tools c =
    (tool : Tool) × (Registry.get tools c.name ≡ some tool)
    × (tool.tool_class ≢ none)
    × (tool.tool_class ≢ some write)

IsHarmless-of :
    (tools : Registry) (c : Call)
    → is_write (Registry.get tools c.name) ≡ false
    → IsHarmless tools c
unfolding is_write
IsHarmless-of tools c h = elim (Option-cases (Registry.get tools c.name)) [
  | inl e ↦ cc (ap is_write e)
  | inr (tool, e) ↦ (tool, e, λ k. ground arith, λ k. ground arith)
]

-- In a turn under the read-only tier, whatever the hook and the servers' settings, every call that is
-- executed is of a registered tool that has a class, and not the class `write`.
pub read_only-IsHarmless :
    (tools : Registry) (hook : Option ApprovalHook) (calls : List Call) {out : Outcome}
    → gate_calls tools hook (some read_only) calls ≡ some out
    → All (IsHarmless tools) out.executed
read_only-IsHarmless tools hook calls {out} h =
    All-imp (λ c k. IsHarmless-of tools c (sym (read_only-verdict tools hook c) ∙ k)) out.executed
      (executed-not_denied tools hook (some read_only) calls h)

denial_results-some :
    (d : Dict Text Text) (c : Call) (cs : List Call) {m : Text}
    → Dict.get d c.id ≡ some m
    → denial_results d (c ∷ cs) ≡ (c.id, m) ∷ denial_results d cs
unfolding denial_results
denial_results-some d c cs h = ground arith

denial_results-none :
    (d : Dict Text Text) (c : Call) (cs : List Call)
    → Dict.get d c.id ≡ none
    → denial_results d (c ∷ cs) ≡ denial_results d cs
unfolding denial_results
denial_results-none d c cs h = ground arith

answered :
    (d : Dict Text Text) (calls : List Call)
    → Perm
        (map (λ r. r.0) (denial_results d calls) ++ map (λ c. c.id) (kept_calls d calls))
        (map (λ c. c.id) calls)
unfolding denial_results kept_calls
answered d [] = Perm.refl []
answered d (c ∷ cs) = elim (Bool-cases (Dict.has d c.id)) [
  | inl e ↦
      let (m, q) = Dict.has-get-some d c.id e in
      rw (denial_results-some d c cs q, e) (Perm.cons c.id (answered d cs))
  | inr e ↦
      rw (denial_results-none d c cs (Dict.has-get d c.id e), e)
        (Perm.trans (perm_middle _ _) (Perm.cons c.id (answered d cs)))
]

-- Every call is answered once: the ids of the results that stand for denied calls, with those of the
-- calls that are executed, are the ids of the calls of the response, each as often as it stands there.
pub gate_calls-answered :
    (tools : Registry) (hook : Option ApprovalHook) (override : Option Tier) (calls : List Call)
    {out : Outcome}
    → gate_calls tools hook override calls ≡ some out
    → Perm (map (λ r. r.0) out.denials ++ map (λ c. c.id) out.executed) (map (λ c. c.id) calls)
unfolding gate_calls
gate_calls-answered tools hook override calls h =
    let f = after_partition-Finished calls hook _ h in
    rw (f.executed, f.denials) (answered f.denied calls)
