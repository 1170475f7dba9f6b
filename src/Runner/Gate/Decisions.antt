-- ===== src/Runner/Gate/Decisions.antt =====
-- Which calls are put to the approval hook, and what its decisions do.
use mathlib.Core.Option
use mathlib.Core.Path.{subst}
use mathlib.Core.List.{append-nil, append_assoc}
use pyclaw.Prelude.{
  ℕ, suc, ◌+◌, Text, ◌≡◌, refl, ap, sym, ◌∙◌, ◌≢◌, Bool, true, false, Option, none, some, List, [],
  ◌∷◌, ◌++◌, map, arith, All, All-of_map, All-imp, All-of_select, All-forall, Bool-cases,
  Option-cases, inl, inr, length, length-append, length-map, select, text_key, if◌then◌else◌,
  get_elem?,
}
use pyclaw.Prelude.Dict
use pyclaw.Prelude.Dict.{Dict}
use pyclaw.Tools.Types.{Tier, approval, Call}
use pyclaw.Tools.Registry.{Registry}
use pyclaw.Runner.Gate.{
  Decision, approve, deny, Evaluated, ApprovalHook, Verdict, auto_approve, auto_deny, gate, Parts,
  no_parts, Audit, audit, auto_no_hook, no_hook_message, evaluate_call, evaluate_calls, verdict,
  record_verdict, partition, deny_without_hook, decided, apply_decisions, Outcome, kept_calls,
  finish, ask_hook, after_partition, gate_calls, turn_tier, turn_source,
}
use pyclaw.Runner.Gate.Tiers.{call-evaluate_call}
use pyclaw.Runner.Gate.Denials.{IsDenied, deny_without_hook-denies, apply_decisions-denies}
use pyclaw.Runner.Gate.Safety.{verdict_of, kept_calls-All}

abbrev pub is_gate : Verdict → Bool
is_gate gate = true
is_gate _ = false

record_verdict-gated :
    (e : Evaluated) (v : Verdict) (parts : Parts)
    → (record_verdict e v parts).gated ≡ (if is_gate v then parts.gated ++ e ∷ [] else parts.gated)
unfolding record_verdict
record_verdict-gated e (auto_approve by) parts = refl
record_verdict-gated e (auto_deny m by) parts = refl
record_verdict-gated e gate parts = refl

-- The gated calls are those with the verdict `gate`, in order.
partition-gated :
    (tools : Registry) (hook : Option ApprovalHook) (es : List Evaluated) (parts : Parts)
    → (partition tools hook es parts).gated
      ≡ parts.gated ++ select (λ e. is_gate (verdict tools hook e)) es
unfolding partition
partition-gated tools hook [] parts = sym (append-nil parts.gated)
partition-gated tools hook (e ∷ es) parts =
    let v = verdict tools hook e in
    partition-gated tools hook es (record_verdict e v parts)
    ∙ rw (record_verdict-gated e v parts) (elim (Bool-cases (is_gate v)) [
      | inl g ↦
          rw g (append_assoc parts.gated (e ∷ []) (select (λ e. is_gate (verdict tools hook e)) es))
      | inr g ↦ rw g
    ])

record_verdict-audits :
    (e : Evaluated) (v : Verdict) (parts : Parts)
    → length (record_verdict e v parts).audits + length (record_verdict e v parts).gated
      ≡ suc (length parts.audits + length parts.gated)
unfolding record_verdict
record_verdict-audits e (auto_approve by) parts =
    omega (arith, length-append parts.audits (audit e e.call_tier approve by ∷ []))
record_verdict-audits e (auto_deny m by) parts =
    omega (arith, length-append parts.audits (audit e e.call_tier deny by ∷ []))
record_verdict-audits e gate parts = omega (arith, length-append parts.gated (e ∷ []))

partition-audits :
    (tools : Registry) (hook : Option ApprovalHook) (es : List Evaluated) (parts : Parts)
    → length (partition tools hook es parts).audits + length (partition tools hook es parts).gated
      ≡ length es + (length parts.audits + length parts.gated)
unfolding partition
partition-audits tools hook [] parts = omega arith
partition-audits tools hook (e ∷ es) parts =
    let v = verdict tools hook e in
    omega (
      arith,
      partition-audits tools hook es (record_verdict e v parts),
      record_verdict-audits e v parts,
    )

deny_without_hook-audits :
    (es : List Evaluated) (parts : Parts)
    → length (deny_without_hook es parts).audits ≡ length es + length parts.audits
unfolding deny_without_hook
deny_without_hook-audits [] parts = omega arith
deny_without_hook-audits (e ∷ es) parts = omega (
  arith,
  deny_without_hook-audits es (record parts {
    denied = Dict.put parts.denied e.call.id (no_hook_message e.canonical_name);
    audits = parts.audits ++ audit e approval deny auto_no_hook ∷ [];
  }),
  length-append parts.audits (audit e approval deny auto_no_hook ∷ []),
)

-- What is asked of the hook and what is audited, at the end.
record Asked (gated : List Evaluated) (audits : List Audit) (out : Outcome) : Type 0 where
  requests : out.requests ≡ gated
  kept : out.audits ≡ audits

ask_hook-Asked :
    (hook : ApprovalHook) (calls : List Call) (gated : List Evaluated) (denied : Dict Text Text)
    (audits : List Audit) {out : Outcome}
    → ask_hook hook calls gated denied audits ≡ some out
    → Asked gated audits out
unfolding ask_hook finish
ask_hook-Asked hook calls [] denied audits h = record {
  requests = ground arith;
  kept = ground arith;
}
ask_hook-Asked hook calls (e ∷ es) denied audits h =
    elim (Option-cases (decided (hook.before_tool_execution (e ∷ es)) (e ∷ es) denied)) [
      | inl q ↦ cc (ap (Option.map (λ d. finish calls (e ∷ es) d audits)) q)
      | inr (d, q) ↦ record { requests = ground arith; kept = ground arith }
    ]

module _ (tools : Registry) (override : Option Tier) (calls : List Call) {out : Outcome} where
  -- With a hook, the calls that it is asked about are those with the verdict `gate`, in order.
  pub requests-gate_calls :
      (hook : ApprovalHook)
      → gate_calls tools (some hook) override calls ≡ some out
      → out.requests
        ≡ select (λ e. is_gate (verdict tools (some hook) e)) (evaluate_calls tools override calls)
  unfolding gate_calls after_partition
  requests-gate_calls hook h =
      let es = evaluate_calls tools override calls in
      (ask_hook-Asked hook calls _ _ _ h).requests ∙ partition-gated tools (some hook) es no_parts

  -- Each call leaves one record: an audit record of the runner, or a request to the hook.
  pub gate_calls-audited :
      (hook : Option ApprovalHook)
      → gate_calls tools hook override calls ≡ some out
      → length out.audits + length out.requests ≡ length calls
  unfolding gate_calls after_partition finish evaluate_calls
  gate_calls-audited none h =
      let es = map (evaluate_call tools (turn_tier override) (turn_source override)) calls in
      let parts = partition tools none es no_parts in
      ground (
        arith,
        h,
        deny_without_hook-audits parts.gated parts,
        partition-audits tools none es no_parts,
        length-map (evaluate_call tools (turn_tier override) (turn_source override)) calls,
      )
  gate_calls-audited (some hook) h =
      let es = map (evaluate_call tools (turn_tier override) (turn_source override)) calls in
      let a = ask_hook-Asked hook calls _ _ _ h in
      rw (a.requests, a.kept)
        (omega (
          arith,
          partition-audits tools (some hook) es no_parts,
          length-map (evaluate_call tools (turn_tier override) (turn_source override)) calls,
        ))

not_has-ne :
    (d : Dict Text Text) (c : Call) (id : Text)
    → IsDenied d id
    → Dict.has d c.id ≡ false
    → c.id ≢ id
not_has-ne d c id h k e = cc (ap (Dict.has d) e)

not_gated :
    (tools : Registry) (hook : Option ApprovalHook) (d : Dict Text Text) (e : Evaluated) (c : Call)
    → e.call ≡ c
    → (is_gate (verdict tools hook e) ≡ true → IsDenied d e.call.id)
    → Dict.has d c.id ≡ false
    → is_gate (verdict tools hook e) ≡ false
not_gated tools hook d e c q h k = elim (Bool-cases (is_gate (verdict tools hook e))) [
  | inl t ↦ cc (h t, ap (λ (c : Call). Dict.has d c.id) q)
  | inr f ↦ f
]

deny_at :
    (hook : ApprovalHook) (calls : List Call) (decisions : List Decision) (i : ℕ)
    (gated : List Evaluated) (denied : Dict Text Text) (audits : List Audit) {out : Outcome}
    {g : Evaluated}
    → ask_hook hook calls gated denied audits ≡ some out
    → hook.before_tool_execution gated ≡ some decisions
    → get_elem? gated i ≡ some g
    → get_elem? decisions i ≡ some deny
    → All (λ c. c.id ≢ g.call.id) out.executed
unfolding ask_hook finish decided
deny_at hook calls decisions i [] denied audits h asked at d = cc
deny_at hook calls decisions i (e ∷ es) denied audits {out} {g} h asked at d =
    elim (Option-cases (apply_decisions decisions (e ∷ es) denied)) [
      | inl q ↦ absurd (ground arith)
      | inr (all, q) ↦
          let executed : out.executed ≡ kept_calls all calls = ground arith in
          rw executed (
            kept_calls-All all _ calls (
              All-forall _
                (λ c.
                  not_has-ne all c g.call.id
                    (apply_decisions-denies decisions (e ∷ es) denied i q at d))
                calls))
    ]

-- A call is not executed that is gated where no hook is configured: the settings of its server force
-- the approval tier.
pub no_hook-denies :
    (tools : Registry) (override : Option Tier) (calls : List Call) {out : Outcome}
    → gate_calls tools none override calls ≡ some out
    → All (λ c. is_gate (verdict_of tools none override c) ≡ false) out.executed
unfolding gate_calls after_partition finish evaluate_calls
no_hook-denies tools override calls {out} h =
    let evaluate = evaluate_call tools (turn_tier override) (turn_source override) in
    let parts = partition tools none (map evaluate calls) no_parts in
    let denied = (deny_without_hook parts.gated parts).denied in
    let executed : out.executed ≡ kept_calls denied calls = ground arith in
    let all_denied = deny_without_hook-denies parts.gated parts in
    let gated_denied : All (λ e. is_gate (verdict tools none e) ≡ true → IsDenied denied e.call.id)
        (map evaluate calls) =
      All-of_select (λ e. IsDenied denied e.call.id) (λ e. is_gate (verdict tools none e))
        (map evaluate calls)
        (subst (All (λ (e : Evaluated). IsDenied denied e.call.id))
          (partition-gated tools none (map evaluate calls) no_parts) all_denied) in
    rw executed (
      kept_calls-All denied _ calls (
        All-imp
          (λ c k.
            not_gated tools none denied (evaluate c) c
              (call-evaluate_call tools (turn_tier override) (turn_source override) c) k)
          calls (All-of_map _ evaluate calls gated_denied)))

-- A call is not executed if the hook answers `deny` at its place among the calls that it is asked
-- about, nor is any other call of the response with the same id.
pub deny-not_executed :
    (tools : Registry) (hook : ApprovalHook) (override : Option Tier) (calls : List Call)
    (decisions : List Decision) (i : ℕ) {out : Outcome} {g : Evaluated}
    → gate_calls tools (some hook) override calls ≡ some out
    → hook.before_tool_execution out.requests ≡ some decisions
    → get_elem? out.requests i ≡ some g
    → get_elem? decisions i ≡ some deny
    → All (λ c. c.id ≢ g.call.id) out.executed
unfolding gate_calls after_partition
deny-not_executed tools hook override calls decisions i {out} {g} h asked at denied =
    let a = ask_hook-Asked hook calls _ _ _ h in
    deny_at hook calls decisions i _ _ _ h (rw a.requests at asked) (rw a.requests at at) denied
