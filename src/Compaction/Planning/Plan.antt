-- ===== src/Compaction/Planning/Plan.antt =====
-- What a plan promises to the context engine that carries it out.
use pyclaw.Prelude.{
  ℕ, ◌+◌, ◌≤◌, ◌<◌, ◌≡◌, refl, sym, ap, ◌∙◌, true, false, Option, none, some, List, take, drop,
  take-append-drop, arith, leb, leb→le, leb→lt, if_elim, ◌++◌, [], ◌∷◌,
}
use pyclaw.Messages.{LlmMessage}
use pyclaw.Compaction.Planning.{
  estimate_messages_tokens, find_cut_point, CompactionPlan, plan_at, plan_compaction,
}
use pyclaw.Compaction.Planning.Cut.{IsSafeCut, IsGreatestCut, find_cut_point-IsGreatestCut}

pub estimate_messages_tokens-append :
    (ms ns : List LlmMessage)
    → estimate_messages_tokens (ms ++ ns)
      ≡ estimate_messages_tokens ms + estimate_messages_tokens ns
unfolding estimate_messages_tokens
estimate_messages_tokens-append [] ns = omega arith
estimate_messages_tokens-append (m ∷ ms) ns = omega (arith, estimate_messages_tokens-append ms ns)

-- What a plan with the cut index says of the messages.
abbrev pub HasCut : (budget keep : ℕ) → List LlmMessage → CompactionPlan → Option ℕ → Type 0
HasCut budget keep messages plan none =
    (plan.should_compact ≡ false)
    × (budget < estimate_messages_tokens messages → (j : ℕ) → IsSafeCut keep messages j → ⊥)
HasCut budget keep messages plan (some cut) =
    (plan.should_compact ≡ true)
    × (budget < estimate_messages_tokens messages)
    × IsSafeCut keep messages cut
    × (estimate_messages_tokens (take cut messages) + plan.kept_tokens
        ≡ estimate_messages_tokens messages)
    × (keep ≤ plan.kept_tokens)

abbrev pub IsPlan : (budget keep : ℕ) → List LlmMessage → CompactionPlan → Type 0
IsPlan budget keep messages plan =
    (plan.estimated_tokens ≡ estimate_messages_tokens messages)
    × HasCut budget keep messages plan plan.cut_index

plan_at-IsPlan :
    (budget keep : ℕ) (messages : List LlmMessage) (cut : Option ℕ)
    → budget < estimate_messages_tokens messages
    → IsGreatestCut keep messages cut
    → IsPlan budget keep messages (plan_at (estimate_messages_tokens messages) messages cut)
unfolding plan_at
plan_at-IsPlan budget keep messages none over g = (refl, (refl, λ _. g))
plan_at-IsPlan budget keep messages (some c) over (safe, greatest) = (
  refl,
  (
    refl,
    over,
    safe,
    sym (estimate_messages_tokens-append (take c messages) (drop c messages))
        ∙ ap estimate_messages_tokens (take-append-drop c messages),
    safe.enough,
  ),
)

-- A plan compacts exactly if the messages are over the budget and have a safe cut. It then cuts at a safe
-- place, and the tokens of the two sides of the cut are those of all messages.
pub plan_compaction-IsPlan :
    (budget keep : ℕ) (messages : List LlmMessage)
    → IsPlan budget keep messages (plan_compaction budget keep messages)
unfolding plan_compaction
plan_compaction-IsPlan budget keep messages =
    if_elim (IsPlan budget keep messages) (leb (estimate_messages_tokens messages) budget)
      (λ within. (refl, (refl, λ over. absurd (omega (arith, leb→le _ budget within)))))
      (λ over.
        plan_at-IsPlan budget keep messages (find_cut_point keep messages) (leb→lt _ budget over)
          (find_cut_point-IsGreatestCut keep messages))
