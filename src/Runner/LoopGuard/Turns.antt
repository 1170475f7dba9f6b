-- ===== src/Runner/LoopGuard/Turns.antt =====
-- What the counter of unknown tools does over the turns of a run.
use pyclaw.Prelude.{
  ℕ, zero, suc, ◌≤◌, ◌<◌, Text, ◌≡◌, refl, ap, ◌∙◌, true, false, Option, none, some, List, [], ◌∷◌,
  map, arith, text_eq_refl, leb, if◌then◌else◌, le→leb, lt→leb,
}
use pyclaw.Tools.Types.{Call}
use pyclaw.Tools.Registry.{Registry}
use pyclaw.Runner.LoopGuard.{
  LoopAction, proceed, warn, terminate, LoopState, reset, unknown_names, count_unknown, after_names,
  update_tool_loop_state, guidance,
}

abbrev pub next : List Call → Registry → ℕ → LoopState → LoopState
next calls tools threshold s = (update_tool_loop_state calls tools s threshold).0

abbrev pub action : List Call → Registry → ℕ → LoopState → LoopAction
action calls tools threshold s = (update_tool_loop_state calls tools s threshold).1

-- The state after `k` turns that make the same calls.
unfoldable pub turns : List Call → Registry → ℕ → ℕ → LoopState
turns calls tools threshold zero = reset
turns calls tools threshold (suc k) = next calls tools threshold (turns calls tools threshold k)

-- A turn none of whose calls names an unknown tool ends the count.
pub update-known :
    (calls : List Call) (tools : Registry) (s : LoopState) (threshold : ℕ)
    → unknown_names tools (map (λ c. c.name) calls) ≡ []
    → update_tool_loop_state calls tools s threshold ≡ (reset, proceed, none)
unfolding update_tool_loop_state
update-known calls tools s zero h = refl
update-known [] tools s (suc n) h = refl
update-known (c ∷ calls) tools s (suc n) h = rw (h, after_names)

update-count_unknown :
    (calls : List Call) (tools : Registry) (u : Text) (rest : List Text) (n : ℕ) (s : LoopState)
    → unknown_names tools (map (λ c. c.name) calls) ≡ u ∷ rest
    → update_tool_loop_state calls tools s (suc n) ≡ count_unknown tools u s (suc n)
unfolding update_tool_loop_state
update-count_unknown [] tools u rest n s h = unfold unknown_names in cc h
update-count_unknown (c ∷ calls) tools u rest n s h = rw (h, after_names)

-- The outcome of one turn for the threshold `suc n`, when the first unknown name is the counted one.
counted_again :
    (tools : Registry) (u : Text) (n k : ℕ)
    → count_unknown tools u (record { unknown = some u; count = k; warned = false }) (suc n) ≡ (
        if leb (suc n) (suc k)
        then (
          record { unknown = some u; count = suc k; warned = true },
          warn,
          some (guidance u tools),
        )
        else (record { unknown = some u; count = suc k; warned = false }, proceed, none))
unfolding count_unknown
counted_again tools u n k = ground (arith, text_eq_refl u)

counted_first :
    (tools : Registry) (u : Text) (n : ℕ)
    → count_unknown tools u reset (suc n) ≡ (
        if leb (suc n) 1
        then (record { unknown = some u; count = 1; warned = true }, warn, some (guidance u tools))
        else (record { unknown = some u; count = 1; warned = false }, proceed, none))
unfolding count_unknown
counted_first tools u n = ground arith

module _ (calls : List Call) (tools : Registry) (u : Text) (rest : List Text) (n : ℕ)
    (first : unknown_names tools (map (λ c. c.name) calls) ≡ u ∷ rest) where
  -- One more turn, by the counting step alone.
  next-count_unknown :
      (s : LoopState) → next calls tools (suc n) s ≡ (count_unknown tools u s (suc n)).0
  next-count_unknown s =
      ap (λ (r : LoopState × LoopAction × Option Text). r.0)
        (update-count_unknown calls tools u rest n s first)

  action-count_unknown :
      (s : LoopState) → action calls tools (suc n) s ≡ (count_unknown tools u s (suc n)).1
  action-count_unknown s =
      ap (λ (r : LoopState × LoopAction × Option Text). r.1)
        (update-count_unknown calls tools u rest n s first)

  -- Within the threshold each turn adds one to the count, and the last of them warns.
  turns_counting :
      (k : ℕ)
      → k ≤ n
      → turns calls tools (suc n) (suc k)
        ≡ record { unknown = some u; count = suc k; warned = leb (suc n) (suc k) }
  unfolding turns
  turns_counting zero h = next-count_unknown reset ∙ ground (arith, counted_first tools u n)
  turns_counting (suc k) h =
      next-count_unknown (turns calls tools (suc n) (suc k))
      ∙ rw (turns_counting k (omega arith), lt→leb (suc n) (suc k) (omega arith))
          (ground (arith, counted_again tools u n (suc k)))

  outcome :
      (k : ℕ)
      → k ≤ n
      → (count_unknown tools u (turns calls tools (suc n) k) (suc n)).1
        ≡ (if leb (suc n) (suc k) then warn else proceed)
  unfolding turns
  outcome zero h = ground (arith, counted_first tools u n)
  outcome (suc k) h =
      rw (turns_counting k (omega arith), lt→leb (suc n) (suc k) (omega arith))
        (ground (arith, counted_again tools u n (suc k)))

  after_warning : (count_unknown tools u (turns calls tools (suc n) (suc n)) (suc n)).1 ≡ terminate
  unfolding count_unknown
  after_warning = rw (turns_counting n (omega arith)) (ground (arith, text_eq_refl u))

  -- The turns after a reset that all call an unknown tool, the same one first: for the threshold
  -- `n + 1` the first `n` of them proceed, the next one warns, and the one after the warning
  -- terminates the run.
  pub turns-action :
      ((k : ℕ) → k < n → action calls tools (suc n) (turns calls tools (suc n) k) ≡ proceed)
      × (action calls tools (suc n) (turns calls tools (suc n) n) ≡ warn)
      × (action calls tools (suc n) (turns calls tools (suc n) (suc n)) ≡ terminate)
  turns-action = (
    λ k h.
        action-count_unknown (turns calls tools (suc n) k)
        ∙ outcome k (omega arith)
        ∙ rw (lt→leb (suc n) (suc k) (omega arith)),
    action-count_unknown (turns calls tools (suc n) n)
        ∙ outcome n (omega arith)
        ∙ rw (le→leb (suc n) (suc n) (omega arith)),
    action-count_unknown (turns calls tools (suc n) (suc n)) ∙ after_warning,
  )
