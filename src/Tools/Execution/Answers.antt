-- ===== src/Tools/Execution/Answers.antt =====
-- Every tool call is answered, in its own place, in whichever order the calls complete.
use mathlib.Core.Path.{subst}
use pyclaw.Prelude.{
  some_inj, ℕ, zero, suc, ◌+◌, ◌-◌, ◌≤◌, ◌<◌, ◌==◌, ◌≡◌, refl, sym, ap, ◌∙◌, Text, Bool, true,
  false, not, ◌||◌, Option, some, List, [], ◌∷◌, ◌++◌, length, get_elem?, any, All, All-append,
  All-select, All-imp, select, arith, if◌then◌else◌, Bool-cases, inl, inr, ==_iff,
}
use pyclaw.Tools.Types.{Tool, Call}
use pyclaw.Tools.Registry.{Registry}
use pyclaw.Tools.Truncation.{ToolResult}
use pyclaw.Tools.Execution.{
  Ending, dispatch_single, runs_alone, enumerate, parallel, sequential, nones, set, run_all,
  collect, execution_order, execute_tool_calls,
}

-- Whether a list has an entry with the index.
abbrev pub covers : List (ℕ × Call) → ℕ → Bool
covers ps i = any (λ (p : ℕ × Call). p.0 == i) ps

-- The event loop completes the calls that it is given and no others.
pub record IsSchedule (schedule : List (ℕ × Call) → List (ℕ × Call)) : Type 1 where
  pub all_run : (ps : List (ℕ × Call)) (i : ℕ) → covers ps i ≡ true → covers (schedule ps) i ≡ true
  pub no_others : (P : ℕ × Call → Type 0) (ps : List (ℕ × Call)) → All P ps → All P (schedule ps)

-- The answers, in the order of the calls.
abbrev pub answers : (ℕ → Call → ToolResult) → ℕ → List Call → List ToolResult
answers answer i [] = []
answers answer i (c ∷ cs) = answer i c ∷ answers answer (i + 1) cs

length-set :
    (i : ℕ) (r : ToolResult) (os : List (Option ToolResult)) → length (set i r os) ≡ length os
unfolding set
length-set i r [] = refl
length-set zero r (o ∷ os) = refl
length-set (suc i) r (o ∷ os) = ap suc (length-set i r os)

set-get_elem? :
    (i j : ℕ) (r : ToolResult) (os : List (Option ToolResult))
    → i < length os
    → get_elem? (set i r os) j ≡ (if i == j then some (some r) else get_elem? os j)
unfolding set
set-get_elem? i j r [] h = absurd (omega arith)
set-get_elem? zero zero r (o ∷ os) h = ground arith
set-get_elem? zero (suc j) r (o ∷ os) h = ground arith
set-get_elem? (suc i) zero r (o ∷ os) h = ground arith
set-get_elem? (suc i) (suc j) r (o ∷ os) h = ground (arith, set-get_elem? i j r os (omega arith))

-- An entry of `enumerate` is the call at its index, counted from the first one.
IsAt : ℕ → List Call → ℕ × Call → Type 0
IsAt k calls p = (k ≤ p.0) × (get_elem? calls (p.0 - k) ≡ some p.1)

enumerate-IsAt : (k : ℕ) (calls : List Call) → All (IsAt k calls) (enumerate k calls)
unfolding enumerate IsAt
enumerate-IsAt k [] = tt
enumerate-IsAt k (c ∷ cs) = (
  (omega arith, let here : k - k ≡ 0 = omega arith in ap (get_elem? (c ∷ cs)) here),
  All-imp
      (λ (p : ℕ × Call) (h : IsAt (k + 1) cs p).
        let back : p.0 - k ≡ suc (p.0 - (k + 1)) = omega (arith, h.0) in
        (omega (arith, h.0), ap (get_elem? (c ∷ cs)) back ∙ h.1))
      (enumerate (k + 1) cs) (enumerate-IsAt (k + 1) cs),
)

run_all-length :
    (answer : ℕ → Call → ToolResult) (ps : List (ℕ × Call)) (os : List (Option ToolResult))
    → length (run_all answer ps os) ≡ length os
unfolding run_all
run_all-length answer [] os = refl
run_all-length answer ((i, call) ∷ ps) os =
    run_all-length answer ps (set i (answer i call) os) ∙ length-set i (answer i call) os

get_elem?-lt : {A : Type 0} (xs : List A) (i : ℕ) {x : A} → get_elem? xs i ≡ some x → i < length xs
get_elem?-lt [] i h = cc
get_elem?-lt (x ∷ xs) zero h = omega arith
get_elem?-lt (x ∷ xs) (suc i) h = omega (arith, get_elem?-lt xs i h)

run_all-get_elem? :
    (answer : ℕ → Call → ToolResult) (calls : List Call) (ps : List (ℕ × Call))
    (os : List (Option ToolResult)) (j : ℕ) {c : Call}
    → All (IsAt 0 calls) ps
    → length os ≡ length calls
    → get_elem? calls j ≡ some c
    → get_elem? (run_all answer ps os) j
      ≡ (if covers ps j then some (some (answer j c)) else get_elem? os j)
unfolding run_all IsAt
run_all-get_elem? answer calls [] os j at l g = refl
run_all-get_elem? answer calls ((i, call) ∷ ps) os j {c} at l g =
    let inside : i < length os = omega (arith, get_elem?-lt calls (i - 0) (at.0.1), l) in
    let rest =
      run_all-get_elem? answer calls ps (set i (answer i call) os) j at.1
        (length-set i (answer i call) os ∙ l) g in
    let here = set-get_elem? i j (answer i call) os inside in
    elim (Bool-cases (i == j)) [
      | inl same ↦
          let is_j : i ≡ j = (==_iff i j).0 same in
          let is_c : call ≡ c =
            some_inj (sym at.0.1 ∙ ap (get_elem? calls) (omega (arith, is_j)) ∙ g) in
          let written : answer i call ≡ answer j c =
            ap (λ k. answer k call) is_j ∙ ap (answer j) is_c in
          ground (arith, rest, here, same, written)
      | inr other ↦ ground (arith, rest, here, other)
    ]

collect-answers :
    (answer : ℕ → Call → ToolResult) (k : ℕ) (calls : List Call) (os : List (Option ToolResult))
    → length os ≡ length calls
    → ((j : ℕ) (c : Call)
        → get_elem? calls j ≡ some c
        → get_elem? os j ≡ some (some (answer (k + j) c)))
    → collect os ≡ some (answers answer k calls)
unfolding collect
collect-answers answer k [] [] l h = refl
collect-answers answer k [] (o ∷ os) l h = absurd (omega (arith, l))
collect-answers answer k (c ∷ cs) [] l h = absurd (omega (arith, l))
collect-answers answer k (c ∷ cs) (o ∷ os) l h =
    let first : o ≡ some (answer k c) =
      some_inj (h 0 c refl ∙ ap (λ n. some (some (answer n c))) (omega arith)) in
    let rest =
      collect-answers answer (k + 1) cs os (omega (arith, l))
        (λ j d g. h (suc j) d g ∙ ap (λ n. some (some (answer n d))) (omega arith)) in
    rw first (rw rest refl)

covers-enumerate :
    (k : ℕ) (calls : List Call) (j : ℕ)
    → j < length calls
    → covers (enumerate k calls) (k + j) ≡ true
unfolding enumerate
covers-enumerate k [] j h = absurd (omega arith)
covers-enumerate k (c ∷ cs) zero h = ground arith
covers-enumerate k (c ∷ cs) (suc j) h =
    let rest : covers (enumerate (k + 1) cs) (k + suc j) ≡ true =
      subst (λ n. covers (enumerate (k + 1) cs) n ≡ true) (omega arith)
        (covers-enumerate (k + 1) cs j (omega arith)) in
    ground (arith, rest)

covers-append :
    (ps qs : List (ℕ × Call)) (j : ℕ) → covers (ps ++ qs) j ≡ (covers ps j || covers qs j)
covers-append [] qs j = refl
covers-append (p ∷ ps) qs j = ground (arith, covers-append ps qs j)

covers-select :
    (alone : ℕ × Call → Bool) (ps : List (ℕ × Call)) (j : ℕ)
    → covers ps j ≡ true
    → covers (select alone ps) j ≡ false
    → covers (select (λ p. not (alone p)) ps) j ≡ true
covers-select alone [] j h n = cc
covers-select alone (p ∷ ps) j h n = ground (arith, covers-select alone ps j)

zero_add : (n : ℕ) → 0 + n ≡ n
zero_add n = omega arith

nones-length : (n : ℕ) → length (nones n) ≡ n
unfolding nones
nones-length zero = refl
nones-length (suc n) = ap suc (nones-length n)

-- Every call is among those that complete.
execution_order-covers :
    (schedule : List (ℕ × Call) → List (ℕ × Call)) (tools : Registry) (calls : List Call) (j : ℕ)
    → IsSchedule schedule
    → j < length calls
    → covers (execution_order schedule tools calls) j ≡ true
unfolding execution_order parallel sequential
execution_order-covers schedule tools calls j s h =
    let all = enumerate 0 calls in
    let alone : ℕ × Call → Bool = λ p. runs_alone tools p.1 in
    let there : covers all j ≡ true =
      subst (λ n. covers all n ≡ true) (zero_add j) (covers-enumerate 0 calls j h) in
    covers-append (schedule (select (λ p. not (alone p)) all)) (select alone all) j
    ∙ elim (Bool-cases (covers (select alone all) j)) [
      | inl one ↦ ground (arith, one)
      | inr other ↦ ground (
        arith,
        s.all_run (select (λ p. not (alone p)) all) j (covers-select alone all j there other),
      )
    ]

execution_order-IsAt :
    (schedule : List (ℕ × Call) → List (ℕ × Call)) (tools : Registry) (calls : List Call)
    → IsSchedule schedule
    → All (IsAt 0 calls) (execution_order schedule tools calls)
unfolding execution_order parallel sequential
execution_order-IsAt schedule tools calls s =
    let all = enumerate 0 calls in
    let alone : ℕ × Call → Bool = λ p. runs_alone tools p.1 in
    let at = enumerate-IsAt 0 calls in
    All-append (IsAt 0 calls) (schedule (select (λ p. not (alone p)) all)) (select alone all)
      (s.no_others (IsAt 0 calls) (select (λ p. not (alone p)) all)
        (All-select (IsAt 0 calls) (λ p. not (alone p)) all at))
      (All-select (IsAt 0 calls) alone all at)

-- In whichever order the event loop completes the calls that run together, `execute_tool_calls` fails no
-- assertion and gives one result for each call, in the order of the calls: the one of the dispatch of that call.
pub execute_tool_calls-answers :
    (repr : Text → Text) (execute : ℕ → Tool → Call → Ending)
    (schedule : List (ℕ × Call) → List (ℕ × Call)) (tools : Registry) (calls : List Call)
    → IsSchedule schedule
    → execute_tool_calls repr execute schedule tools calls
      ≡ some (answers (λ i call. dispatch_single repr (execute i) tools call) 0 calls)
unfolding execute_tool_calls
execute_tool_calls-answers repr execute schedule tools calls s =
    let answer : ℕ → Call → ToolResult = λ i call. dispatch_single repr (execute i) tools call in
    let order = execution_order schedule tools calls in
    let size = nones-length (length calls) in
    collect-answers answer 0 calls (run_all answer order (nones (length calls)))
      (run_all-length answer order (nones (length calls)) ∙ size)
      (λ j c g.
        let covered = execution_order-covers schedule tools calls j s (get_elem?-lt calls j g) in
        let read =
          run_all-get_elem? answer calls order (nones (length calls)) j
            (execution_order-IsAt schedule tools calls s) size g in
        rw covered at read ∙ ap (λ n. some (some (answer n c))) (sym (zero_add j)))
