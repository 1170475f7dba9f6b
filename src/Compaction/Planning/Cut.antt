-- ===== src/Compaction/Planning/Cut.antt =====
-- `find_cut_point` finds the greatest cut that is safe: what it keeps has enough tokens and does not begin
-- with the result of a tool.
use mathlib.Core.Path.{subst}
use pyclaw.Prelude.{
  some_inj, ltb, ltb→lt, ltb→le, ℕ, zero, suc, ◌+◌, ◌≤◌, ◌<◌, ◌≡◌, refl, true, false, Option, none,
  some, List, [], ◌∷◌, length, drop, arith, if◌then◌else◌, leb, leb→le, leb→lt, Bool-cases, inl,
  inr,
}
use pyclaw.Messages.{LlmMessage}
use pyclaw.Compaction.Planning.{
  estimate_messages_tokens, tokens_at, is_tool_at, cut_loop, skip_tools, skip_calls,
  adjust_for_tool_boundaries, adjusted, positive, find_cut_point,
}

-- The tokens of what a cut keeps.
abbrev pub kept : List LlmMessage → ℕ → ℕ
kept messages i = estimate_messages_tokens (drop i messages)

-- A cut after the first message and before the end, which keeps enough and does not part a tool's result from
-- its call.
pub record IsSafeCut (keep : ℕ) (messages : List LlmMessage) (i : ℕ) : Type 0 where
  pub positive : 0 < i
  pub inside : i < length messages
  pub enough : keep ≤ estimate_messages_tokens (drop i messages)
  pub no_tool : is_tool_at messages i ≡ false

kept-suc :
    (messages : List LlmMessage) (i : ℕ)
    → i < length messages
    → kept messages i ≡ tokens_at messages i + kept messages (suc i)
unfolding tokens_at estimate_messages_tokens
kept-suc [] i h = absurd (omega arith)
kept-suc (m ∷ ms) zero h = refl
kept-suc (m ∷ ms) (suc i) h = kept-suc ms i (omega arith)

kept-length : (messages : List LlmMessage) → kept messages (length messages) ≡ 0
unfolding estimate_messages_tokens
kept-length [] = refl
kept-length (m ∷ ms) = kept-length ms

-- What holds below a bound and at it holds below the next.
below_suc : (n : ℕ) (P : ℕ → Type 0) → ((j : ℕ) → j < n → P j) → P n → (j : ℕ) → j < suc n → P j
below_suc n P below at j l = elim (Bool-cases (ltb j n)) [
  | inl t ↦ below j (ltb→lt j n t)
  | inr f ↦ subst P (omega (arith, ltb→le j n f)) at
]

-- Above the index that the loop finds, too little is kept.
cut_loop-some :
    (messages : List LlmMessage) (keep n : ℕ) {i : ℕ}
    → n ≤ length messages
    → cut_loop messages keep n (kept messages n) ≡ some i
    → (i < n) × (keep ≤ kept messages i) × ((j : ℕ) → i < j → j < n → kept messages j < keep)
unfolding cut_loop
cut_loop-some messages keep zero h e = absurd (ground (arith, e))
cut_loop-some messages keep (suc n) {i} h e =
    let more : kept messages (suc n) + tokens_at messages n ≡ kept messages n =
      omega (arith, kept-suc messages n h) in
    let e' : (if leb keep (kept messages n)
          then some n
          else cut_loop messages keep n (kept messages n))
        ≡ some i =
      subst (λ t. (if leb keep t then some n else cut_loop messages keep n t) ≡ some i) more e in
    elim (Bool-cases (leb keep (kept messages n))) [
      | inl t ↦
          subst
            (λ i.
              (i < suc n)
              × (keep ≤ kept messages i)
              × ((j : ℕ) → i < j → j < suc n → kept messages j < keep))
            (some_inj (rw t at e'))
            (omega arith, leb→le keep (kept messages n) t, λ j a b. absurd (omega arith))
      | inr f ↦
          let (a, b, c) = cut_loop-some messages keep n (omega arith) (rw f at e') in
          (
            omega (arith, a),
            b,
            λ j l k.
                below_suc n (λ j. i < j → kept messages j < keep) (λ j l k. c j k l)
                  (λ _. leb→lt keep (kept messages n) f) j k l,
          )
    ]

cut_loop-none :
    (messages : List LlmMessage) (keep n : ℕ)
    → n ≤ length messages
    → cut_loop messages keep n (kept messages n) ≡ none
    → (j : ℕ) → j < n
    → kept messages j < keep
unfolding cut_loop
cut_loop-none messages keep zero h e j l = absurd (omega arith)
cut_loop-none messages keep (suc n) h e j l =
    let more : kept messages (suc n) + tokens_at messages n ≡ kept messages n =
      omega (arith, kept-suc messages n h) in
    let e' : (if leb keep (kept messages n)
          then some n
          else cut_loop messages keep n (kept messages n))
        ≡ none =
      subst (λ t. (if leb keep t then some n else cut_loop messages keep n t) ≡ none) more e in
    elim (Bool-cases (leb keep (kept messages n))) [
      | inl t ↦ absurd (ground (arith, rw t at e'))
      | inr f ↦
          below_suc n (λ j. kept messages j < keep)
            (cut_loop-none messages keep n (omega arith) (rw f at e'))
            (leb→lt keep (kept messages n) f) j l
    ]

skip_tools-le : (messages : List LlmMessage) (i : ℕ) → skip_tools messages i ≤ i
unfolding skip_tools
skip_tools-le messages zero = omega arith
skip_tools-le messages (suc i) = ground (arith, skip_tools-le messages i)

-- The first loop stops at the start or at a message that is no tool's, and passes tool messages only.
skip_tools-stops :
    (messages : List LlmMessage) (i : ℕ)
    → 0 < skip_tools messages i
    → is_tool_at messages (skip_tools messages i) ≡ false
unfolding skip_tools
skip_tools-stops messages zero h = absurd (omega arith)
skip_tools-stops messages (suc i) h = elim (Bool-cases (is_tool_at messages (suc i))) [
  | inl t ↦ rw t (skip_tools-stops messages i (rw t at h))
  | inr f ↦ rw f f
]

skip_tools-passes :
    (messages : List LlmMessage) (i j : ℕ)
    → skip_tools messages i < j
    → j ≤ i
    → is_tool_at messages j ≡ true
unfolding skip_tools
skip_tools-passes messages zero j h l = absurd (omega arith)
skip_tools-passes messages (suc i) j h l = elim (Bool-cases (is_tool_at messages (suc i))) [
  | inl t ↦
      below_suc (suc i) (λ j. skip_tools messages i < j → is_tool_at messages j ≡ true)
        (λ j l k. skip_tools-passes messages i j k (omega arith)) (λ _. t) j (omega arith)
        (rw t at h)
  | inr f ↦ absurd (let h' = rw f at h in omega arith)
]

-- Where the first loop stops, the second one has nothing to do.
skip_calls-idle :
    (messages : List LlmMessage) (i : ℕ)
    → (0 < i → is_tool_at messages i ≡ false)
    → skip_calls messages i ≡ i
unfolding skip_calls
skip_calls-idle messages zero h = refl
skip_calls-idle messages (suc i) h = rw (h (omega arith)) (ground arith)

-- The second loop of `_adjust_for_tool_boundaries` never moves the cut: it ends where the first loop did.
pub adjust_for_tool_boundaries-skip_tools :
    (messages : List LlmMessage) (i : ℕ)
    → adjust_for_tool_boundaries messages i ≡ skip_tools messages i
unfolding adjust_for_tool_boundaries
adjust_for_tool_boundaries-skip_tools messages i =
    skip_calls-idle messages (skip_tools messages i) (skip_tools-stops messages i)

IsSafeCut-lt :
    (keep : ℕ) (messages : List LlmMessage) (i : ℕ)
    → ((j : ℕ) → i < j → j < length messages → kept messages j < keep)
    → (j : ℕ) → IsSafeCut keep messages j
    → j ≤ i
IsSafeCut-lt keep messages i above j safe = elim (Bool-cases (leb j i)) [
  | inl t ↦ leb→le j i t
  | inr f ↦ absurd (omega (arith, above j (leb→lt j i f) safe.inside, safe.enough))
]

-- A safe cut is no higher than what the loops leave.
IsSafeCut-skip_tools :
    (keep : ℕ) (messages : List LlmMessage) (i : ℕ)
    → ((j : ℕ) → i < j → j < length messages → kept messages j < keep)
    → (j : ℕ) → IsSafeCut keep messages j
    → j ≤ skip_tools messages i
IsSafeCut-skip_tools keep messages i above j safe =
    elim (Bool-cases (leb j (skip_tools messages i))) [
      | inl t ↦ leb→le j (skip_tools messages i) t
      | inr f ↦ absurd (
          ground (
            arith,
            skip_tools-passes messages i j (leb→lt j (skip_tools messages i) f)
                (IsSafeCut-lt keep messages i above j safe),
            safe.no_tool,
          ))
    ]

-- The first loop only adds to what is kept.
skip_tools-kept :
    (messages : List LlmMessage) (i : ℕ)
    → i < length messages
    → kept messages i ≤ kept messages (skip_tools messages i)
unfolding skip_tools
skip_tools-kept messages zero h = omega arith
skip_tools-kept messages (suc i) h =
    let less : kept messages (suc i) ≤ kept messages i =
      omega (arith, kept-suc messages i (omega arith)) in
    elim (Bool-cases (is_tool_at messages (suc i))) [
      | inl t ↦ rw t (omega (arith, less, skip_tools-kept messages i (omega arith)))
      | inr f ↦ rw f (omega arith)
    ]

-- The result of `find_cut_point`, as a relation.
abbrev pub IsGreatestCut : ℕ → List LlmMessage → Option ℕ → Type 0
IsGreatestCut keep messages none = (j : ℕ) → IsSafeCut keep messages j → ⊥
IsGreatestCut keep messages (some c) =
    IsSafeCut keep messages c × ((j : ℕ) → IsSafeCut keep messages j → j ≤ c)

-- What is left of the index that the first loop finds.
positive-IsGreatestCut :
    (keep : ℕ) (messages : List LlmMessage) (c : ℕ)
    → (0 < c → IsSafeCut keep messages c)
    → ((j : ℕ) → IsSafeCut keep messages j → j ≤ c)
    → IsGreatestCut keep messages (positive c)
unfolding positive
positive-IsGreatestCut keep messages zero safe above =
    λ j sj. absurd (omega (arith, above j sj, sj.positive))
positive-IsGreatestCut keep messages (suc c) safe above = (safe (omega arith), above)

adjusted-IsGreatestCut :
    (keep : ℕ) (messages : List LlmMessage) (found : Option ℕ)
    → cut_loop messages keep (length messages) 0 ≡ found
    → IsGreatestCut keep messages (adjusted messages found)
unfolding adjusted
adjusted-IsGreatestCut keep messages none e = λ j safe.
    let below =
      cut_loop-none messages keep (length messages) (omega arith) (rw (kept-length messages) e) in
    omega (arith, below j safe.inside, safe.enough)
adjusted-IsGreatestCut keep messages (some i) e =
    let (inside, enough, above) =
      cut_loop-some messages keep (length messages) (omega arith) (rw (kept-length messages) e) in
    by_index i inside enough (λ j l k. above j l k)
  where
    by_index :
        (i : ℕ)
        → i < length messages
        → keep ≤ kept messages i
        → ((j : ℕ) → i < j → j < length messages → kept messages j < keep)
        → IsGreatestCut keep messages (adjusted messages (some i))
    by_index zero inside enough above =
        λ j safe. omega (arith, above j safe.positive safe.inside, safe.enough)
    by_index (suc i) inside enough above =
        rw (adjust_for_tool_boundaries-skip_tools messages (suc i)) (
          positive-IsGreatestCut keep messages (skip_tools messages (suc i))
            (λ l. record {
              positive = l;
              inside = omega (arith, skip_tools-le messages (suc i));
              enough = omega (arith, skip_tools-kept messages (suc i) inside);
              no_tool = skip_tools-stops messages (suc i) l;
            })
            (IsSafeCut-skip_tools keep messages (suc i) above))

-- `find_cut_point` finds the greatest safe cut, and finds none exactly where no cut is safe.
pub find_cut_point-IsGreatestCut :
    (keep : ℕ) (messages : List LlmMessage)
    → IsGreatestCut keep messages (find_cut_point keep messages)
unfolding find_cut_point
find_cut_point-IsGreatestCut keep messages = elim (Bool-cases (leb (length messages) 1)) [
  | inl short ↦
      rw short
        (λ j safe. omega (arith, leb→le (length messages) 1 short, safe.positive, safe.inside))
  | inr long ↦
      rw long
        (adjusted-IsGreatestCut keep messages (cut_loop messages keep (length messages) 0) refl)
]
