-- ===== src/Compaction/Chunks/Split.antt =====
-- `split_into_chunks` loses nothing, and its chunks keep to the budget.
use mathlib.Core.List.{append_assoc, append-nil}
use mathlib.Core.Path.{subst}
use pyclaw.Prelude.{
  ℕ, zero, suc, ◌+◌, ◌≤◌, ◌<◌, ◌≡◌, refl, sym, ap, ◌∙◌, true, false, List, [], ◌∷◌, ◌++◌, length,
  length-append, All, arith, if_elim, ltb→lt, ltb→le,
}
use pyclaw.Messages.{LlmMessage}
use pyclaw.Compaction.Planning.{estimate_message_tokens, estimate_messages_tokens}
use pyclaw.Compaction.Planning.Plan.{estimate_messages_tokens-append}
use pyclaw.Compaction.Chunks.{flush, is_full, split_loop, or_one, split_into_chunks}

abbrev pub concat : List (List LlmMessage) → List LlmMessage
concat [] = []
concat (c ∷ cs) = c ++ concat cs

-- A chunk of two messages or more is within the budget.
abbrev pub IsWithin : ℕ → List LlmMessage → Type 0
IsWithin budget chunk = 1 < length chunk → estimate_messages_tokens chunk ≤ budget

-- Each chunk but the first begins with a message that the chunk before had no room for.
abbrev pub IsGreedy : ℕ → List (List LlmMessage) → Type 0
IsGreedy budget [] = Unit
IsGreedy budget (c ∷ []) = Unit
IsGreedy budget (c ∷ [] ∷ cs) = ⊥
IsGreedy budget (c ∷ (m ∷ ms) ∷ cs) =
    (budget < estimate_messages_tokens c + estimate_message_tokens m)
    × IsGreedy budget ((m ∷ ms) ∷ cs)

flush-concat : (current : List LlmMessage) → concat (flush current []) ≡ current
unfolding flush
flush-concat [] = refl
flush-concat (m ∷ ms) = append-nil (m ∷ ms)

split_loop-concat :
    (budget : ℕ) (messages current : List LlmMessage) (n : ℕ)
    → concat (split_loop budget messages current n) ≡ current ++ messages
unfolding split_loop
split_loop-concat budget [] current n = flush-concat current ∙ sym (append-nil current)
split_loop-concat budget (m ∷ ms) current n =
    if_elim (λ chunks. concat chunks ≡ current ++ m ∷ ms)
      (is_full current (n + estimate_message_tokens m) budget)
      (λ _.
        ap (λ l. current ++ l) (split_loop-concat budget ms (m ∷ []) (estimate_message_tokens m)))
      (λ _.
        split_loop-concat budget ms (current ++ m ∷ []) (n + estimate_message_tokens m)
        ∙ append_assoc current (m ∷ []) ms)

tokens_one : (m : LlmMessage) → estimate_messages_tokens (m ∷ []) ≡ estimate_message_tokens m
unfolding estimate_messages_tokens
tokens_one m = omega arith

full-lt :
    (current : List LlmMessage) (total budget : ℕ)
    → is_full current total budget ≡ true
    → budget < total
unfolding is_full
full-lt [] total budget h = cc
full-lt (m ∷ ms) total budget h = ltb→lt budget total h

not_full-le :
    (current : List LlmMessage) (total budget : ℕ)
    → is_full current total budget ≡ false
    → 0 < length current
    → total ≤ budget
unfolding is_full
not_full-le [] total budget h l = absurd (omega arith)
not_full-le (m ∷ ms) total budget h l = ltb→le budget total h

tokens_more :
    (current : List LlmMessage) (m : LlmMessage) (n : ℕ)
    → estimate_messages_tokens current ≡ n
    → estimate_messages_tokens (current ++ m ∷ []) ≡ n + estimate_message_tokens m
tokens_more current m n h =
    omega (arith, estimate_messages_tokens-append current (m ∷ []), tokens_one m)

flush-IsWithin :
    (budget : ℕ) (current : List LlmMessage)
    → IsWithin budget current
    → All (IsWithin budget) (flush current [])
unfolding flush
flush-IsWithin budget [] w = tt
flush-IsWithin budget (m ∷ ms) w = (w, tt)

split_loop-IsWithin :
    (budget : ℕ) (messages current : List LlmMessage) (n : ℕ)
    → estimate_messages_tokens current ≡ n
    → IsWithin budget current
    → All (IsWithin budget) (split_loop budget messages current n)
unfolding split_loop
split_loop-IsWithin budget [] current n q w = flush-IsWithin budget current w
split_loop-IsWithin budget (m ∷ ms) current n q w =
    if_elim (All (IsWithin budget)) (is_full current (n + estimate_message_tokens m) budget)
      (λ _. (
        w,
        split_loop-IsWithin budget ms (m ∷ []) (estimate_message_tokens m) (tokens_one m)
            (λ l. absurd (omega arith)),
      ))
      (λ f.
        split_loop-IsWithin budget ms (current ++ m ∷ []) (n + estimate_message_tokens m)
          (tokens_more current m n q)
          (λ l. omega (
            arith,
            tokens_more current m n q,
            not_full-le current (n + estimate_message_tokens m) budget f
                (omega (arith, length-append current (m ∷ []))),
          )))

flush-eq : (current : List LlmMessage) → 0 < length current → flush current [] ≡ current ∷ []
unfolding flush
flush-eq [] l = absurd (omega arith)
flush-eq (m ∷ ms) l = refl

-- A list of chunks that begins with a longer or the same chunk.
record Begins (current : List LlmMessage) (chunks : List (List LlmMessage)) : Type 0 where
  more : List LlmMessage
  others : List (List LlmMessage)
  is_chunks : chunks ≡ (current ++ more) ∷ others

split_loop-Begins :
    (budget : ℕ) (messages current : List LlmMessage) (n : ℕ)
    → 0 < length current
    → Begins current (split_loop budget messages current n)
unfolding split_loop
split_loop-Begins budget [] current n l = record {
  more = [];
  others = [];
  is_chunks = flush-eq current l ∙ ap (λ c. c ∷ []) (sym (append-nil current));
}
split_loop-Begins budget (m ∷ ms) current n l =
    if_elim (Begins current) (is_full current (n + estimate_message_tokens m) budget)
      (λ _.
        let closed = split_loop budget ms (m ∷ []) (estimate_message_tokens m) in
        record {
          more = [];
          others = closed;
          is_chunks = ap (λ c. c ∷ closed) (sym (append-nil current));
        })
      (λ _.
        let b =
          split_loop-Begins budget ms (current ++ m ∷ []) (n + estimate_message_tokens m)
            (omega (arith, length-append current (m ∷ []))) in
        record {
          more = m ∷ b.more;
          others = b.others;
          is_chunks = b.is_chunks ∙ ap (λ c. c ∷ b.others) (append_assoc current (m ∷ []) b.more);
        })

IsGreedy-cons :
    (budget : ℕ) (c : List LlmMessage) (m : LlmMessage) (chunks : List (List LlmMessage))
    → budget < estimate_messages_tokens c + estimate_message_tokens m
    → Begins (m ∷ []) chunks
    → IsGreedy budget chunks
    → IsGreedy budget (c ∷ chunks)
IsGreedy-cons budget c m chunks full b g =
    subst (λ cs. IsGreedy budget cs → IsGreedy budget (c ∷ cs)) (sym b.is_chunks) (λ g. (full, g)) g

split_loop-IsGreedy :
    (budget : ℕ) (messages current : List LlmMessage) (n : ℕ)
    → estimate_messages_tokens current ≡ n
    → IsGreedy budget (split_loop budget messages current n)
unfolding split_loop
split_loop-IsGreedy budget [] [] n q = unfold flush in tt
split_loop-IsGreedy budget [] (m ∷ ms) n q = unfold flush in tt
split_loop-IsGreedy budget (m ∷ ms) current n q =
    if_elim (IsGreedy budget) (is_full current (n + estimate_message_tokens m) budget)
      (λ t.
        IsGreedy-cons budget current m _
          (omega (arith, q, full-lt current (n + estimate_message_tokens m) budget t))
          (split_loop-Begins budget ms (m ∷ []) (estimate_message_tokens m) (omega arith))
          (split_loop-IsGreedy budget ms (m ∷ []) (estimate_message_tokens m) (tokens_one m)))
      (λ _.
        split_loop-IsGreedy budget ms (current ++ m ∷ []) (n + estimate_message_tokens m)
          (tokens_more current m n q))

or_one-kept :
    (budget : ℕ) (chunks : List (List LlmMessage))
    → All (IsWithin budget) chunks
    → IsGreedy budget chunks
    → (concat (or_one chunks) ≡ concat chunks)
      × All (IsWithin budget) (or_one chunks)
      × IsGreedy budget (or_one chunks)
unfolding or_one
or_one-kept budget [] w g = (refl, ((λ l. absurd (omega arith)), tt), tt)
or_one-kept budget (c ∷ cs) w g = (refl, w, g)

-- The chunks are the messages in their order, none lost and none twice. With a budget that is positive, each
-- chunk of two messages or more is within it, and each chunk but the first begins with a message that the one
-- before had no room for.
pub split_into_chunks-concat :
    (budget : ℕ) (messages : List LlmMessage)
    → (concat (split_into_chunks budget messages) ≡ messages)
      × (0 < budget
          → All (IsWithin budget) (split_into_chunks budget messages)
            × IsGreedy budget (split_into_chunks budget messages))
unfolding split_into_chunks
split_into_chunks-concat zero messages = (append-nil messages, λ l. absurd (omega arith))
split_into_chunks-concat (suc b) messages =
    let none_yet : estimate_messages_tokens [] ≡ 0 = unfold estimate_messages_tokens in refl in
    let kept =
      or_one-kept (suc b) (split_loop (suc b) messages [] 0)
        (split_loop-IsWithin (suc b) messages [] 0 none_yet (λ l. absurd (omega arith)))
        (split_loop-IsGreedy (suc b) messages [] 0 none_yet) in
    (kept.0 ∙ split_loop-concat (suc b) messages [] 0, λ _. (kept.1, kept.2))
