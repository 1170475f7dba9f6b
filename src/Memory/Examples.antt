-- ===== src/Memory/Examples.antt =====
-- A working memory of two entries.
use pyclaw.Prelude.{
  ◌≤◌, codes, false, none, some, [], ◌∷◌, ◌≡◌, refl, length, text_eq, text_eq_iff, text_key, arith,
}
use pyclaw.Prelude.Dict
use pyclaw.Memory.{WorkingMemory, execute, stored, before_prompt_build, nudge, after_response}
use pyclaw.Memory.Evicts.{IsOrdered, IsWithin}
use pyclaw.Memory.Fits.{execute-IsWithin, execute-too_long, before_prompt_build-Fits}

abbrev two : WorkingMemory
two = record {
  fields = (codes "a", codes "1") ∷ (codes "b", codes "2") ∷ [];
  order = codes "a" ∷ codes "b" ∷ [];
}

two-IsOrdered : IsOrdered two
unfolding Dict.has text_eq
two-IsOrdered = (
  (refl, (refl, tt)),
  λ k has. ground (
    arith,
    has,
    text_eq_iff (codes "a") k,
    text_eq_iff (codes "b") k,
    text_eq_iff k (codes "a"),
    text_eq_iff k (codes "b"),
  ),
)

evicted : (execute 5 two (some (codes "c")) (some (codes "3"))).0.order ≡ codes "b" ∷ codes "c" ∷ []
unfolding execute Dict.has text_eq Dict.put Dict.get
evicted = refl

shown :
    before_prompt_build 100 two ≡ some (codes "<working_memory>\n- a: 1\n- b: 2\n</working_memory>")
unfolding before_prompt_build Dict.has text_eq Dict.get pyclaw.Messages.join_lines
shown = refl

reminded :
    (nudge 2
      (after_response ((codes "s", 4) ∷ []) (codes "s") (codes "memorize" ∷ []))
      (codes "s")).1
    ≡ false
unfolding nudge Dict.get after_response text_eq Dict.put
reminded = refl

execute-IsWithin_example : IsWithin 5 (execute 5 two (some (codes "c")) (some (codes "3"))).0
unfolding pyclaw.Memory.total_chars
execute-IsWithin_example =
    execute-IsWithin 5 two (some (codes "c")) (some (codes "3")) (omega arith, two-IsOrdered)

execute-too_long_example :
    ((execute 5 two (some (codes "c")) (some (codes "34567"))).1 ≡ stored (codes "c"))
    × (Dict.get (execute 5 two (some (codes "c")) (some (codes "34567"))).0.fields (codes "c")
        ≡ none)
execute-too_long_example = execute-too_long 5 two 99 [] (codes "34567") two-IsOrdered (omega arith)

before_prompt_build-Fits_example : length (codes "<working_memory>\n- b: 2\n</working_memory>") ≤ 45
unfolding before_prompt_build Dict.has text_eq Dict.get pyclaw.Messages.join_lines
before_prompt_build-Fits_example =
    before_prompt_build-Fits 45 two (codes "<working_memory>\n- b: 2\n</working_memory>") refl
