-- ===== src/Runner/LoopGuard.antt =====
-- `_update_tool_loop_state` of src/pyclaw/core/agent/runner.py: the counter that ends a run which
-- keeps calling a tool that does not exist.
pub mod Turns
pub mod McpNames
use pyclaw.Prelude.{
  ℕ, zero, suc, ◌+◌, Text, codes, text_eq, Bool, true, false, ◌&&◌, ◌||◌, not, Option, none, some,
  List, [], ◌∷◌, ◌++◌, map, ltb, leb, ◌==◌, if◌then◌else◌, select,
}
use pyclaw.Tools.Types.{Call}
use pyclaw.Tools.Registry
use pyclaw.Tools.Registry.{Registry}

pub data LoopAction : Type 0 where
  proceed warn terminate : LoopAction

-- `unknown_tool_name`, `unknown_tool_count` and `unknown_tool_warned`
pub record LoopState : Type 0 where
  pub unknown : Option Text
  pub count : ℕ
  pub warned : Bool

abbrev pub reset : LoopState
reset = record { unknown = none; count = 0; warned = false }

-- The order of Python's `sorted` on texts, and the sort itself.
text_le : Text → Text → Bool
text_le [] t = true
text_le (a ∷ s) [] = false
text_le (a ∷ s) (b ∷ t) = ltb a b || ((a == b) && text_le s t)

insert : Text → List Text → List Text
unfolding text_le
insert t [] = t ∷ []
insert t (u ∷ us) = if text_le t u then t ∷ u ∷ us else u ∷ insert t us

sorted : List Text → List Text
unfolding insert
sorted [] = []
sorted (t ∷ ts) = insert t (sorted ts)

-- ", ".join(ts)
join_names : List Text → Text
join_names [] = []
join_names (t ∷ []) = t
join_names (t ∷ u ∷ us) = t ++ codes ", " ++ join_names (u ∷ us)

-- `join(...) or "(none)"`
or_none : Text → Text
or_none [] = codes "(none)"
or_none (c ∷ s) = c ∷ s

unfoldable pub guidance : Text → Registry → Text
unfolding sorted join_names or_none
guidance unknown tools =
    codes "You called `"
    ++ unknown
    ++ codes "` which does not exist. Available tools: ["
    ++ or_none (join_names (sorted (Registry.names tools)))
    ++ codes "]. Stop calling `"
    ++ unknown
    ++ codes "`."

is_empty : Text → Bool
is_empty [] = true
is_empty (_ ∷ _) = false

-- [n for n in names if n and n not in registry]
unfoldable pub unknown_names : Registry → List Text → List Text
unfolding is_empty
unknown_names tools names = select (λ n. not (is_empty n) && not (Registry.contains tools n)) names

abbrev same_unknown : Option Text → Text → Bool
same_unknown none u = true
same_unknown (some v) u = text_eq u v

-- The steps from `if current_unknown is not None` on, with the first unknown name of the turn.
unfoldable pub count_unknown :
    Registry → Text → LoopState → ℕ → LoopState × LoopAction × Option Text
count_unknown tools u s threshold =
    let same = same_unknown s.unknown u in
    let count = (if same then s.count else 0) + 1 in
    let warned = if same then s.warned else false in
    if warned
    then (record { unknown = some u; count = count; warned = warned }, terminate, none)
    else if leb threshold count
    then (record { unknown = some u; count = count; warned = true }, warn, some (guidance u tools))
    else (record { unknown = some u; count = count; warned = warned }, proceed, none)

unfoldable pub after_names :
    Registry → List Text → LoopState → ℕ → LoopState × LoopAction × Option Text
unfolding count_unknown
after_names tools [] s threshold = (reset, proceed, none)
after_names tools (u ∷ us) s threshold = count_unknown tools u s threshold

-- The tests `threshold <= 0` and `not tool_calls` are the first two clauses.
unfoldable pub update_tool_loop_state :
    List Call → Registry → LoopState → ℕ → LoopState × LoopAction × Option Text
unfolding after_names unknown_names
update_tool_loop_state calls tools s zero = (reset, proceed, none)
update_tool_loop_state [] tools s threshold = (reset, proceed, none)
update_tool_loop_state (c ∷ calls) tools s (suc n) =
    after_names tools (unknown_names tools (map (λ c. c.name) (c ∷ calls))) s (suc n)
