-- ===== src/Memory.antt =====
-- The working memory of a session: src/pyclaw/core/agent/tools/update_working_memory.py and
-- src/pyclaw/core/agent/hooks/working_memory_hook.py; and src/pyclaw/core/agent/hooks/memory_nudge_hook.py. The hash and the
-- list of a session on the server are the state; errors of the server and expiry are left out.
pub mod Fits
pub mod Evicts
mod Examples
use mathlib.Core.Option
use pyclaw.Prelude.{
  ℕ, zero, suc, ◌+◌, ◌-◌, ◌%◌, Text, codes, Bool, true, false, ◌&&◌, not, Option, none, some, List,
  [], ◌∷◌, ◌++◌, map, any, select, length, if◌then◌else◌, ltb, ◌==◌, text_eq, text_key,
}
use pyclaw.Prelude.Dict
use pyclaw.Prelude.Dict.{Dict}
use pyclaw.Messages.{join_lines}

pub record WorkingMemory : Type 0 where
  pub fields : Dict Text Text
  pub order : List Text

-- sum(len(k) + len(v) for k, v in fields.items())
unfoldable pub total_chars : Dict Text Text → ℕ
total_chars [] = 0
total_chars ((k, v) ∷ fields) = length k + length v + total_chars fields

-- The loop of `_evict_if_needed`: LPOP, and HDEL where the key is a field.
unfoldable pub evict : (max_chars total : ℕ) → List Text → Dict Text Text → WorkingMemory
evict max_chars total [] fields = record { fields = fields; order = [] }
evict max_chars total (oldest ∷ order) fields = elim (ltb max_chars total) [
  | false ↦ record { fields = fields; order = oldest ∷ order }
  | true ↦ elim (Dict.get fields oldest) [
    | none ↦ evict max_chars total order fields
    | some v ↦
        evict max_chars (total - (length oldest + length v)) order (Dict.remove fields oldest)
  ]
]

unfoldable pub evict_if_needed : ℕ → WorkingMemory → WorkingMemory
unfolding evict total_chars
evict_if_needed max_chars memory =
    evict max_chars (total_chars memory.fields) memory.order memory.fields

-- HSET, and RPUSH of a key that is new
unfoldable pub write : WorkingMemory → Text → Text → WorkingMemory
write memory key value = record {
  fields = Dict.put memory.fields key value;
  order = if Dict.has memory.fields key then memory.order else memory.order ++ key ∷ [];
}

-- What `execute` answers.
pub data Answer : Type 0 where
  bad_key bad_value : Answer
  stored : Text → Answer

-- `execute` of the tool: the key and the value are none where they are no strings.
unfoldable pub execute : ℕ → WorkingMemory → (key value : Option Text) → WorkingMemory × Answer
unfolding evict_if_needed write
execute max_chars memory none value = (memory, bad_key)
execute max_chars memory (some []) value = (memory, bad_key)
execute max_chars memory (some (c ∷ k)) none = (memory, bad_value)
execute max_chars memory (some (c ∷ k)) (some v) =
    (evict_if_needed max_chars (write memory (c ∷ k) v), stored (c ∷ k))

-- f"- {k}: {all_fields[k]}" of the keys that are fields
unfoldable pub lines_of : Dict Text Text → List Text → List Text
lines_of fields [] = []
lines_of fields (k ∷ ks) = elim (Dict.get fields k) [
  | none ↦ lines_of fields ks
  | some v ↦ (codes "- " ++ k ++ codes ": " ++ v) ∷ lines_of fields ks
]

-- The keys in the order of the list, then the others; a list that is empty changes nothing here.
unfoldable pub ordered_keys : WorkingMemory → List Text
ordered_keys memory =
    select (Dict.has memory.fields) memory.order
    ++ select (λ k. not (any (text_eq k) memory.order)) (Dict.keys memory.fields)

unfoldable pub block : List Text → Text
block lines = codes "<working_memory>\n" ++ join_lines lines ++ codes "\n</working_memory>"

-- The `while` loop: lines are dropped from the front until the block is short enough.
unfoldable pub fit_block : ℕ → List Text → Option Text
unfolding block
fit_block max_chars [] = none
fit_block max_chars (line ∷ lines) = elim (ltb max_chars (length (block (line ∷ lines)))) [
  | true ↦ fit_block max_chars lines
  | false ↦ some (block (line ∷ lines))
]

-- The text that `before_prompt_build` of WorkingMemoryHook appends to the prompt.
unfoldable pub before_prompt_build : ℕ → WorkingMemory → Option Text
unfolding fit_block lines_of ordered_keys
before_prompt_build max_chars memory =
    fit_block max_chars (lines_of memory.fields (ordered_keys memory))

-- `_counts` of MemoryNudgeHook
abbrev pub Counts : Type 0
Counts = Dict Text ℕ

unfoldable pub or_zero : Option ℕ → ℕ
or_zero none = 0
or_zero (some n) = n

unfoldable pub reset_counter : Counts → Text → Counts
reset_counter counts session_id = Dict.remove counts session_id

-- `before_prompt_build` of MemoryNudgeHook: the counts, and whether the reminder is appended
unfoldable pub nudge : (interval : ℕ) → Counts → Text → Counts × Bool
unfolding or_zero
nudge interval counts session_id =
    let count = or_zero (Dict.get counts session_id) + 1 in
    (Dict.put counts session_id count, count % interval == 0)

-- `after_response` of MemoryNudgeHook, by the names of the calls
unfoldable pub after_response : Counts → Text → List Text → Counts
after_response counts session_id names =
    if any (text_eq (codes "memorize")) names then Dict.put counts session_id 0 else counts
