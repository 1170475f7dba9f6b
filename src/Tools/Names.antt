-- ===== src/Tools/Names.antt =====
-- The names of tools and their rewriting for the LLM API, `:` to `__` and back:
-- src/pyclaw/core/agent/tools/registry.py. 95 is `_` and 58 is `:`.
pub mod RoundTrip
use pyclaw.Prelude.{ℕ, ◌+◌, Text, Bool, true, false, ◌&&◌, ◌||◌, [], ◌∷◌, ◌==◌, if◌then◌else◌}

-- "__" in name
unfoldable pub has_dunder : Text → Bool
has_dunder [] = false
has_dunder (c ∷ []) = false
has_dunder (c ∷ d ∷ s) = (c == b'_' && d == b'_') || has_dunder (d ∷ s)

-- name.replace("__", ":", 1)
unfoldable pub replace_dunder : Text → Text
replace_dunder [] = []
replace_dunder (c ∷ []) = c ∷ []
replace_dunder (c ∷ d ∷ s) = if c == b'_' && d == b'_' then b':' ∷ s else c ∷ replace_dunder (d ∷ s)

-- name.count(":")
unfoldable pub colon_count : Text → ℕ
colon_count [] = 0
colon_count (c ∷ s) = (if c == b':' then 1 else 0) + colon_count s

-- name.split(":", 1)[0]
unfoldable pub server_part : Text → Text
server_part [] = []
server_part (c ∷ s) = if c == b':' then [] else c ∷ server_part s

-- name.replace(":", "__")
unfoldable pub llm_name : Text → Text
llm_name [] = []
llm_name (c ∷ s) = if c == b':' then b'_' ∷ b'_' ∷ llm_name s else c ∷ llm_name s
