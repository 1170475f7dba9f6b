-- ===== src/Tools/Truncation.antt =====
-- `truncate_tool_result` of src/pyclaw/core/agent/tool_result_truncation.py: the text of a result is cut to a
-- number of characters.
pub mod Bounds
use pyclaw.Prelude.{
  ℕ, zero, suc, ◌+◌, ◌-◌, Text, codes, Bool, true, false, Option, none, some, List, [], ◌∷◌, ◌++◌,
  length, take, if◌then◌else◌, leb, ltb, decimal,
}
use pyclaw.Session.Types.{Block, text, image}

pub record ToolResult : Type 0 where
  pub tool_call_id : Text
  pub content : List Block
  pub is_error : Bool

unfoldable pub marker : ℕ → Text
marker dropped = codes "[... " ++ decimal dropped ++ codes " more characters truncated]"

unfoldable pub text_length : List Block → ℕ
text_length [] = 0
text_length (text t ∷ bs) = length t + text_length bs
text_length (image bytes mime_type ∷ bs) = text_length bs

-- The loop over the blocks, with what remains of the characters.
unfoldable pub keep_blocks : ℕ → List Block → List Block
keep_blocks remaining [] = []
keep_blocks remaining (image bytes mime_type ∷ bs) =
    image bytes mime_type ∷ keep_blocks remaining bs
keep_blocks zero (text t ∷ bs) = keep_blocks zero bs
keep_blocks (suc r) (text t ∷ bs) =
    let whole = keep_blocks (suc r - length t) bs in
    let cut = keep_blocks zero bs in
    if leb (length t) (suc r) then text t ∷ whole else text (take (suc r) t) ∷ cut

-- The block that says how much is missing.
unfoldable pub notice : ℕ → List Block
unfolding marker
notice zero = []
notice (suc d) = text (10 ∷ marker (suc d)) ∷ []

-- `max_chars` is at least 0 here; where it is negative the source gives the result back as well.
unfoldable pub truncate_tool_result : ToolResult → (max_chars : ℕ) → ToolResult
unfolding text_length keep_blocks notice
truncate_tool_result result zero = result
truncate_tool_result result (suc m) =
    if leb (text_length result.content) (suc m) then result else record result {
      content = keep_blocks (suc m) result.content ++ notice (text_length result.content - suc m);
    }
