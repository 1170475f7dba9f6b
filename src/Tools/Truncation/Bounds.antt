-- ===== src/Tools/Truncation/Bounds.antt =====
-- A truncated result has the first characters of the whole one, all of its images, and says how many
-- characters are missing.
use mathlib.Core.List.{append_assoc, append-nil}
use pyclaw.Prelude.{
  ℕ, zero, suc, ◌-◌, ◌≤◌, ◌<◌, Text, codes, ◌≡◌, refl, sym, ap, ◌∙◌, List, [], ◌∷◌, ◌++◌, length,
  length-append, take, arith, if_elim, leb, leb→le, leb→lt,
}
use pyclaw.Session.Types.{Block, text, image}
use pyclaw.Tools.Truncation.{
  ToolResult, marker, text_length, keep_blocks, notice, truncate_tool_result,
}

-- All the text of a list of blocks.
abbrev pub all_text : List Block → Text
all_text [] = []
all_text (text t ∷ bs) = t ++ all_text bs
all_text (image bytes mime_type ∷ bs) = all_text bs

abbrev pub images : List Block → List Block
images [] = []
images (text t ∷ bs) = images bs
images (image bytes mime_type ∷ bs) = image bytes mime_type ∷ images bs

length-all_text : (bs : List Block) → length (all_text bs) ≡ text_length bs
unfolding text_length
length-all_text [] = refl
length-all_text (text t ∷ bs) = omega (arith, length-append t (all_text bs), length-all_text bs)
length-all_text (image bytes mime_type ∷ bs) = length-all_text bs

take-nil : (n : ℕ) → take n [] ≡ codes ""
take-nil zero = refl
take-nil (suc n) = refl

take-append_le : (n : ℕ) (s t : Text) → n ≤ length s → take n (s ++ t) ≡ take n s
take-append_le zero s t h = refl
take-append_le (suc n) [] t h = absurd (omega arith)
take-append_le (suc n) (c ∷ s) t h = ap (◌∷◌ c) (take-append_le n s t (omega arith))

take-append_ge : (n : ℕ) (s t : Text) → length s ≤ n → take n (s ++ t) ≡ s ++ take (n - length s) t
take-append_ge n [] t h = ap (λ k. take k t) (omega arith)
take-append_ge zero (c ∷ s) t h = absurd (omega arith)
take-append_ge (suc n) (c ∷ s) t h =
    ap (◌∷◌ c) (take-append_ge n s t (omega arith) ∙ ap (λ k. s ++ take k t) (omega arith))

keep_blocks-zero : (bs : List Block) → all_text (keep_blocks zero bs) ≡ []
unfolding keep_blocks
keep_blocks-zero [] = refl
keep_blocks-zero (text t ∷ bs) = keep_blocks-zero bs
keep_blocks-zero (image bytes mime_type ∷ bs) = keep_blocks-zero bs

keep_blocks-take : (n : ℕ) (bs : List Block) → all_text (keep_blocks n bs) ≡ take n (all_text bs)
unfolding keep_blocks
keep_blocks-take n [] = sym (take-nil n)
keep_blocks-take n (image bytes mime_type ∷ bs) = keep_blocks-take n bs
keep_blocks-take zero (text t ∷ bs) = keep_blocks-zero bs
keep_blocks-take (suc r) (text t ∷ bs) =
    if_elim (λ kept. all_text kept ≡ take (suc r) (t ++ all_text bs)) (leb (length t) (suc r))
      (λ whole.
        ap (λ s. t ++ s) (keep_blocks-take (suc r - length t) bs)
        ∙ sym (take-append_ge (suc r) t (all_text bs) (leb→le _ _ whole)))
      (λ cut.
        ap (λ s. take (suc r) t ++ s) (keep_blocks-zero bs)
        ∙ append-nil (take (suc r) t)
        ∙ sym (take-append_le (suc r) t (all_text bs) (omega (arith, leb→lt _ _ cut))))

keep_blocks-images : (n : ℕ) (bs : List Block) → images (keep_blocks n bs) ≡ images bs
unfolding keep_blocks
keep_blocks-images n [] = refl
keep_blocks-images n (image bytes mime_type ∷ bs) =
    ap (◌∷◌ (image bytes mime_type)) (keep_blocks-images n bs)
keep_blocks-images zero (text t ∷ bs) = keep_blocks-images zero bs
keep_blocks-images (suc r) (text t ∷ bs) =
    if_elim (λ kept. images kept ≡ images bs) (leb (length t) (suc r))
      (λ _. keep_blocks-images (suc r - length t) bs) (λ _. keep_blocks-images zero bs)

all_text-append : (bs cs : List Block) → all_text (bs ++ cs) ≡ all_text bs ++ all_text cs
all_text-append [] cs = refl
all_text-append (text t ∷ bs) cs =
    ap (λ s. t ++ s) (all_text-append bs cs) ∙ sym (append_assoc t (all_text bs) (all_text cs))
all_text-append (image bytes mime_type ∷ bs) cs = all_text-append bs cs

images-append : (bs cs : List Block) → images (bs ++ cs) ≡ images bs ++ images cs
images-append [] cs = refl
images-append (text t ∷ bs) cs = images-append bs cs
images-append (image bytes mime_type ∷ bs) cs =
    ap (◌∷◌ (image bytes mime_type)) (images-append bs cs)

notice-images : (n : ℕ) → images (notice n) ≡ []
unfolding notice
notice-images zero = refl
notice-images (suc n) = refl

notice-text : (n : ℕ) → 0 < n → all_text (notice n) ≡ 10 ∷ marker n
unfolding notice
notice-text zero h = absurd (omega arith)
notice-text (suc n) h = append-nil (10 ∷ marker (suc n))

-- What becomes of a result under a limit on its characters.
abbrev pub IsTruncated : (max_chars : ℕ) → ToolResult → ToolResult → Type 0
IsTruncated max_chars result short =
    (images short.content ≡ images result.content)
    × (short.is_error ≡ result.is_error)
    × (short.tool_call_id ≡ result.tool_call_id)
    × (length (all_text result.content) ≤ max_chars → short ≡ result)
    × (max_chars < length (all_text result.content)
        → all_text short.content
          ≡ take max_chars (all_text result.content)
            ++ 10 ∷ marker (length (all_text result.content) - max_chars))

-- With a positive limit, `truncate_tool_result` keeps the images, the error flag and the id. A text within the
-- limit is not touched; of a longer one the first `max_chars` characters stay, over all its blocks, and a line
-- follows that names the number of those that are gone.
pub truncate_tool_result-IsTruncated :
    (result : ToolResult) (max_chars : ℕ)
    → 0 < max_chars
    → IsTruncated max_chars result (truncate_tool_result result max_chars)
unfolding truncate_tool_result
truncate_tool_result-IsTruncated result zero h = absurd (omega arith)
truncate_tool_result-IsTruncated result (suc m) h =
    let size = length-all_text result.content in
    let bs = result.content in
    let dropped = text_length bs - suc m in
    if_elim (IsTruncated (suc m) result) (leb (text_length result.content) (suc m))
      (λ fits. (refl, refl, refl, λ _. refl, λ l. absurd (omega (arith, leb→le _ _ fits, size))))
      (λ long.
        let over : suc m < text_length bs = leb→lt (text_length bs) (suc m) long in
        (
          images-append (keep_blocks (suc m) bs) (notice dropped)
              ∙ ap (λ l. images (keep_blocks (suc m) bs) ++ l) (notice-images dropped)
              ∙ append-nil (images (keep_blocks (suc m) bs))
              ∙ keep_blocks-images (suc m) bs,
          refl,
          refl,
          λ l. absurd (omega (arith, over, size)),
          λ _.
              all_text-append (keep_blocks (suc m) bs) (notice dropped)
              ∙ ap (λ s. s ++ all_text (notice dropped)) (keep_blocks-take (suc m) bs)
              ∙ ap (λ s. take (suc m) (all_text bs) ++ s)
                  (notice-text dropped (omega (arith, over)))
              ∙ ap (λ n. take (suc m) (all_text bs) ++ 10 ∷ marker (n - suc m)) (sym size),
        ))
