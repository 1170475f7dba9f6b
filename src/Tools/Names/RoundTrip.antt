-- ===== src/Tools/Names/RoundTrip.antt =====
-- The rewriting of a tool's name for the LLM API and back.
use pyclaw.Prelude.{◌+◌, Text, ◌≡◌, refl, Bool, true, false, [], ◌∷◌, ◌++◌, arith, ◌==◌}
use pyclaw.Tools.Names.{has_dunder, replace_dunder, colon_count, llm_name}

-- name.endswith("_")
unfoldable pub ends_in_underscore : Text → Bool
ends_in_underscore [] = false
ends_in_underscore (c ∷ []) = c == b'_'
ends_in_underscore (c ∷ d ∷ s) = ends_in_underscore (d ∷ s)

pub llm_name-colon_free : (s : Text) → colon_count s ≡ 0 → llm_name s ≡ s
unfolding llm_name colon_count
llm_name-colon_free [] h = refl
llm_name-colon_free (c ∷ s) h = ground (arith, llm_name-colon_free s)

pub llm_name-append : (s t : Text) → llm_name (s ++ t) ≡ llm_name s ++ llm_name t
unfolding llm_name
llm_name-append [] t = refl
llm_name-append (c ∷ s) t = ground (arith, llm_name-append s t)

-- The first `__` of `s__t` is the one between them, if `s` has none and does not end in `_`.
replace_dunder-append :
    (s t : Text)
    → has_dunder s ≡ false
    → ends_in_underscore s ≡ false
    → replace_dunder (s ++ b'_' ∷ b'_' ∷ t) ≡ s ++ b':' ∷ t
unfolding replace_dunder has_dunder ends_in_underscore
replace_dunder-append [] t h k = refl
replace_dunder-append (c ∷ []) t h k = ground arith
replace_dunder-append (c ∷ d ∷ s) t h k = ground (arith, replace_dunder-append (d ∷ s) t)

-- Where `s` ends in `_`, the first `__` is one place too early.
pub replace_dunder-underscore :
    (s t : Text)
    → has_dunder (s ++ b'_' ∷ []) ≡ false
    → replace_dunder ((s ++ b'_' ∷ []) ++ b'_' ∷ b'_' ∷ t) ≡ s ++ b':' ∷ b'_' ∷ t
unfolding replace_dunder has_dunder
replace_dunder-underscore [] t h = refl
replace_dunder-underscore (c ∷ []) t h = ground arith
replace_dunder-underscore (c ∷ d ∷ s) t h = ground (arith, replace_dunder-underscore (d ∷ s) t)

has_dunder-append : (s t : Text) → has_dunder (s ++ b'_' ∷ b'_' ∷ t) ≡ true
unfolding has_dunder
has_dunder-append [] t = refl
has_dunder-append (c ∷ []) t = ground arith
has_dunder-append (c ∷ d ∷ s) t = ground (arith, has_dunder-append (d ∷ s) t)

module _ (s t : Text) (hs : colon_count s ≡ 0) (ht : colon_count t ≡ 0) where
  -- The LLM name of `s:t` is `s__t`.
  pub llm_name-qualified : llm_name (s ++ b':' ∷ t) ≡ s ++ b'_' ∷ b'_' ∷ t
  unfolding llm_name
  llm_name-qualified =
      rw (llm_name-append s (b':' ∷ t), llm_name-colon_free s hs, llm_name-colon_free t ht)

  pub has_dunder-llm_name : has_dunder (llm_name (s ++ b':' ∷ t)) ≡ true
  has_dunder-llm_name = rw llm_name-qualified (has_dunder-append s t)

  pub replace_dunder-llm_name :
      has_dunder s ≡ false
      → ends_in_underscore s ≡ false
      → replace_dunder (llm_name (s ++ b':' ∷ t)) ≡ s ++ b':' ∷ t
  replace_dunder-llm_name h k = rw llm_name-qualified (replace_dunder-append s t h k)

pub colon_count-append : (s t : Text) → colon_count (s ++ t) ≡ colon_count s + colon_count t
unfolding colon_count
colon_count-append [] t = omega arith
colon_count-append (c ∷ s) t = ground (arith, colon_count-append s t)

pub colon_count-llm_name : (s : Text) → colon_count (llm_name s) ≡ 0
unfolding colon_count llm_name
colon_count-llm_name [] = refl
colon_count-llm_name (c ∷ s) = ground (arith, colon_count-llm_name s)
