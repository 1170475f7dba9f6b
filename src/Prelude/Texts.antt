-- ===== src/Prelude/Texts.antt =====
-- Texts as lists of code points, so that `len`, slices and searches of the source are those of
-- lists, and the interface of types whose values can be keys of a `dict`.
use Prim.Native.Char.{code}
use Prim.Native.Nat.{ℕ, zero, suc, ◌+◌, ◌-◌, ◌*◌, ◌/◌, ◌%◌, ◌<◌}
use Prim.Native.String.{String}
use mathlib.Core.Path.{◌≡◌, refl, ap, ◌∙◌}
use mathlib.Core.Logic.{◌↔◌, ◌≢◌, inl, inr}
use mathlib.Core.Bool.{Bool, true, false, ◌&&◌, ◌||◌}
use mathlib.Core.List.{List, [], ◌∷◌}
use native.Mathlib.Omega.{arith}
use pyclaw.Prelude.Tests.{◌==◌, if◌then◌else◌, Bool-cases}

abbrev pub Text : Type 0
Text = List ℕ

-- A literal of the source, as a text.
abbrev pub codes : String → Text
codes String.[] = []
codes (String.◌∷◌ c s) = code c ∷ codes s

unfoldable pub text_eq : Text → Text → Bool
text_eq [] [] = true
text_eq (a ∷ s) (b ∷ t) = (a == b) && text_eq s t
text_eq _ _ = false

pub text_eq_iff : (s t : Text) → (text_eq s t ≡ true) ↔ (s ≡ t)
unfolding text_eq
text_eq_iff [] [] = ground arith
text_eq_iff (a ∷ s) (b ∷ t) = ground (arith, text_eq_iff s t)
text_eq_iff [] (b ∷ t) = ground arith
text_eq_iff (a ∷ s) [] = ground arith

pub text_eq_refl : (s : Text) → text_eq s s ≡ true
text_eq_refl s = (text_eq_iff s s).1 refl

pub text_eq-eq-false : (s t : Text) → s ≢ t → text_eq s t ≡ false
text_eq-eq-false s t h = elim (Bool-cases (text_eq s t)) [
  | inl e ↦ absurd (h ((text_eq_iff s t).0 e))
  | inr e ↦ e
]

-- Types with a decidable equality, which a `dict` can be keyed by.
pub record Key (K : Type 0) : Type 0 where
  pub beq : K → K → Bool
  pub beq_iff : (a b : K) → (beq a b ≡ true) ↔ (a ≡ b)

abbrev pub key_eq : {K : Type 0} ⦃k : Key K⦄ → K → K → Bool
key_eq ⦃k⦄ = k.beq

instance abbrev pub text_key : Key Text
text_key = record { beq = text_eq; beq_iff = text_eq_iff }

-- text.startswith(prefix)
unfoldable pub starts_with : (prefix text : Text) → Bool
starts_with [] t = true
starts_with (a ∷ s) [] = false
starts_with (a ∷ s) (b ∷ t) = (a == b) && starts_with s t

-- part in text
unfoldable pub has_part : (part text : Text) → Bool
unfolding starts_with
has_part s [] = starts_with s []
has_part s (c ∷ t) = starts_with s (c ∷ t) || has_part s t

-- The digits of a number, the last one put first.
decimal_loop : (fuel : ℕ) → ℕ → Text → Text
decimal_loop zero n digits = digits
decimal_loop (suc fuel) n digits =
    let more = (48 + n % 10) ∷ digits in
    let rest = decimal_loop fuel (n / 10) more in if n / 10 == 0 then more else rest

-- str(n)
unfoldable pub decimal : ℕ → Text
unfolding decimal_loop
decimal n = decimal_loop (suc n) n []

-- One digit is taken in each step, so that n + 1 steps are enough.
decimal_loop-enough :
    (fuel n : ℕ) (digits : Text)
    → n < fuel
    → decimal_loop fuel n digits ≡ decimal_loop (suc fuel) n digits
unfolding decimal_loop
decimal_loop-enough zero n digits h = absurd (omega arith)
decimal_loop-enough (suc fuel) n digits h = elim (Bool-cases (n / 10 == 0)) [
  | inl t ↦ rw t refl
  | inr f ↦ rw f (decimal_loop-enough fuel (n / 10) ((48 + n % 10) ∷ digits) (ground arith))
]

-- The number that a text of digits stands for, after the number read so far.
unfoldable pub digits_value : ℕ → Text → ℕ
digits_value acc [] = acc
digits_value acc (c ∷ t) = digits_value (acc * 10 + (c - 48)) t

digits_value-decimal_loop :
    (fuel n : ℕ) (digits : Text)
    → n < fuel
    → digits_value 0 (decimal_loop fuel n digits) ≡ digits_value n digits
unfolding decimal_loop digits_value
digits_value-decimal_loop zero n digits h = absurd (omega arith)
digits_value-decimal_loop (suc fuel) n digits h = elim (Bool-cases (n / 10 == 0)) [
  | inl t ↦
      let e : 0 + (48 + n % 10 - 48) ≡ n = ground arith in rw t (ap (λ v. digits_value v digits) e)
  | inr f ↦
      let e : n / 10 * 10 + (48 + n % 10 - 48) ≡ n = omega arith in
      rw f (
        digits_value-decimal_loop fuel (n / 10) ((48 + n % 10) ∷ digits) (ground arith)
        ∙ ap (λ v. digits_value v digits) e)
]

-- A number is read back from its digits.
pub digits_value-decimal : (n : ℕ) → digits_value 0 (decimal n) ≡ n
unfolding decimal
digits_value-decimal n =
    digits_value-decimal_loop (suc n) n [] (omega arith) ∙ (unfold digits_value in refl)
