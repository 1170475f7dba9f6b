-- ===== src/Messages/Strip.antt =====
-- What `str.strip` leaves: nothing more to strip.
use pyclaw.Prelude.{ℕ, Text, ◌&&◌, false, [], ◌∷◌, ◌≡◌, refl, ap, ◌∙◌, Bool-cases, inl, inr, arith}
use pyclaw.Messages.{is_space, is_blank, lstrip, rstrip, rstrip_at, strip}

rstrip_at-rstrip : (c : ℕ) (t : Text) → rstrip t ≡ t → rstrip (rstrip_at c t) ≡ rstrip_at c t
unfolding rstrip_at rstrip
rstrip_at-rstrip c [] h = elim (Bool-cases (is_space c)) [
  | inl e ↦ rw e refl
  | inr e ↦ rw e (rw e refl)
]
rstrip_at-rstrip c (d ∷ t) h = rw h refl

rstrip-rstrip : (t : Text) → rstrip (rstrip t) ≡ rstrip t
unfolding rstrip
rstrip-rstrip [] = refl
rstrip-rstrip (c ∷ t) = rstrip_at-rstrip c (rstrip t) (rstrip-rstrip t)

lstrip-rstrip_at : (c : ℕ) (t : Text) → is_space c ≡ false → lstrip (rstrip_at c t) ≡ rstrip_at c t
unfolding lstrip rstrip_at
lstrip-rstrip_at c [] h = rw h (rw h refl)
lstrip-rstrip_at c (d ∷ t) h = rw h refl

lstrip-strip : (t : Text) → lstrip (strip t) ≡ strip t
unfolding strip
lstrip-strip [] = unfold lstrip in unfold rstrip in refl
lstrip-strip (c ∷ t) = elim (Bool-cases (is_space c)) [
  | inl e ↦ unfold lstrip in rw e (lstrip-strip t)
  | inr e ↦ unfold lstrip in rw e (unfold rstrip in lstrip-rstrip_at c (rstrip t) e)
]

pub strip-strip : (t : Text) → strip (strip t) ≡ strip t
unfolding strip
strip-strip t = ap rstrip (lstrip-strip t) ∙ rstrip-rstrip (lstrip t)

is_blank-lstrip : (t : Text) → is_blank (lstrip t) ≡ is_blank t
unfolding lstrip is_blank
is_blank-lstrip [] = refl
is_blank-lstrip (c ∷ t) = ground (arith, is_blank-lstrip t)

is_blank-rstrip_at : (c : ℕ) (t : Text) → is_blank (rstrip_at c t) ≡ is_blank (c ∷ t)
unfolding rstrip_at is_blank
is_blank-rstrip_at c [] = ground arith
is_blank-rstrip_at c (d ∷ t) = refl

is_blank-rstrip : (t : Text) → is_blank (rstrip t) ≡ is_blank t
unfolding rstrip is_blank
is_blank-rstrip [] = refl
is_blank-rstrip (c ∷ t) =
    is_blank-rstrip_at c (rstrip t) ∙ ap (λ b. is_space c && b) (is_blank-rstrip t)

pub is_blank-strip : (t : Text) → is_blank (strip t) ≡ is_blank t
unfolding strip
is_blank-strip t = is_blank-rstrip (lstrip t) ∙ is_blank-lstrip t
