-- ===== src/Steering/Cap.antt =====
-- The buffer of steering messages stays within its caps, and drops the oldest messages only as far as it has to.
use mathlib.Core.List.{append_assoc}
use mathlib.Core.Path.{subst}
use pyclaw.Prelude.{
  ℕ, ◌+◌, ◌≤◌, ◌<◌, Text, ◌≡◌, refl, sym, ap, ◌∙◌, Bool, true, List, [], ◌∷◌, ◌++◌, length,
  length-append, arith, if_elim, leb, ltb, leb→le, leb→lt, ltb→lt, ltb→le, Bool-cases, inl, inr,
}
use pyclaw.Steering.{
  SteerMessage, RunControl, cap_count, cap_chars, total_chars, drop_count, drop_chars, enforce_cap,
}

abbrev pub IsSuffix : List SteerMessage → List SteerMessage → Type 0
IsSuffix s ms = (gone : List SteerMessage) × (ms ≡ gone ++ s)

-- What a buffer may hold when a text of the size comes.
abbrev pub Fits : ℕ → List SteerMessage → Type 0
Fits size s = (length s < cap_count) × (total_chars s + size ≤ cap_chars)

tail : List SteerMessage → List SteerMessage
tail [] = []
tail (m ∷ ms) = ms

-- A suffix is the whole list or one of its rest.
IsSuffix-elim :
    {A : Type 0} (m : SteerMessage) (ms s : List SteerMessage)
    → IsSuffix s (m ∷ ms)
    → (s ≡ m ∷ ms → A)
    → (IsSuffix s ms → A)
    → A
unfolding tail
IsSuffix-elim m ms s ([], q) whole rest = whole (sym q)
IsSuffix-elim m ms s (x ∷ gone, q) whole rest = rest (gone, ap tail q)

IsSuffix-cons : (m : SteerMessage) (ms s : List SteerMessage) → IsSuffix s ms → IsSuffix s (m ∷ ms)
IsSuffix-cons m ms s (gone, q) = (m ∷ gone, ap (◌∷◌ m) q)

IsSuffix-trans : (s t ms : List SteerMessage) → IsSuffix s t → IsSuffix t ms → IsSuffix s ms
IsSuffix-trans s t ms (g, p) (h, q) = (h ++ g, q ∙ ap (λ l. h ++ l) p ∙ sym (append_assoc h g s))

-- A loop that drops the oldest messages of a list: what it keeps, among the suffixes with a property, is the
-- longest one.
IsLongest : (List SteerMessage → Type 0) → List SteerMessage → List SteerMessage → Type 0
IsLongest P ms kept =
    IsSuffix kept ms × P kept × ((s : List SteerMessage) → IsSuffix s ms → P s → IsSuffix s kept)

length-IsSuffix : (s ms : List SteerMessage) → IsSuffix s ms → length s ≤ length ms
length-IsSuffix s ms (gone, q) =
    omega (arith, length-append gone s, ap (λ (l : List SteerMessage). length l) q)

IsLongest-whole :
    (P : List SteerMessage → Type 0) (ms : List SteerMessage) → P ms → IsLongest P ms ms
unfolding IsLongest
IsLongest-whole P ms p = (([], refl), p, λ s suffix _. suffix)

IsLongest-cons :
    (P : List SteerMessage → Type 0) (m : SteerMessage) (ms kept : List SteerMessage)
    → (P (m ∷ ms) → ⊥)
    → IsLongest P ms kept
    → IsLongest P (m ∷ ms) kept
unfolding IsLongest
IsLongest-cons P m ms kept refused (suffix, p, longest) = (
  IsSuffix-cons m ms kept suffix,
  p,
  λ s s_suffix ps.
      IsSuffix-elim m ms s s_suffix (λ q. absurd (refused (subst P q ps)))
        (λ rest. longest s rest ps),
)

drop_count-IsLongest :
    (ms : List SteerMessage) → IsLongest (λ s. length s < cap_count) ms (drop_count ms)
unfolding drop_count
drop_count-IsLongest [] = IsLongest-whole (λ s. length s < cap_count) [] (omega arith)
drop_count-IsLongest (m ∷ ms) =
    if_elim (IsLongest (λ s. length s < cap_count) (m ∷ ms)) (leb cap_count (length (m ∷ ms)))
      (λ full.
        IsLongest-cons (λ s. length s < cap_count) m ms (drop_count ms)
          (λ l. omega (arith, leb→le cap_count (length (m ∷ ms)) full)) (drop_count-IsLongest ms))
      (λ room.
        IsLongest-whole (λ s. length s < cap_count) (m ∷ ms)
          (leb→lt cap_count (length (m ∷ ms)) room))

drop_chars-IsLongest :
    (size : ℕ) (ms : List SteerMessage)
    → size ≤ cap_chars
    → IsLongest (λ s. total_chars s + size ≤ cap_chars) ms (drop_chars size ms)
unfolding drop_chars
drop_chars-IsLongest size [] h =
    IsLongest-whole (λ s. total_chars s + size ≤ cap_chars) [] (unfold total_chars in omega arith)
drop_chars-IsLongest size (m ∷ ms) h =
    if_elim (IsLongest (λ s. total_chars s + size ≤ cap_chars) (m ∷ ms))
      (ltb cap_chars (total_chars (m ∷ ms) + size))
      (λ full.
        IsLongest-cons (λ s. total_chars s + size ≤ cap_chars) m ms (drop_chars size ms)
          (λ l. omega (arith, l, ltb→lt cap_chars (total_chars (m ∷ ms) + size) full))
          (drop_chars-IsLongest size ms h))
      (λ room.
        IsLongest-whole (λ s. total_chars s + size ≤ cap_chars) (m ∷ ms)
          (ltb→le cap_chars (total_chars (m ∷ ms) + size) room))

-- `enforce_cap` takes a text of at most 2000 characters. The buffer then has room for it, below five messages and
-- within 2000 characters, and it is an end of the old buffer that has every other such end
-- for an end.
pub enforce_cap-Fits :
    (rc : RunControl) (new_text : Text) {warning : Text} {after : RunControl}
    → enforce_cap rc new_text ≡ (true, warning, after)
    → (length new_text ≤ cap_chars)
      × IsSuffix after.pending_steers rc.pending_steers
      × Fits (length new_text) after.pending_steers
      × ((s : List SteerMessage)
          → IsSuffix s rc.pending_steers
          → Fits (length new_text) s
          → IsSuffix s after.pending_steers)
unfolding enforce_cap
enforce_cap-Fits rc new_text {warning} {after} h =
    elim (Bool-cases (ltb cap_chars (length new_text))) [
      | inl long ↦ absurd (ground (arith, rw (enforce_cap, long) at h))
      | inr short ↦
          let size = length new_text in
          let few = drop_count-IsLongest rc.pending_steers in
          let within =
            drop_chars-IsLongest size (drop_count rc.pending_steers)
              (ltb→le cap_chars size short) in
          let kept = drop_chars size (drop_count rc.pending_steers) in
          let is_kept : kept ≡ after.pending_steers =
            ap (λ (p : Bool × Text × RunControl). p.2.pending_steers)
              (rw (enforce_cap, short) at h) in
          subst
            (λ l.
              (length new_text ≤ cap_chars)
              × IsSuffix l rc.pending_steers
              × Fits size l
              × ((s : List SteerMessage)
                  → IsSuffix s rc.pending_steers
                  → Fits size s
                  → IsSuffix s l))
            is_kept
            (unfold IsLongest in
              (
                ltb→le cap_chars size short,
                IsSuffix-trans kept (drop_count rc.pending_steers) rc.pending_steers within.0 few.0,
                (
                  omega
                      (arith, length-IsSuffix kept (drop_count rc.pending_steers) within.0, few.1),
                  within.1,
                ),
                λ s suffix fits. within.2 s (few.2 s suffix fits.0) fits.1,
              ))
    ]
