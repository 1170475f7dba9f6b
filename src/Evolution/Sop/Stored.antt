-- ===== src/Evolution/Sop/Stored.antt =====
-- A procedure that is stored is read back when it is promoted.
use mathlib.Core.List.{append_assoc}
use pyclaw.Prelude.{
  Text, true, false, some, [], ◌∷◌, ◌++◌, all, ◌==◌, ◌≡◌, refl, ap, ◌∙◌, arith, All,
}
use pyclaw.Messages.{is_space, is_blank, strip}
use pyclaw.Messages.Strip.{strip-strip, is_blank-strip}
use pyclaw.Evolution.Sop.{
  Sop, format_sop_content, three_lines, cut_line, checked_sop, is_slug, is_slug_char,
  parse_sop_content, after_cut, after_first,
}

-- No newline stands in the text.
abbrev pub IsLine : Text → Type 0
IsLine t = All (λ c. (c == 10) ≡ false) t

cut_line-append :
    (line rest : Text) → IsLine line → cut_line (line ++ 10 ∷ rest) ≡ some (line, rest)
unfolding cut_line
cut_line-append [] rest h = refl
cut_line-append (c ∷ line) rest h = rw (h.0, cut_line-append line rest h.1) refl

slug_char-IsLine : (t : Text) → all (is_slug_char true) t ≡ true → IsLine t
unfolding is_slug_char
slug_char-IsLine [] h = tt
slug_char-IsLine (c ∷ t) h = (ground arith, slug_char-IsLine t (ground arith))

slug-IsLine : (t : Text) → is_slug t ≡ true → IsLine t
unfolding is_slug is_slug_char
slug-IsLine [] h = tt
slug-IsLine (c ∷ t) h = (ground arith, slug_char-IsLine t (ground arith))

-- A slug begins with a character that is no space.
slug-not_blank : (t rest : Text) → is_slug t ≡ true → is_blank (t ++ rest) ≡ false
unfolding is_slug is_slug_char is_blank is_space
slug-not_blank [] rest h = cc
slug-not_blank (c ∷ t) rest h = ground arith

abbrev pub stripped : Sop → Sop
stripped sop = record {
  name = strip sop.name;
  description = strip sop.description;
  procedure = strip sop.procedure;
}

checked :
    (name description procedure : Text)
    → is_slug name ≡ true
    → is_blank procedure ≡ false
    → checked_sop name description procedure
      ≡ some (record { name = name; description = description; procedure = procedure })
unfolding checked_sop
checked name description procedure slug filled = rw (slug, filled) refl

-- The parse of three lines, the second and third of which may be any texts without a newline in the first two.
parse_lines :
    (name line rest : Text)
    → is_slug name ≡ true
    → strip name ≡ name
    → IsLine line
    → is_blank rest ≡ false
    → parse_sop_content (three_lines name line rest)
      ≡ some (record { name = name; description = strip line; procedure = strip rest })
unfolding parse_sop_content three_lines after_cut after_first
parse_lines name line rest slug same is_line filled =
    rw (slug-not_blank name (10 ∷ (line ++ (10 ∷ rest))) slug) (
      ap after_cut (cut_line-append name (line ++ (10 ∷ rest)) (slug-IsLine name slug))
      ∙ ap (after_first name) (cut_line-append line rest is_line)
      ∙ ap (λ n. checked_sop n (strip line) (strip rest)) same
      ∙ checked name (strip line) (strip rest) slug (is_blank-strip rest ∙ filled))

-- A procedure whose name is a slug, whose description is one line and which is not blank is read back, stripped, from the
-- text that it is stored as.
pub parse_sop_content-format_sop_content :
    (sop : Sop)
    → is_slug (strip sop.name) ≡ true
    → IsLine (strip sop.description)
    → is_blank sop.procedure ≡ false
    → parse_sop_content (format_sop_content sop) ≡ some (stripped sop)
unfolding format_sop_content
parse_sop_content-format_sop_content sop slug line filled =
    parse_lines (strip sop.name) (strip sop.description) (strip sop.procedure) slug
      (strip-strip sop.name) line (is_blank-strip sop.procedure ∙ filled)
    ∙ ap some (rw (strip-strip sop.description, strip-strip sop.procedure) refl)

is_blank-append : (s t : Text) → is_blank t ≡ false → is_blank (s ++ 10 ∷ t) ≡ false
unfolding is_blank
is_blank-append [] t h = ground (arith, h)
is_blank-append (c ∷ s) t h = ground (arith, is_blank-append s t h)

-- A procedure whose name is a slug and whose description has several lines, which the check of an item accepts, is not
-- read back: of its description the first line is left, and the others stand at the head of its steps.
pub parse_sop_content-many_lines :
    (sop : Sop) (line more : Text)
    → is_slug (strip sop.name) ≡ true
    → strip sop.description ≡ line ++ 10 ∷ more
    → IsLine line
    → is_blank sop.procedure ≡ false
    → parse_sop_content (format_sop_content sop)
      ≡ some (record {
        name = strip sop.name;
        description = strip line;
        procedure = strip (more ++ 10 ∷ strip sop.procedure);
      })
unfolding format_sop_content
parse_sop_content-many_lines sop line more slug lines is_line filled =
    ap (λ d. parse_sop_content (three_lines (strip sop.name) d (strip sop.procedure))) lines
    ∙ ap parse_sop_content (
        unfold three_lines in
        ap (λ t. strip sop.name ++ (10 ∷ t))
          (append_assoc line (10 ∷ more) (10 ∷ strip sop.procedure)))
    ∙ parse_lines (strip sop.name) line (more ++ 10 ∷ strip sop.procedure) slug
        (strip-strip sop.name) is_line
        (is_blank-append more (strip sop.procedure) (is_blank-strip sop.procedure ∙ filled))
