-- ===== src/Evolution/Sop.antt =====
-- The procedures that are extracted from a session: their check and the text they are stored as, in
-- src/pyclaw/core/sop_extraction.py, and the parse of that text in src/pyclaw/core/skill_graduation.py.
pub mod Stored
use pyclaw.Prelude.{
  ℕ, zero, suc, ◌+◌, Text, codes, Bool, true, false, ◌&&◌, ◌||◌, not, Option, none, some, [], ◌∷◌,
  ◌++◌, all, length, if◌then◌else◌, leb, ltb, ◌==◌,
}
use pyclaw.Messages.{is_space, is_blank, strip}

-- An item that the language model gave: its fields, each none where it is missing or no string.
pub record RawSop : Type 0 where
  pub name : Option Text
  pub description : Option Text
  pub procedure : Option Text

-- Why `_validate_sop` refuses an item.
pub data Reason : Type 0 where
  invalid_name name_too_long description_not_a_string description_too_long : Reason
  procedure_not_a_string procedure_empty procedure_too_long dangerous : Reason

pub record Sop : Type 0 where
  pub name : Text
  pub description : Text
  pub procedure : Text

pub record Limits : Type 0 where
  pub description_max_chars : ℕ
  pub procedure_max_chars : ℕ

-- f"{name}\n{description}\n{procedure}"
unfoldable pub three_lines : Text → Text → Text → Text
three_lines name description procedure = name ++ (10 ∷ (description ++ (10 ∷ procedure)))

unfoldable pub format_sop_content : Sop → Text
unfolding three_lines
format_sop_content sop = three_lines (strip sop.name) (strip sop.description) (strip sop.procedure)

pub data Checked : Type 0 where
  valid : Sop → Checked
  refused : Reason → Checked

module _ (is_dangerous : Text → Bool) (limits : Limits) where
  unfoldable pub check_content : Sop → Checked
  unfolding three_lines
  check_content sop =
      if is_dangerous (three_lines sop.name sop.description sop.procedure)
      then refused dangerous
      else valid sop

  unfoldable pub check_procedure : Text → Text → Option Text → Checked
  unfolding check_content
  check_procedure name description none = refused procedure_not_a_string
  check_procedure name description (some procedure) =
      if is_blank procedure
      then refused procedure_empty
      else if ltb limits.procedure_max_chars (length procedure)
      then refused procedure_too_long
      else check_content (record { name = name; description = description; procedure = procedure })

  unfoldable pub check_description : Text → Option Text → Option Text → Checked
  unfolding check_procedure
  check_description name none procedure = refused description_not_a_string
  check_description name (some description) procedure =
      if ltb limits.description_max_chars (length description)
      then refused description_too_long
      else check_procedure name description procedure

  unfoldable pub check_name : Option Text → Option Text → Option Text → Checked
  unfolding check_description
  check_name none description procedure = refused invalid_name
  check_name (some name) description procedure =
      if is_blank name
      then refused invalid_name
      else if ltb 80 (length name)
      then refused name_too_long
      else check_description name description procedure

  -- `_validate_sop` of a dict: the sop, or why it is refused. `is_dangerous` is the search of _DANGEROUS_RE.
  unfoldable pub validate_sop : RawSop → Checked
  unfolding check_name
  validate_sop raw = check_name raw.name raw.description raw.procedure

-- A letter, a digit, or a dash where `dash` says so: [a-z0-9] and [a-z0-9-].
unfoldable pub is_slug_char : (dash : Bool) → ℕ → Bool
is_slug_char dash c = (leb 97 c && leb c 122) || (leb 48 c && leb c 57) || (dash && c == 45)

-- _NAME_RE.match(name); a name that is stripped has no newline that `$` would let stand at its end.
unfoldable pub is_slug : Text → Bool
unfolding is_slug_char
is_slug [] = false
is_slug (c ∷ t) =
    is_slug_char false c && all (is_slug_char true) t && leb 1 (length t) && leb (length t) 60

-- What stands before the first newline, and after it.
unfoldable pub cut_line : Text → Option (Text × Text)
cut_line [] = none
cut_line (c ∷ t) =
    if c == 10
    then some ([], t)
    else elim (cut_line t) [ none ↦ none | some (line, rest) ↦ some (c ∷ line, rest) ]

unfoldable pub checked_sop : Text → Text → Text → Option Sop
unfolding is_slug
checked_sop name description procedure =
    if not (is_slug name)
    then none
    else if is_blank procedure
    then none
    else some (record { name = name; description = description; procedure = procedure })

unfoldable pub after_first : Text → Option (Text × Text) → Option Sop
unfolding checked_sop
after_first name none = none
after_first name (some (description, procedure)) =
    checked_sop (strip name) (strip description) (strip procedure)

unfoldable pub after_cut : Option (Text × Text) → Option Sop
unfolding after_first cut_line
after_cut none = none
after_cut (some (name, rest)) = after_first name (cut_line rest)

-- `parse_sop_content`: content.split("\n", 2) with three parts, each stripped.
unfoldable pub parse_sop_content : Text → Option Sop
unfolding after_cut cut_line
parse_sop_content content = if is_blank content then none else after_cut (cut_line content)
