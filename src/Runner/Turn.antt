-- ===== src/Runner/Turn.antt =====
-- `classify_turn` of src/pyclaw/core/agent/incomplete_turn.py: whether a response without tool calls is an answer, a plan,
-- bare reasoning or nothing. The regular expressions are written out as scans: letters match without case as
-- in Python's `re.IGNORECASE`, and the digits of `\d` are an argument.
use pyclaw.Prelude.{
  ℕ, zero, suc, ◌+◌, ◌-◌, Text, codes, Bool, true, false, ◌&&◌, ◌||◌, not, Option, none, some, [],
  ◌∷◌, if◌then◌else◌, leb, ltb, ◌==◌, drop, length,
}
use pyclaw.Messages.{is_space, is_blank, strip}

pub data TurnClassification : Type 0 where
  complete planning reasoning empty : TurnClassification

-- A letter of a pattern, given as it is in lower case, matches `d`: i, s and k have a third or fourth form.
unfoldable pub same_letter : ℕ → ℕ → Bool
same_letter c d =
    c == d
    || (leb 97 c && leb c 122 && d == c - 32)
    || (c == 105 && (d == 0x130 || d == 0x131))
    || (c == 115 && d == 0x17f)
    || (c == 107 && d == 0x212a)

-- The text begins with the pattern, case ignored.
unfoldable pub starts_ci : (pattern text : Text) → Bool
unfolding same_letter
starts_ci [] t = true
starts_ci (a ∷ s) [] = false
starts_ci (a ∷ s) (b ∷ t) = same_letter a b && starts_ci s t

-- What follows the first "</thinking>".
unfoldable pub after_close : Text → Option Text
unfolding starts_ci
after_close [] = none
after_close (c ∷ t) =
    let rest = after_close t in
    if starts_ci (codes "</thinking>") (c ∷ t) then some (drop 11 (c ∷ t)) else rest

-- _THINKING_BLOCK.sub("", text): each block is shorter than the text, so its length is enough fuel.
unfoldable pub drop_blocks : (fuel : ℕ) → Text → Text
unfolding starts_ci after_close
drop_blocks zero t = t
drop_blocks (suc fuel) [] = []
drop_blocks (suc fuel) (c ∷ t) = elim (starts_ci (codes "<thinking>") (c ∷ t)) [
  | true ↦ elim (after_close (drop 10 (c ∷ t))) [ none ↦ c ∷ t | some rest ↦ drop_blocks fuel rest ]
  | false ↦ c ∷ drop_blocks fuel t
]

-- _THINKING_BLOCK.search(text) is not None
unfoldable pub has_block : Text → Bool
unfolding starts_ci after_close
has_block [] = false
has_block (c ∷ t) =
    (starts_ci (codes "<thinking>") (c ∷ t)
      && elim (after_close (drop 10 (c ∷ t))) [ none ↦ false | some rest ↦ true ])
    || has_block t

unfoldable pub strip_thinking : Text → Text
unfolding drop_blocks
strip_thinking t = strip (drop_blocks (length t) t)

module _ (is_digit : ℕ → Bool) where
  -- \s*\d
  unfoldable pub spaces_digit : Text → Bool
  spaces_digit [] = false
  spaces_digit (c ∷ t) = is_digit c || (is_space c && spaces_digit t)

  -- One of the phrases begins here.
  unfoldable pub phrase_here : Text → Bool
  unfolding starts_ci spaces_digit
  phrase_here t =
      starts_ci (codes "i'll") t
      || starts_ci (codes "i will") t
      || starts_ci (codes "i'm going to") t
      || starts_ci (codes "let me") t
      || starts_ci (codes "here's my plan") t
      || starts_ci (codes "heres my plan") t
      || starts_ci (codes "here's the plan") t
      || starts_ci (codes "heres the plan") t
      || starts_ci (codes "my plan") t
      || starts_ci (codes "first, i") t
      || starts_ci (codes "first i") t
      || (starts_ci (codes "step") t && spaces_digit (drop 4 t))

  -- _PLANNING_PHRASES.search(text); `fresh` says that only spaces stand since the start of a line.
  unfoldable pub has_phrase : (fresh : Bool) → Text → Bool
  unfolding phrase_here
  has_phrase fresh [] = false
  has_phrase fresh (c ∷ t) =
      (fresh && phrase_here (c ∷ t)) || has_phrase (c == 10 || (fresh && is_space c)) t

  -- Where a match of _NUMBERED_LIST stands: before its mark, in the digits of one, after the mark, or in the
  -- spaces after that, the last of which was a line's end or not.
  pub data Scan : Type 0 where
    in_line : (fresh : Bool) → Scan
    in_digits : Scan
    after_mark : Scan
    in_spaces : (fresh : Bool) → Scan

  unfoldable pub scan_line : (fresh : Bool) → ℕ → Scan
  scan_line fresh c =
      if c == 10
      then in_line true
      else if is_space c
      then in_line fresh
      else if fresh && (c == 45 || c == 42)
      then after_mark
      else if fresh && is_digit c
      then in_digits
      else in_line false

  unfoldable pub scan_char : Scan → ℕ → Scan
  unfolding scan_line
  scan_char (in_line fresh) c = scan_line fresh c
  scan_char in_digits c =
      if is_digit c then in_digits else if c == 46 then after_mark else in_line (c == 10)
  scan_char after_mark c = if is_space c then in_spaces (c == 10) else in_line false
  scan_char (in_spaces fresh) c = if is_space c then in_spaces (c == 10) else scan_line fresh c

  is_match : Scan → ℕ → Bool
  is_match after_mark c = is_space c
  is_match _ c = false

  -- len(_NUMBERED_LIST.findall(text)): a match is counted at the first space after its mark.
  unfoldable pub list_matches : Scan → Text → ℕ
  unfolding scan_char is_match
  list_matches s [] = 0
  list_matches s (c ∷ t) = (if is_match s c then 1 else 0) + list_matches (scan_char s c) t

  -- len(text.split()), from a word or from a space on.
  unfoldable pub word_count : (in_word : Bool) → Text → ℕ
  word_count in_word [] = 0
  word_count in_word (c ∷ t) =
      (if not in_word && not (is_space c) then 1 else 0) + word_count (not (is_space c)) t

  unfoldable pub looks_like_planning : Text → Bool
  unfolding has_phrase list_matches word_count
  looks_like_planning visible =
      let text = strip visible in
      has_phrase true text
      && (leb 2 (list_matches (in_line true) text) || ltb (word_count false text) 200)

  -- `classify_turn` of a response that has no tool calls.
  unfoldable pub classify_turn : Text → TurnClassification
  unfolding has_block strip_thinking looks_like_planning
  classify_turn text =
      let visible = strip_thinking text in
      if is_blank visible && not (has_block text)
      then empty
      else if has_block text && is_blank visible
      then reasoning
      else if looks_like_planning visible
      then planning
      else complete

unfoldable pub retry_message_for : TurnClassification → Option Text
retry_message_for planning =
    some (codes "Do not restate the plan. Act now by calling the appropriate tools.")
retry_message_for reasoning =
    some (codes "Continue and produce the visible answer now (outside of <thinking> tags).")
retry_message_for empty = some (codes "Produce the answer now.")
retry_message_for complete = none
