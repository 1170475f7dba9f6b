-- ===== src/Compaction/Dedup.antt =====
-- `dedupe_duplicate_user_messages` of src/pyclaw/core/agent/compaction/dedup.py. The normalised text of a message, by
-- Unicode and regular expressions, is an argument. A time is a natural number of the least unit in use; `none` is a
-- message without one.
pub mod Kept
use pyclaw.Prelude.{
  ℕ, ◌+◌, Text, Bool, true, false, ◌||◌, not, Option, none, some, List, [], ◌∷◌, length,
  if◌then◌else◌, leb, ltb, ◌==◌, text_key,
}
use pyclaw.Prelude.Dict
use pyclaw.Prelude.Dict.{Dict}
use pyclaw.Messages.{MessageRole, user, LlmMessage, extract_text_from_content}

-- A message with its timestamp.
pub record Timed : Type 0 where
  pub message : LlmMessage
  pub timestamp : Option ℕ

-- `last_seen`: by normalised text, a time, or minus infinity where the message had none.
abbrev pub LastSeen : Type 0
LastSeen = Dict Text (Option ℕ)

is_user : MessageRole → Bool
is_user user = true
is_user _ = false

is_empty : Text → Bool
is_empty [] = true
is_empty (c ∷ s) = false

-- Whether a message at a time counts as a repetition of one at a previous time.
unfoldable pub within : (window : ℕ) → (ts previous : Option ℕ) → Bool
within window none previous = true
within window (some ts) none = window == 0
within window (some ts) (some previous) = (window == 0) || leb ts (previous + window)

unfoldable pub is_duplicate : (window : ℕ) → LastSeen → Text → Option ℕ → Bool
unfolding within
is_duplicate window last_seen normalized ts = elim (Dict.get last_seen normalized) [
  | none ↦ false
  | some previous ↦ within window ts previous
]

-- Whether a message is kept without a look at the earlier ones.
unfoldable pub is_exempt : (normalize : Text → Text) → (min_chars : ℕ) → LlmMessage → Bool
unfolding is_user is_empty
is_exempt normalize min_chars m =
    let text = extract_text_from_content m.content in
    not (is_user m.role) || ltb (length text) min_chars || is_empty (normalize text)

unfoldable pub key_of : (normalize : Text → Text) → LlmMessage → Text
key_of normalize m = normalize (extract_text_from_content m.content)

-- The loop over the messages.
unfoldable pub dedupe :
    (normalize : Text → Text) (window min_chars : ℕ) → LastSeen → List Timed → List Timed
unfolding is_duplicate is_exempt key_of
dedupe normalize window min_chars last_seen [] = []
dedupe normalize window min_chars last_seen (m ∷ ms) =
    let key = key_of normalize m.message in
    let skip = dedupe normalize window min_chars last_seen ms in
    let exempt = m ∷ skip in
    let keep = m ∷ dedupe normalize window min_chars (Dict.put last_seen key m.timestamp) ms in
    if is_exempt normalize min_chars m.message
    then exempt
    else (if is_duplicate window last_seen key m.timestamp then skip else keep)

unfoldable pub dedupe_duplicate_user_messages :
    (normalize : Text → Text) (window min_chars : ℕ) → List Timed → List Timed
unfolding dedupe
dedupe_duplicate_user_messages normalize window min_chars ms =
    dedupe normalize window min_chars [] ms
