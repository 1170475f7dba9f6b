-- ===== src/Messages.antt =====
-- The messages that go to the LLM, as the dicts that `build_session_context` of
-- src/pyclaw/models/session.py makes and the compaction reads; with `extract_text_from_content` of
-- src/pyclaw/models/utils.py.
pub mod Strip
use pyclaw.Prelude.{
  if◌then◌else◌, ℕ, Text, codes, Bool, ◌&&◌, ◌||◌, Option, List, [], ◌∷◌, ◌++◌, all, leb, ◌==◌,
}
use pyclaw.Tools.Types.{Call}

pub data MessageRole : Type 0 where
  system user assistant tool : MessageRole
  other : Text → MessageRole

-- A block of a content list: a dict with the type "text", one with the type "image" or "image_url" by
-- its url, or one with another type and its `text`.
pub data Part : Type 0 where
  text : Text → Part
  image : Text → Part
  other_type : Text → Part

pub data MessageContent : Type 0 where
  plain : Text → MessageContent
  parts : List Part → MessageContent
  nothing : MessageContent

pub record LlmMessage : Type 0 where
  pub role : MessageRole
  pub content : MessageContent
  pub tool_calls : List Call
  pub tool_call_id : Option Text

-- The code points that `str.isspace` accepts and `str.strip` removes.
unfoldable pub is_space : ℕ → Bool
is_space c =
    (leb 9 c && leb c 13)
    || (leb 28 c && leb c 32)
    || c == 0x85
    || c == 0xa0
    || c == 0x1680
    || (leb 0x2000 c && leb c 0x200a)
    || c == 0x2028
    || c == 0x2029
    || c == 0x202f
    || c == 0x205f
    || c == 0x3000

-- not text.strip()
unfoldable pub is_blank : Text → Bool
unfolding is_space
is_blank s = all is_space s

-- text.lstrip()
unfoldable pub lstrip : Text → Text
unfolding is_space
lstrip [] = []
lstrip (c ∷ s) = let rest = lstrip s in if is_space c then rest else c ∷ s

-- A character before what is left of the rest.
unfoldable pub rstrip_at : ℕ → Text → Text
unfolding is_space
rstrip_at c [] = if is_space c then [] else c ∷ []
rstrip_at c (d ∷ t) = c ∷ d ∷ t

-- text.rstrip()
unfoldable pub rstrip : Text → Text
unfolding rstrip_at
rstrip [] = []
rstrip (c ∷ s) = rstrip_at c (rstrip s)

unfoldable pub strip : Text → Text
unfolding lstrip rstrip
strip s = rstrip (lstrip s)

-- "\n".join(ts)
unfoldable pub join_lines : List Text → Text
join_lines [] = []
join_lines (t ∷ []) = t
join_lines (t ∷ u ∷ us) = t ++ 10 ∷ join_lines (u ∷ us)

abbrev pub image_placeholder : Text
image_placeholder = codes "[图片]"

unfoldable pub part_texts : List Part → List Text
part_texts [] = []
part_texts (text t ∷ ps) = t ∷ part_texts ps
part_texts (image u ∷ ps) = image_placeholder ∷ part_texts ps
part_texts (other_type t ∷ ps) = part_texts ps

unfoldable pub extract_text_from_content : MessageContent → Text
unfolding part_texts join_lines
extract_text_from_content (plain t) = t
extract_text_from_content (parts ps) = join_lines (part_texts ps)
extract_text_from_content nothing = []
