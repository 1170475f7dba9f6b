-- ===== src/Session/RedisStore/Keys.antt =====
-- The keys of the sessions are different for different sessions and for the different parts of one.
use mathlib.Core.List.{
  reverse, reverse-append, append_cancel_left, append_cancel_right, append_assoc,
}
use pyclaw.Prelude.{if◌then◌else◌, text_eq, Text, codes, ◌++◌, take, ◌≡◌, ◌≢◌, refl, sym, ap, ◌∙◌}
use pyclaw.Session.RedisStore.{Config, braced, hdr_key, entries_key, order_key, leaf_key}

pub data Part : Type 0 where
  header entries order leaf : Part

abbrev pub part_key : Config → Part → Text → Text
part_key config header sid = hdr_key config sid
part_key config entries sid = entries_key config sid
part_key config order sid = order_key config sid
part_key config leaf sid = leaf_key config sid

-- The four characters at the end, backwards.
abbrev ending : Text → Text
ending t = take 4 (reverse t)

abbrev part_ending : Part → Text
part_ending header = codes "reda"
part_ending entries = codes "seir"
part_ending order = codes "redr"
part_ending leaf = codes "fael"

reverse-braced :
    (prefix namespace id kind : Text)
    → reverse (braced prefix namespace id kind)
      ≡ reverse kind ++ (reverse (prefix ++ (namespace ++ id)))
unfolding braced
reverse-braced prefix namespace id kind =
    ap reverse (
      ap (λ t. prefix ++ t) (sym (append_assoc namespace id kind))
      ∙ sym (append_assoc prefix (namespace ++ id) kind))
    ∙ reverse-append (prefix ++ (namespace ++ id)) kind

ending-part_key :
    (config : Config) (p : Part) (sid : Text) → ending (part_key config p sid) ≡ part_ending p
unfolding hdr_key entries_key order_key leaf_key
ending-part_key config header sid =
    ap (take 4) (reverse-braced config.key_prefix (codes "session:{") sid (codes "}:header"))
ending-part_key config entries sid =
    ap (take 4) (reverse-braced config.key_prefix (codes "session:{") sid (codes "}:entries"))
ending-part_key config order sid =
    ap (take 4) (reverse-braced config.key_prefix (codes "session:{") sid (codes "}:order"))
ending-part_key config leaf sid =
    ap (take 4) (reverse-braced config.key_prefix (codes "session:{") sid (codes "}:leaf"))

braced_inj :
    (prefix namespace kind i j : Text)
    → braced prefix namespace i kind ≡ braced prefix namespace j kind
    → i ≡ j
unfolding braced
braced_inj prefix namespace kind i j h = append_cancel_right i j kind (
    append_cancel_left namespace (i ++ kind) (j ++ kind)
      (append_cancel_left prefix (namespace ++ (i ++ kind)) (namespace ++ (j ++ kind)) h))

pub part_key_inj :
    (config : Config) (p : Part) (i j : Text) → part_key config p i ≡ part_key config p j → i ≡ j
unfolding hdr_key entries_key order_key leaf_key
part_key_inj config header i j h =
    braced_inj config.key_prefix (codes "session:{") (codes "}:header") i j h
part_key_inj config entries i j h =
    braced_inj config.key_prefix (codes "session:{") (codes "}:entries") i j h
part_key_inj config order i j h =
    braced_inj config.key_prefix (codes "session:{") (codes "}:order") i j h
part_key_inj config leaf i j h =
    braced_inj config.key_prefix (codes "session:{") (codes "}:leaf") i j h

pub part_key-part :
    (config : Config) (p q : Part) (i j : Text)
    → part_key config p i ≡ part_key config q j
    → part_ending p ≡ part_ending q
part_key-part config p q i j h =
    sym (ending-part_key config p i) ∙ ap ending h ∙ ending-part_key config q j

part_of : Text → Part
part_of t =
    if text_eq t (part_ending header)
    then header
    else if text_eq t (part_ending entries)
    then entries
    else if text_eq t (part_ending order)
    then order
    else leaf

part_of-ending : (p : Part) → part_of (part_ending p) ≡ p
unfolding part_of text_eq
part_of-ending header = refl
part_of-ending entries = refl
part_of-ending order = refl
part_of-ending leaf = refl

-- Two keys that are the same are of one part.
part_key-part_inj :
    (config : Config) (p q : Part) (i j : Text) → part_key config p i ≡ part_key config q j → p ≡ q
part_key-part_inj config p q i j h =
    sym (part_of-ending p) ∙ ap part_of (part_key-part config p q i j h) ∙ part_of-ending q

pub part_key-part_ne :
    (config : Config) (p q : Part) (i j : Text) → p ≢ q → part_key config p i ≢ part_key config q j
part_key-part_ne config p q i j different h = different (part_key-part_inj config p q i j h)

pub part_key-id_ne :
    (config : Config) (p q : Part) (i j : Text) → i ≢ j → part_key config p i ≢ part_key config q j
part_key-id_ne config p q i j different h = different (
    part_key_inj config q i j
      (ap (λ r. part_key config r i) (sym (part_key-part_inj config p q i j h)) ∙ h))
