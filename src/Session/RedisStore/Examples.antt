-- ===== src/Session/RedisStore/Examples.antt =====
-- A server in memory, and a session in it.
use mathlib.Core.Option
use mathlib.Core.Path.{subst}
use pyclaw.Prelude.{
  Text, codes, Bool, true, false, Option, none, some, some_inj, List, [], ◌∷◌, ◌++◌, ◌≡◌, ◌≢◌, refl,
  ap, ◌∙◌, if◌then◌else◌, text_eq, text_eq_iff, text_key, ok, Bool-cases, inl, inr,
}
use pyclaw.Prelude.Dict
use pyclaw.Prelude.Dict.{Dict}
use pyclaw.Session.Types.{Body, Entry, Header, SessionTree}
use pyclaw.Session.Tree.{new_tree, put_entry}
use pyclaw.Session.Store
use pyclaw.Session.Store.{Store}
use pyclaw.Session.RedisStore
use pyclaw.Session.RedisStore.{
  Value, absent, string, hash, list, Keyspace, IsKeyspace, Codec, Config, IsRead, as_hash, as_list,
  as_string, load, save_header, write_entry, hdr_key, entries_key, order_key, leaf_key,
}
use pyclaw.Session.RedisStore.Held.{Holds, HoldsAll}
use pyclaw.Session.RedisStore.Refines.{append_entry-refines}
use pyclaw.Session.RedisStore.Loads.{IsLoaded, load-IsLoaded}

abbrev or_absent : Option Value → Value
or_absent none = absent
or_absent (some v) = v

abbrev with_field :
    Dict Text Value → (key field text : Text) → Option (Dict Text Text) → Dict Text Value
with_field s k f v none = s
with_field s k f v (some d) = Dict.put s k (hash (Dict.put d f v))

abbrev with_last : Dict Text Value → (key text : Text) → Option (List Text) → Dict Text Value
with_last s k v none = s
with_last s k v (some l) = Dict.put s k (list (l ++ v ∷ []))

abbrev server : Keyspace (Dict Text Value)
server = record {
  value = λ s k. or_absent (Dict.get s k);
  set = λ s k v. Dict.put s k (string v);
  hset = λ s k f v. with_field s k f v (as_hash (or_absent (Dict.get s k)));
  rpush = λ s k v. with_last s k v (as_list (or_absent (Dict.get s k)));
  zadd = λ s k member n. s;
  zrem = λ s k member. s;
  expire = λ s k ttl. s;
  del = λ s k. Dict.remove s k;
}

with_field_ne :
    (s : Dict Text Value) (k j f v : Text) (o : Option (Dict Text Text))
    → k ≢ j
    → or_absent (Dict.get (with_field s k f v o) j) ≡ or_absent (Dict.get s j)
with_field_ne s k j f v none different = refl
with_field_ne s k j f v (some d) different =
    ap or_absent (Dict.get-put_ne s k j (hash (Dict.put d f v)) different)

with_last_ne :
    (s : Dict Text Value) (k j v : Text) (o : Option (List Text))
    → k ≢ j
    → or_absent (Dict.get (with_last s k v o) j) ≡ or_absent (Dict.get s j)
with_last_ne s k j v none different = refl
with_last_ne s k j v (some l) different =
    ap or_absent (Dict.get-put_ne s k j (list (l ++ v ∷ [])) different)

server-IsKeyspace : IsKeyspace server
server-IsKeyspace = record {
  value-set = λ s k v. ap or_absent (Dict.get-put_self s k (string v));
  value-set_ne = λ s k j v different. ap or_absent (Dict.get-put_ne s k j (string v) different);
  value-hset = λ s k f v d h. (
    Dict.put d f v,
    ap (λ o. or_absent (Dict.get (with_field s k f v o) k)) h
        ∙ ap or_absent (Dict.get-put_self s k (hash (Dict.put d f v))),
    λ g. Dict.get-put d f g v,
  );
  value-hset_ne =
      λ s k j f v different. with_field_ne s k j f v (as_hash (or_absent (Dict.get s k))) different;
  value-rpush = λ s k v l h.
      ap (λ o. or_absent (Dict.get (with_last s k v o) k)) h
      ∙ ap or_absent (Dict.get-put_self s k (list (l ++ v ∷ [])));
  value-rpush_ne =
      λ s k j v different. with_last_ne s k j v (as_list (or_absent (Dict.get s k))) different;
  value-expire = λ s k j ttl. refl;
}

abbrev header : Header
header = record {
  id = codes "s";
  workspace_id = codes "w";
  agent_id = codes "a";
  created_at = codes "2025";
  parent_session = none;
  session_key = codes "k";
  last_interaction_at = none;
  idle_minutes_override = none;
  model_override = none;
  title = none;
}

abbrev note : Entry
note = record {
  id = codes "1";
  parent_id = none;
  timestamp = codes "2025";
  body = Body.custom (codes "note");
}

abbrev codec : Codec
codec = record {
  encode_header = λ h. h.id;
  decode_header = λ t. if text_eq t (codes "s") then some header else none;
  serialize_entry = λ e. e.id;
  parse_entry = λ t. if text_eq t (codes "1") then some note else none;
}

abbrev config : Config
config = record { key_prefix = codes "p:"; ttl = 60 }

abbrev store : Store
store = record { trees = (codes "s", new_tree header) ∷ []; current = []; history = [] }

abbrev saved : Dict Text Value
saved = save_header server codec config [] (new_tree header)

saved-Holds : Holds server codec config saved (codes "s") (new_tree header)
unfolding save_header new_tree hdr_key entries_key order_key leaf_key as_hash as_list as_string
    Dict.get Dict.put text_eq
saved-Holds = record {
  header_held = refl;
  entries_held = ([], refl, λ id. refl);
  order_held = refl;
  leaf_held = refl;
}

saved-HoldsAll : HoldsAll server codec config saved store
unfolding Store.load Dict.get
saved-HoldsAll sid tree found = elim (Bool-cases (text_eq (codes "s") sid)) [
  | inl t ↦
      let same : new_tree header ≡ tree = some_inj (rw t at found) in
      subst (Holds server codec config saved sid) same (
        subst (λ i. Holds server codec config saved i (new_tree header))
          ((text_eq_iff (codes "s") sid).0 t) saved-Holds)
  | inr f ↦ cc (rw f at found)
]

abbrev after : Store
after = record store { trees = (codes "s", put_entry (new_tree header) note) ∷ [] }

append_entry-refines_example :
    (t : Dict Text Value) × (RedisStore.append_entry server codec config true saved
        (codes "s")
        note
        (codes "1")
      ≡ ok t)
    × HoldsAll server codec config t after
unfolding Store.append_entry Dict.get text_eq Dict.put put_entry
append_entry-refines_example =
    append_entry-refines server codec config server-IsKeyspace saved store (codes "s") note
      (codes "1") after saved-HoldsAll refl

abbrev tree : SessionTree
tree = record {
  header = header;
  entries = (codes "1", note) ∷ [];
  order = codes "1" ∷ [];
  leaf_id = some (codes "1");
}

abbrev written : Dict Text Value
written = write_entry server codec config saved (codes "s") note (codes "1")

map-if :
    (b : Bool)
    → (if b then some (codes "1") else none)
      ≡ Option.map codec.serialize_entry (if b then some note else none)
map-if true = refl
map-if false = refl

written-Holds : Holds server codec config written (codes "s") tree
unfolding write_entry save_header new_tree hdr_key entries_key order_key leaf_key as_hash as_list
    as_string Dict.get Dict.put text_eq
written-Holds = record {
  header_held = refl;
  entries_held = ((codes "1", codes "1") ∷ [], refl, λ id. map-if (text_eq (codes "1") id));
  order_held = refl;
  leaf_held = refl;
}

tree-IsRead : IsRead codec tree
unfolding text_eq
tree-IsRead = record {
  header_read = refl;
  entries_read = λ id e h. is_note (text_eq (codes "1") id) e (unfold Dict.get in h);
}
  where
    is_note :
        (b : Bool) (e : Entry)
        → (if b then some note else none) ≡ some e
        → codec.parse_entry (codec.serialize_entry e) ≡ some e
    is_note true e h =
        subst (λ (e : Entry). codec.parse_entry (codec.serialize_entry e) ≡ some e) (some_inj h)
          refl
    is_note false e h = cc

load-IsLoaded_example :
    (loaded : SessionTree) × (load server codec config written (codes "s") ≡ some loaded)
    × IsLoaded tree loaded
load-IsLoaded_example =
    load-IsLoaded server codec config written (codes "s") tree tree-IsRead written-Holds
