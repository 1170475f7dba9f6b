-- ===== src/Session/RedisStore.antt =====
-- `RedisSessionStore` of src/pyclaw/storage/session/redis.py: a session is a header, a hash of entries, their order and the
-- leaf, under four keys of the server. The server, the JSON codec of the models, the clock and whether the lock of a
-- session is acquired are arguments; the list of past sessions is left out.
pub mod Keys
pub mod Held
pub mod Loads
pub mod Refines
mod Examples
use mathlib.Core.Option
use pyclaw.Prelude.{
  ℕ, Text, codes, Bool, true, false, Option, none, some, List, [], ◌∷◌, ◌++◌, ◌≡◌, ◌≢◌, Result, ok,
  err, if◌then◌else◌, text_eq, text_key,
}
use pyclaw.Prelude.Dict
use pyclaw.Prelude.Dict.{Dict}
use pyclaw.Session.Types.{Entry, Header, SessionTree}
use pyclaw.Session.Tree.{new_tree}
use pyclaw.Session.Store.{generate_session_id}

-- What the server holds under a key.
pub data Value : Type 0 where
  absent : Value
  string : Text → Value
  hash : Dict Text Text → Value
  list : List Text → Value
  sorted_set : Dict Text ℕ → Value

pub record Keyspace (S : Type 0) : Type 0 where
  pub value : S → Text → Value
  pub set : S → Text → Text → S
  pub hset : S → Text → (field text : Text) → S
  pub rpush : S → Text → Text → S
  pub zadd : S → Text → (member : Text) → ℕ → S
  pub zrem : S → Text → (member : Text) → S
  pub expire : S → Text → ℕ → S
  pub del : S → Text → S

-- GET, HGETALL and LRANGE 0 -1, where the key has a value of the right kind or none.
unfoldable pub as_string : Value → Option Text
as_string (string t) = some t
as_string _ = none

unfoldable pub as_hash : Value → Option (Dict Text Text)
as_hash absent = some []
as_hash (hash d) = some d
as_hash _ = none

unfoldable pub as_list : Value → Option (List Text)
as_list absent = some []
as_list (list l) = some l
as_list _ = none

-- model_dump_json, model_validate_json of a header and `_parse_entry`: none where it raises or is skipped.
pub record Codec : Type 0 where
  pub encode_header : Header → Text
  pub decode_header : Text → Option Header
  pub serialize_entry : Entry → Text
  pub parse_entry : Text → Option Entry

pub data SessionLockError : Type 0 where
  not_locked : Text → SessionLockError

-- The writes on one key: `SET`, `HSET` and so on, as documented; a hash has no order of its own.
pub record IsKeyspace {S : Type 0} (c : Keyspace S) : Type 0 where
  pub value-set : (s : S) (k v : Text) → c.value (c.set s k v) k ≡ string v
  pub value-set_ne : (s : S) (k j v : Text) → k ≢ j → c.value (c.set s k v) j ≡ c.value s j
  pub value-hset :
      (s : S) (k f v : Text) (d : Dict Text Text)
      → as_hash (c.value s k) ≡ some d
      → (after : Dict Text Text) × (c.value (c.hset s k f v) k ≡ hash after)
        × ((g : Text) → Dict.get after g ≡ (if text_eq f g then some v else Dict.get d g))
  pub value-hset_ne : (s : S) (k j f v : Text) → k ≢ j → c.value (c.hset s k f v) j ≡ c.value s j
  pub value-rpush :
      (s : S) (k v : Text) (l : List Text)
      → as_list (c.value s k) ≡ some l
      → c.value (c.rpush s k v) k ≡ list (l ++ v ∷ [])
  pub value-rpush_ne : (s : S) (k j v : Text) → k ≢ j → c.value (c.rpush s k v) j ≡ c.value s j
  pub value-expire : (s : S) (k j : Text) (ttl : ℕ) → c.value (c.expire s k ttl) j ≡ c.value s j

-- What was written of a session is read back.
pub record IsRead (c : Codec) (tree : SessionTree) : Type 0 where
  pub header_read : c.decode_header (c.encode_header tree.header) ≡ some tree.header
  pub entries_read :
      (id : Text) (e : Entry)
      → Dict.get tree.entries id ≡ some e
      → c.parse_entry (c.serialize_entry e) ≡ some e

pub record Config : Type 0 where
  pub key_prefix : Text
  pub ttl : ℕ

-- f"{prefix}{namespace}:{{{id}}}:{kind}"
unfoldable pub braced : (prefix namespace id kind : Text) → Text
braced prefix namespace id kind = prefix ++ (namespace ++ (id ++ kind))

module _ (config : Config) where
  unfoldable pub hdr_key : Text → Text
  unfolding braced
  hdr_key sid = braced config.key_prefix (codes "session:{") sid (codes "}:header")

  unfoldable pub entries_key : Text → Text
  unfolding braced
  entries_key sid = braced config.key_prefix (codes "session:{") sid (codes "}:entries")

  unfoldable pub order_key : Text → Text
  unfolding braced
  order_key sid = braced config.key_prefix (codes "session:{") sid (codes "}:order")

  unfoldable pub leaf_key : Text → Text
  unfolding braced
  leaf_key sid = braced config.key_prefix (codes "session:{") sid (codes "}:leaf")

  unfoldable pub skey_current_key : Text → Text
  unfolding braced
  skey_current_key session_key =
      braced config.key_prefix (codes "skey:{") session_key (codes "}:current")

  unfoldable pub skey_history_key : Text → Text
  unfolding braced
  skey_history_key session_key =
      braced config.key_prefix (codes "skey:{") session_key (codes "}:history")

-- leaf_raw or None
unfoldable pub non_empty : Option Text → Option Text
non_empty none = none
non_empty (some []) = none
non_empty (some (c ∷ t)) = some (c ∷ t)

module _ {S : Type 0} (redis : Keyspace S) (codec : Codec) (config : Config) where
  -- The expiries of the four keys of a session.
  unfoldable pub expire_session : S → Text → S
  unfolding hdr_key entries_key order_key leaf_key
  expire_session s sid =
      redis.expire
        (redis.expire
          (redis.expire (redis.expire s (hdr_key config sid) config.ttl) (entries_key config sid)
            config.ttl)
          (order_key config sid) config.ttl)
        (leaf_key config sid) config.ttl

  -- SET with EX is a write and an expiry.
  unfoldable pub save_header : S → SessionTree → S
  unfolding expire_session hdr_key
  save_header s tree =
      expire_session (redis.set s (hdr_key config tree.header.id) (codec.encode_header tree.header))
        tree.header.id

  unfoldable pub parse_entries : Dict Text Text → Dict Text Entry
  parse_entries [] = []
  parse_entries ((id, raw) ∷ d) = elim (codec.parse_entry raw) [
    | none ↦ parse_entries d
    | some e ↦ (id, e) ∷ parse_entries d
  ]

  unfoldable pub load_parts :
      Option Header → Dict Text Text → List Text → Option Text → Option SessionTree
  unfolding parse_entries non_empty
  load_parts none entries order leaf = none
  load_parts (some header) entries order leaf = some (record {
    header = header;
    entries = parse_entries entries;
    order = order;
    leaf_id = non_empty leaf;
  })

  unfoldable pub or_nil : {A : Type 0} → Option (List A) → List A
  or_nil none = []
  or_nil (some l) = l

  unfoldable pub decoded : Option Text → Option Header
  decoded none = none
  decoded (some raw) = codec.decode_header raw

  -- none also where the source raises, on a value that is no header.
  unfoldable pub load : S → Text → Option SessionTree
  unfolding load_parts or_nil decoded as_string as_hash as_list hdr_key entries_key order_key
      leaf_key
  load s sid =
      load_parts (decoded (as_string (redis.value s (hdr_key config sid))))
        (or_nil (as_hash (redis.value s (entries_key config sid))))
        (or_nil (as_list (redis.value s (order_key config sid))))
        (as_string (redis.value s (leaf_key config sid)))

  -- The pipeline of `append_entry`, while the lock is held.
  unfoldable pub write_entry : S → Text → Entry → Text → S
  unfolding expire_session entries_key order_key leaf_key
  write_entry s sid entry leaf_id =
      let hashed = redis.hset s (entries_key config sid) entry.id (codec.serialize_entry entry) in
      let ordered = redis.rpush hashed (order_key config sid) entry.id in
      expire_session (redis.set ordered (leaf_key config sid) leaf_id) sid

  unfoldable pub append_entry :
      (acquired : Bool) → S → Text → Entry → Text → Result SessionLockError S
  unfolding write_entry
  append_entry acquired s sid entry leaf_id =
      if acquired then ok (write_entry s sid entry leaf_id) else err (not_locked sid)

  unfoldable pub get_current_session_id : S → Text → Option Text
  unfolding skey_current_key as_string
  get_current_session_id s session_key =
      as_string (redis.value s (skey_current_key config session_key))

  unfoldable pub set_current_session_id : (now : ℕ) → S → Text → Text → S
  unfolding skey_current_key skey_history_key
  set_current_session_id now s session_key session_id =
      redis.zadd (redis.set s (skey_current_key config session_key) session_id)
        (skey_history_key config session_key) session_id now

  unfoldable pub create_new_session :
      (suffix created_at : Text) (now : ℕ)
      → S
      → (session_key workspace_id agent_id : Text) → Option Text
      → SessionTree × S
  unfolding save_header set_current_session_id
  create_new_session suffix created_at now s session_key workspace_id agent_id parent =
      let id = generate_session_id suffix session_key in
      let tree = new_tree (record {
        id = id;
        workspace_id = workspace_id;
        agent_id = agent_id;
        created_at = created_at;
        parent_session = parent;
        session_key = session_key;
        last_interaction_at = none;
        idle_minutes_override = none;
        model_override = none;
        title = none;
      }) in
      (tree, set_current_session_id now (save_header s tree) session_key id)

  -- The four deletions of `delete_session`.
  unfoldable pub delete_keys : S → Text → S
  unfolding hdr_key entries_key order_key leaf_key
  delete_keys s sid =
      redis.del
        (redis.del (redis.del (redis.del s (hdr_key config sid)) (entries_key config sid))
          (order_key config sid))
        (leaf_key config sid)

  unfoldable pub is_current : Option Text → Text → Bool
  is_current none sid = false
  is_current (some current) sid = text_eq current sid

  -- A header that is not read has the session key "".
  unfoldable pub key_of : Option Header → Text
  key_of none = []
  key_of (some header) = header.session_key

  unfoldable pub forget_key : Text → S → Text → S
  unfolding is_current get_current_session_id skey_current_key skey_history_key delete_keys
  forget_key [] s sid = delete_keys s sid
  forget_key (c ∷ t) s sid =
      let gone = redis.zrem (delete_keys s sid) (skey_history_key config (c ∷ t)) sid in
      if is_current (get_current_session_id gone (c ∷ t)) sid
      then redis.del gone (skey_current_key config (c ∷ t))
      else gone

  unfoldable pub delete_read : Option Text → S → Text → Bool × S
  unfolding forget_key key_of
  delete_read none s sid = (false, s)
  delete_read (some raw) s sid = (true, forget_key (key_of (codec.decode_header raw)) s sid)

  unfoldable pub delete_session : S → Text → Bool × S
  unfolding delete_read hdr_key as_string
  delete_session s sid = delete_read (as_string (redis.value s (hdr_key config sid))) s sid
