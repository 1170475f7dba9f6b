-- ===== src/Session/RedisStore/Held.antt =====
-- The trees that the keys of a server hold, and how the writes of the store change them.
use mathlib.Core.Option
use pyclaw.Prelude.{
  Text, some, [], ◌∷◌, ◌++◌, ◌≡◌, ◌≢◌, refl, ap, ◌∙◌, if◌then◌else◌, text_eq, text_key, Bool-cases,
  inl, inr,
}
use pyclaw.Prelude.Dict
use pyclaw.Prelude.Dict.{Dict}
use pyclaw.Session.Types.{Entry, SessionTree}
use pyclaw.Session.Store
use pyclaw.Session.Store.{Store}
use pyclaw.Session.RedisStore
use pyclaw.Session.RedisStore.{
  Keyspace, IsKeyspace, Codec, Config, Value, string, as_string, as_hash, as_list, expire_session,
  write_entry, parse_entries, non_empty, load_parts, decoded, or_nil, hdr_key, entries_key,
  order_key, leaf_key,
}
use pyclaw.Session.RedisStore.Keys.{Part, part_key, part_key-part_ne, part_key-id_ne}

module _ {S : Type 0} (redis : Keyspace S) (codec : Codec) (config : Config) where
  -- The four keys of a session hold the tree.
  pub record Holds (s : S) (sid : Text) (tree : SessionTree) : Type 0 where
    pub header_held :
        redis.value s (part_key config Part.header sid) ≡ string (codec.encode_header tree.header)
    pub entries_held :
        (d : Dict Text Text) × (as_hash (redis.value s (part_key config Part.entries sid)) ≡ some d)
        × ((id : Text)
            → Dict.get d id ≡ Option.map codec.serialize_entry (Dict.get tree.entries id))
    pub order_held : as_list (redis.value s (part_key config Part.order sid)) ≡ some tree.order
    pub leaf_held : as_string (redis.value s (part_key config Part.leaf sid)) ≡ tree.leaf_id

  -- The store on Redis holds every session that the store in memory holds.
  abbrev pub HoldsAll : S → Store → Type 0
  HoldsAll s store =
      (sid : Text) (tree : SessionTree) → Store.load store sid ≡ some tree → Holds s sid tree

  pub Holds-same :
      (s after : S) (sid : Text) (tree : SessionTree)
      → ((p : Part)
          → redis.value after (part_key config p sid) ≡ redis.value s (part_key config p sid))
      → Holds s sid tree
      → Holds after sid tree
  Holds-same s after sid tree same h = record {
    header_held = same Part.header ∙ h.header_held;
    entries_held =
        (h.entries_held.0, ap as_hash (same Part.entries) ∙ h.entries_held.1, h.entries_held.2);
    order_held = ap as_list (same Part.order) ∙ h.order_held;
    leaf_held = ap as_string (same Part.leaf) ∙ h.leaf_held;
  }

  module _ (laws : IsKeyspace redis) where
    pub value-expire_session :
        (s : S) (sid j : Text)
        → redis.value (expire_session redis codec config s sid) j ≡ redis.value s j
    unfolding expire_session
    value-expire_session s sid j =
        laws.value-expire _ (leaf_key config sid) j config.ttl
        ∙ laws.value-expire _ (order_key config sid) j config.ttl
        ∙ laws.value-expire _ (entries_key config sid) j config.ttl
        ∙ laws.value-expire s (hdr_key config sid) j config.ttl

    value-write_entry :
        (s : S) (sid : Text) (entry : Entry) (leaf_id j : Text)
        → part_key config Part.entries sid ≢ j
        → part_key config Part.order sid ≢ j
        → part_key config Part.leaf sid ≢ j
        → redis.value (write_entry redis codec config s sid entry leaf_id) j ≡ redis.value s j
    unfolding write_entry
    value-write_entry s sid entry leaf_id j e o l =
        value-expire_session _ sid j
        ∙ laws.value-set_ne _ (leaf_key config sid) j leaf_id l
        ∙ laws.value-rpush_ne _ (order_key config sid) j entry.id o
        ∙ laws.value-hset_ne s (entries_key config sid) j entry.id (codec.serialize_entry entry) e

    -- The tree that the store in memory keeps after `append_entry`.
    abbrev pub grown : SessionTree → Entry → Text → SessionTree
    grown tree entry leaf_id = record tree {
      entries = Dict.put tree.entries entry.id entry;
      order = tree.order ++ entry.id ∷ [];
      leaf_id = some leaf_id;
    }

    put-serialized :
        (es : Dict Text Entry) (d after : Dict Text Text) (entry : Entry) (id : Text)
        → Dict.get after id
          ≡ (if text_eq entry.id id then some (codec.serialize_entry entry) else Dict.get d id)
        → Dict.get d id ≡ Option.map codec.serialize_entry (Dict.get es id)
        → Dict.get after id
          ≡ Option.map codec.serialize_entry (Dict.get (Dict.put es entry.id entry) id)
    put-serialized es d after entry id a h = elim (Bool-cases (text_eq entry.id id)) [
      | inl t ↦ rw (Dict.get-put es entry.id id entry, t) (rw t at a)
      | inr f ↦ rw (Dict.get-put es entry.id id entry, f) (rw f at a ∙ h)
    ]

    pub write_entry-Holds :
        (s : S) (sid : Text) (tree : SessionTree) (entry : Entry) (leaf_id : Text)
        → Holds s sid tree
        → Holds (write_entry redis codec config s sid entry leaf_id) sid (grown tree entry leaf_id)
    unfolding write_entry
    write_entry-Holds s sid tree entry leaf_id h =
        let (d, is_hash, lookups) = h.entries_held in
        let raw = codec.serialize_entry entry in
        let (after, hashed, gets) =
          laws.value-hset s (entries_key config sid) entry.id raw d is_hash in
        let s1 = redis.hset s (entries_key config sid) entry.id raw in
        let s2 = redis.rpush s1 (order_key config sid) entry.id in
        let s3 = redis.set s2 (leaf_key config sid) leaf_id in
        record {
          header_held =
              value-write_entry s sid entry leaf_id (hdr_key config sid)
                (part_key-part_ne config Part.entries Part.header sid sid (λ q. cc))
                (part_key-part_ne config Part.order Part.header sid sid (λ q. cc))
                (part_key-part_ne config Part.leaf Part.header sid sid (λ q. cc))
              ∙ h.header_held;
          entries_held = (
            after,
            ap as_hash (
                  value-expire_session s3 sid (entries_key config sid)
                  ∙ laws.value-set_ne s2 (leaf_key config sid) (entries_key config sid) leaf_id
                      (part_key-part_ne config Part.leaf Part.entries sid sid (λ q. cc))
                  ∙ laws.value-rpush_ne s1 (order_key config sid) (entries_key config sid) entry.id
                      (part_key-part_ne config Part.order Part.entries sid sid (λ q. cc))
                  ∙ hashed)
                ∙ (unfold as_hash in refl),
            λ id. put-serialized tree.entries d after entry id (gets id) (lookups id),
          );
          order_held =
              ap as_list (
                value-expire_session s3 sid (order_key config sid)
                ∙ laws.value-set_ne s2 (leaf_key config sid) (order_key config sid) leaf_id
                    (part_key-part_ne config Part.leaf Part.order sid sid (λ q. cc))
                ∙ laws.value-rpush s1 (order_key config sid) entry.id tree.order (
                    ap as_list (
                      laws.value-hset_ne s (entries_key config sid) (order_key config sid) entry.id
                        raw (part_key-part_ne config Part.entries Part.order sid sid (λ q. cc)))
                    ∙ h.order_held))
              ∙ (unfold as_list in refl);
          leaf_held =
              ap as_string (
                value-expire_session s3 sid (leaf_key config sid)
                ∙ laws.value-set s2 (leaf_key config sid) leaf_id)
              ∙ (unfold as_string in refl);
        }

    pub write_entry-others :
        (s : S) (sid other : Text) (tree : SessionTree) (entry : Entry) (leaf_id : Text)
        → sid ≢ other
        → Holds s other tree
        → Holds (write_entry redis codec config s sid entry leaf_id) other tree
    write_entry-others s sid other tree entry leaf_id different =
        Holds-same s (write_entry redis codec config s sid entry leaf_id) other tree λ p.
          value-write_entry s sid entry leaf_id (part_key config p other)
            (part_key-id_ne config Part.entries p sid other different)
            (part_key-id_ne config Part.order p sid other different)
            (part_key-id_ne config Part.leaf p sid other different)

    pub save_header-Holds :
        (s : S) (old tree : SessionTree)
        → Holds s tree.header.id old
        → Holds
            (RedisStore.save_header redis codec config s tree)
            tree.header.id
            (record old { header = tree.header })
    unfolding RedisStore.save_header
    save_header-Holds s old tree h =
        let key = hdr_key config tree.header.id in
        let s1 = redis.set s key (codec.encode_header tree.header) in
        let kept : (p : Part)
            → Part.header ≢ p
            → redis.value (expire_session redis codec config s1 tree.header.id)
                (part_key config p tree.header.id)
              ≡ redis.value s (part_key config p tree.header.id) =
          λ p different.
            value-expire_session s1 tree.header.id (part_key config p tree.header.id)
            ∙ laws.value-set_ne s key (part_key config p tree.header.id)
                (codec.encode_header tree.header)
                (part_key-part_ne config Part.header p tree.header.id tree.header.id different) in
        record {
          header_held =
              value-expire_session s1 tree.header.id key
              ∙ laws.value-set s key (codec.encode_header tree.header);
          entries_held = (
            h.entries_held.0,
            ap as_hash (kept Part.entries (λ q. cc)) ∙ h.entries_held.1,
            h.entries_held.2,
          );
          order_held = ap as_list (kept Part.order (λ q. cc)) ∙ h.order_held;
          leaf_held = ap as_string (kept Part.leaf (λ q. cc)) ∙ h.leaf_held;
        }

    pub save_header-others :
        (s : S) (tree held : SessionTree) (other : Text)
        → tree.header.id ≢ other
        → Holds s other held
        → Holds (RedisStore.save_header redis codec config s tree) other held
    unfolding RedisStore.save_header
    save_header-others s tree held other different =
        Holds-same s (RedisStore.save_header redis codec config s tree) other held λ p.
          value-expire_session
            (redis.set s (hdr_key config tree.header.id) (codec.encode_header tree.header))
            tree.header.id (part_key config p other)
          ∙ laws.value-set_ne s (hdr_key config tree.header.id) (part_key config p other)
              (codec.encode_header tree.header)
              (part_key-id_ne config Part.header p tree.header.id other different)
