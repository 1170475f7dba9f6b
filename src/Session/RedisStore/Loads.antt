-- ===== src/Session/RedisStore/Loads.antt =====
-- What the store on Redis loads.
use mathlib.Core.Option
use pyclaw.Prelude.{
  Text, true, false, Option, none, some, some_inj, List, [], ◌∷◌, ◌≡◌, refl, ap, ◌∙◌, text_eq,
  text_key, Bool-cases, inl, inr,
}
use pyclaw.Prelude.Dict
use pyclaw.Prelude.Dict.{Dict}
use pyclaw.Session.Types.{Entry, SessionTree}
use pyclaw.Session.RedisStore.{
  Keyspace, Codec, IsRead, Config, as_string, as_hash, as_list, parse_entries, non_empty,
  load_parts, decoded, or_nil, load, hdr_key, entries_key, order_key, leaf_key,
}
use pyclaw.Session.RedisStore.Held.{Holds}

-- The same header, order and entries, and the same leaf where it is not empty.
pub record IsLoaded (tree loaded : SessionTree) : Type 0 where
  pub header_same : loaded.header ≡ tree.header
  pub order_same : loaded.order ≡ tree.order
  pub leaf_same : loaded.leaf_id ≡ non_empty tree.leaf_id
  pub entries_same : (id : Text) → Dict.get loaded.entries id ≡ Dict.get tree.entries id

module _ {S : Type 0} (redis : Keyspace S) (codec : Codec) (config : Config) where
  skip_entry :
      (j id raw : Text) (d : Dict Text Text) (parsed : Option Entry)
      → text_eq j id ≡ false
      → Dict.get
          (elim parsed [
            | none ↦ parse_entries redis codec config d
            | some e ↦ (j, e) ∷ parse_entries redis codec config d
          ])
          id
        ≡ Dict.get (parse_entries redis codec config d) id
  unfolding Dict.get
  skip_entry j id raw d none f = refl
  skip_entry j id raw d (some e) f = rw f refl

  found_entry :
      (j id raw : Text) (d : Dict Text Text) (o : Option Entry)
      → ((e : Entry) → o ≡ some e → codec.parse_entry (codec.serialize_entry e) ≡ some e)
      → text_eq j id ≡ true
      → some raw ≡ Option.map codec.serialize_entry o
      → Dict.get (parse_entries redis codec config ((j, raw) ∷ d)) id ≡ o
  unfolding parse_entries Dict.get
  found_entry j id raw d none read t h = cc
  found_entry j id raw d (some e) read t h = rw (some_inj h, parse_entries, read e refl, t) refl

  get-parse_entries :
      (d : Dict Text Text) (id : Text) (o : Option Entry)
      → ((e : Entry) → o ≡ some e → codec.parse_entry (codec.serialize_entry e) ≡ some e)
      → Dict.get d id ≡ Option.map codec.serialize_entry o
      → Dict.get (parse_entries redis codec config d) id ≡ o
  unfolding parse_entries Dict.get
  get-parse_entries [] id none read h = refl
  get-parse_entries [] id (some e) read h = cc
  get-parse_entries ((j, raw) ∷ d) id o read h = elim (Bool-cases (text_eq j id)) [
    | inl t ↦ found_entry j id raw d o read t (rw t at h)
    | inr f ↦
        skip_entry j id raw d (codec.parse_entry raw) f ∙ get-parse_entries d id o read (rw f at h)
  ]

  load_some :
      (s : S) (sid : Text) (tree : SessionTree) (d : Dict Text Text) (order : Option (List Text))
      (leaf : Option Text)
      → IsRead codec tree
      → ((id : Text) → Dict.get d id ≡ Option.map codec.serialize_entry (Dict.get tree.entries id))
      → order ≡ some tree.order
      → leaf ≡ tree.leaf_id
      → (loaded : SessionTree) × (load_parts redis codec config
            (some tree.header)
            d
            (or_nil redis codec config order)
            leaf
          ≡ some loaded)
        × IsLoaded tree loaded
  unfolding load_parts or_nil
  load_some s sid tree d order leaf read lookups o l = (
    record {
      header = tree.header;
      entries = parse_entries redis codec config d;
      order = or_nil redis codec config order;
      leaf_id = non_empty leaf;
    },
    refl,
    record {
      header_same = refl;
      order_same = ap (or_nil redis codec config) o;
      leaf_same = ap non_empty l;
      entries_same = λ id.
          get-parse_entries d id (Dict.get tree.entries id) (read.entries_read id) (lookups id);
    },
  )

-- Where the codec reads back the header and the entries of a tree: a session whose tree the keys hold is loaded as this tree, but for the order in
-- which its entries stand in the dict.
pub load-IsLoaded :
    {S : Type 0} (redis : Keyspace S) (codec : Codec) (config : Config)
    → (s : S) (sid : Text) (tree : SessionTree) → IsRead codec tree
    → Holds redis codec config s sid tree
    → (loaded : SessionTree) × (load redis codec config s sid ≡ some loaded) × IsLoaded tree loaded
unfolding load
load-IsLoaded redis codec config s sid tree read h =
    let (d, is_hash, lookups) = h.entries_held in
    let (loaded, made, same) =
      load_some redis codec config s sid tree d (as_list (redis.value s (order_key config sid)))
        (as_string (redis.value s (leaf_key config sid))) read lookups h.order_held h.leaf_held in
    let header : decoded redis codec config (as_string (redis.value s (hdr_key config sid)))
        ≡ some tree.header =
      ap (λ v. decoded redis codec config (as_string v)) h.header_held
      ∙ (unfold decoded in unfold as_string in read.header_read) in
    (
      loaded,
      ap
            (λ o.
              load_parts redis codec config o
                (or_nil redis codec config (as_hash (redis.value s (entries_key config sid))))
                (or_nil redis codec config (as_list (redis.value s (order_key config sid))))
                (as_string (redis.value s (leaf_key config sid))))
            header
          ∙ ap
              (λ e.
                load_parts redis codec config (some tree.header) e
                  (or_nil redis codec config (as_list (redis.value s (order_key config sid))))
                  (as_string (redis.value s (leaf_key config sid))))
              (ap (or_nil redis codec config) is_hash ∙ (unfold or_nil in refl))
          ∙ made,
      same,
    )
