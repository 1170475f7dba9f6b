-- ===== src/Session/RedisStore/Refines.antt =====
-- What a store in memory holds, the store on Redis holds too.
use mathlib.Core.Path.{subst}
use pyclaw.Prelude.{
  Text, true, Option, none, some, some_inj, ok_inj, ◌≡◌, ◌≢◌, refl, sym, ok, text_eq, text_eq_iff,
  text_key, Bool-cases, inl, inr, arith,
}
use pyclaw.Prelude.Dict
use pyclaw.Prelude.Dict.{Dict}
use pyclaw.Session.Types.{Entry, SessionTree}
use pyclaw.Session.Store
use pyclaw.Session.Store.{Store}
use pyclaw.Session.RedisStore
use pyclaw.Session.RedisStore.{
  Keyspace, IsKeyspace, Codec, Config, Value, string, as_string, as_hash, as_list, expire_session,
  write_entry, parse_entries, non_empty, load_parts, decoded, or_nil, hdr_key, entries_key,
  order_key, leaf_key,
}
use pyclaw.Session.RedisStore.Held.{
  Holds, HoldsAll, grown, write_entry-Holds, write_entry-others, save_header-Holds,
  save_header-others,
}

module _ {S : Type 0} (redis : Keyspace S) (codec : Codec) (config : Config)
    (laws : IsKeyspace redis) where
  -- A store in memory that gets another tree under a session id.
  put-HoldsAll :
      (s after : S) (store : Store) (sid : Text) (tree : SessionTree)
      → Holds redis codec config after sid tree
      → ((other : Text) (held : SessionTree)
          → sid ≢ other
          → Holds redis codec config s other held
          → Holds redis codec config after other held)
      → HoldsAll redis codec config s store
      → HoldsAll redis codec config after (record store { trees = Dict.put store.trees sid tree })
  unfolding Store.load
  put-HoldsAll s after store sid tree own others all other held found =
      elim (Bool-cases (text_eq sid other)) [
        | inl t ↦
            let is_tree : tree ≡ held =
              some_inj (rw (Dict.get-put store.trees sid other tree, t) at found) in
            subst (Holds redis codec config after other) is_tree
              (subst (λ i. Holds redis codec config after i tree) ((text_eq_iff sid other).0 t) own)
        | inr f ↦
            others other held (λ q. ground (arith, text_eq_iff sid other, q, f))
              (all other held (rw (Dict.get-put store.trees sid other tree, f) at found))
      ]

  appended :
      (store : Store) (sid : Text) (entry : Entry) (leaf_id : Text) (after : Store)
      → Store.append_entry store sid entry leaf_id ≡ ok after
      → (tree : SessionTree) × (Store.load store sid ≡ some tree)
        × (record store {
          trees = Dict.put store.trees sid (grown redis codec config laws tree entry leaf_id);
        }
            ≡ after)
  unfolding Store.append_entry Store.load
  appended store sid entry leaf_id after h = from (Dict.get store.trees sid) refl
    where
      from :
          (o : Option SessionTree)
          → Dict.get store.trees sid ≡ o
          → (tree : SessionTree) × (Dict.get store.trees sid ≡ some tree)
            × (record store {
              trees = Dict.put store.trees sid (grown redis codec config laws tree entry leaf_id);
            }
                ≡ after)
      from none e = cc (rw (Store.append_entry, e) at h)
      from (some tree) e = (tree, e, ok_inj (rw (Store.append_entry, e) at h))

-- On a server that behaves as documented, where the store on Redis holds every session that the store in memory holds: an
-- entry that the store in memory takes is taken by the store on Redis, once its lock is acquired, which then holds
-- again every session that the store in memory holds.
pub append_entry-refines :
    {S : Type 0} (redis : Keyspace S) (codec : Codec) (config : Config)
    → IsKeyspace redis
    → (s : S) (store : Store) (sid : Text) (entry : Entry) (leaf_id : Text) (after : Store)
    → HoldsAll redis codec config s store
    → Store.append_entry store sid entry leaf_id ≡ ok after
    → (t : S) × (RedisStore.append_entry redis codec config true s sid entry leaf_id ≡ ok t)
      × HoldsAll redis codec config t after
unfolding RedisStore.append_entry
append_entry-refines redis codec config laws s store sid entry leaf_id after all h =
    let (tree, found, same) = appended redis codec config laws store sid entry leaf_id after h in
    let t = write_entry redis codec config s sid entry leaf_id in
    (
      t,
      refl,
      subst (HoldsAll redis codec config t) same (
          put-HoldsAll redis codec config laws s t store sid
            (grown redis codec config laws tree entry leaf_id)
            (write_entry-Holds redis codec config laws s sid tree entry leaf_id
              (all sid tree found))
            (λ other held.
              write_entry-others redis codec config laws s sid other held entry leaf_id)
            all),
    )

-- On such a server, where the store in memory knows a session, a header that both stores save leaves the store on Redis
-- with every session that the store in memory holds.
pub save_header-refines :
    {S : Type 0} (redis : Keyspace S) (codec : Codec) (config : Config)
    → IsKeyspace redis
    → (s : S) (store : Store) (tree old : SessionTree) → HoldsAll redis codec config s store
    → Store.load store tree.header.id ≡ some old
    → HoldsAll redis codec config
        (RedisStore.save_header redis codec config s tree)
        (Store.save_header store tree)
unfolding Store.load Store.save_header
save_header-refines redis codec config laws s store tree old all found =
    let t = RedisStore.save_header redis codec config s tree in
    subst (HoldsAll redis codec config t) (sym saved) (
      put-HoldsAll redis codec config laws s t store tree.header.id
        (record old { header = tree.header })
        (save_header-Holds redis codec config laws s old tree (all tree.header.id old found))
        (λ other held. save_header-others redis codec config laws s tree held other) all)
  where
    saved : Store.save_header store tree ≡ record store {
      trees = Dict.put store.trees tree.header.id (record old { header = tree.header });
    }
    saved = rw (Store.save_header, found) refl
