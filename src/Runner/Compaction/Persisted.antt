-- ===== src/Runner/Compaction/Persisted.antt =====
-- The store holds the session of the run, whatever becomes of a compaction, and a failed one leaves no
-- trace.
use mathlib.Core.Path.{subst}
use pyclaw.Prelude.{
  Text, ◌≡◌, refl, sym, ap, ◌∙◌, Bool, true, false, not, Option, none, some, List, [], ◌∷◌, Result,
  ok, err, ok_inj, any, arith, if◌then◌else◌, text_eq, text_eq_iff, text_key, Bool-cases,
  Option-cases, inl, inr,
}
use pyclaw.Prelude.Dict
use pyclaw.Prelude.Dict.{Dict}
use pyclaw.Session.Types.{Entry, Header, SessionTree}
use pyclaw.Session.Tree.{new_tree, put_entry, all_entry_ids}
use pyclaw.Session.Store.{Store, StoreError, load}
use pyclaw.Session.Store.Mirror.{IsSound, Mirrors, save_header-Mirrors, append_entry-Mirrors}
use pyclaw.Runner.Compaction.{
  ensure_session, generate_entry_id, restore_into, CompactResult, Engine, raised, returned, Outcome,
  compaction_entry, recorded, record_summary, succeeded, failed_with, try_compaction,
}

any-has : (d : Dict Text Entry) (id : Text) → any (text_eq id) (Dict.keys d) ≡ Dict.has d id
unfolding Dict.has
any-has [] id = refl
any-has ((j, e) ∷ d) id = ground (arith, text_eq_iff id j, text_eq_iff j id, any-has d id)

-- An id of `generate_entry_id` is new, if the longer one is.
pub generate_entry_id-has :
    (d : Dict Text Entry) (draws : List Text) (longer : Text)
    → Dict.has d longer ≡ false
    → Dict.has d (generate_entry_id (Dict.keys d) draws longer) ≡ false
unfolding generate_entry_id
generate_entry_id-has d [] longer h = h
generate_entry_id-has d (id ∷ draws) longer h = elim (Bool-cases (any (text_eq id) (Dict.keys d))) [
  | inl there ↦ rw there (generate_entry_id-has d draws longer h)
  | inr new ↦ rw new (sym (any-has d id) ∙ new)
]

-- `ensure_session` gives the session of the id it is asked for, and the store holds it.
pub ensure_session-Mirrors :
    (store : Store) (header : Header) {tree : SessionTree} {after : Store}
    → IsSound store
    → ensure_session store header ≡ (tree, after)
    → (tree.header.id ≡ header.id) × Mirrors after tree × IsSound after
unfolding ensure_session
ensure_session-Mirrors store header {tree} {after} s h =
    elim (Option-cases (load store header.id)) [
      | inl missing ↦
          subst
            (λ (p : SessionTree × Store).
              (p.0.header.id ≡ header.id) × Mirrors p.1 p.0 × IsSound p.1)
            (rw (ensure_session, missing) at h)
            (let saved = save_header-Mirrors store header s missing in
              (unfold new_tree in refl, saved.0, saved.1))
      | inr (found, q) ↦
          let is_id = (s header.id found q).0 in
          subst
            (λ (p : SessionTree × Store).
              (p.0.header.id ≡ header.id) × Mirrors p.1 p.0 × IsSound p.1)
            (rw (ensure_session, q) at h) (is_id, ap (load store) is_id ∙ q, s)
    ]

restored :
    (tree changed : SessionTree) → changed.header ≡ tree.header → restore_into tree changed ≡ tree
unfolding restore_into
restored tree changed same = ap (λ (h : Header). record tree { header = h }) same

recorded-ok :
    (r : CompactResult) (tree : SessionTree) (result : Result StoreError Store) {o : Outcome}
    {after : SessionTree} {stored : Store}
    → recorded r tree result ≡ ok (o, after, stored)
    → o.ok ≡ true
unfolding recorded succeeded
recorded-ok r tree (err e) h = cc
recorded-ok r tree (ok s) h = sym (ap (λ (x : Outcome × SessionTree × Store). x.0.ok) (ok_inj h))

record_summary-ok :
    (draws : List Text) (longer timestamp : Text) (tree : SessionTree) (store : Store)
    (r : CompactResult) (summary : Option Text) {o : Outcome} {after : SessionTree} {stored : Store}
    → record_summary draws longer timestamp tree store r summary ≡ ok (o, after, stored)
    → o.ok ≡ true
unfolding record_summary succeeded
record_summary-ok draws longer timestamp tree store r none h =
    sym (ap (λ (x : Outcome × SessionTree × Store). x.0.ok) (ok_inj h))
record_summary-ok draws longer timestamp tree store r (some []) h =
    sym (ap (λ (x : Outcome × SessionTree × Store). x.0.ok) (ok_inj h))
record_summary-ok draws longer timestamp tree store r (some (c ∷ s)) h = recorded-ok r _ _ h

not_failed :
    (draws : List Text) (longer timestamp : Text) (tree : SessionTree) (store : Store)
    (r : CompactResult) (compacted : Bool) {o : Outcome} {after : SessionTree} {stored : Store}
    → (if compacted
        then record_summary draws longer timestamp tree store r r.summary
        else ok (succeeded false r, tree, store))
      ≡ ok (o, after, stored)
    → o.ok ≡ true
unfolding succeeded
not_failed draws longer timestamp tree store r true h =
    record_summary-ok draws longer timestamp tree store r r.summary h
not_failed draws longer timestamp tree store r false h =
    sym (ap (λ (x : Outcome × SessionTree × Store). x.0.ok) (ok_inj h))

-- A compaction that fails, by an exception of the engine or by its result, leaves the tree and the store as
-- they were, whatever the hooks and the engine did to the tree but for its header.
pub try_compaction-restores :
    (draws : List Text) (longer timestamp : Text) (engine : Engine)
    (meanwhile : SessionTree → SessionTree) (tree : SessionTree) (store : Store) {o : Outcome}
    {after : SessionTree} {stored : Store}
    → (meanwhile tree).header ≡ tree.header
    → try_compaction draws longer timestamp engine meanwhile tree store ≡ ok (o, after, stored)
    → o.ok ≡ false
    → (after ≡ tree) × (stored ≡ store)
unfolding try_compaction restore_into
try_compaction-restores draws longer timestamp (raised n w) meanwhile tree store {o} {after}
      {stored} same h f =
    let p = ok_inj h in
    (
      sym (ap (λ (x : Outcome × SessionTree × Store). x.1) p) ∙ restored tree (meanwhile tree) same,
      sym (ap (λ (x : Outcome × SessionTree × Store). x.2) p),
    )
try_compaction-restores draws longer timestamp (returned r) meanwhile tree store {o} {after}
      {stored} same h f =
    elim (Bool-cases r.ok) [
      | inl fine ↦
          let t =
            not_failed draws longer timestamp (meanwhile tree) store (record r { ok = true })
              r.compacted (rw (try_compaction, fine) at h) in
          absurd (ground (arith, t, f))
      | inr bad ↦
          let p = ok_inj (rw (try_compaction, bad) at h) in
          (
            sym (ap (λ (x : Outcome × SessionTree × Store). x.1) p)
                ∙ restored tree (meanwhile tree) same,
            sym (ap (λ (x : Outcome × SessionTree × Store). x.2) p),
          )
    ]

-- No store error, and the store holds the tree.
abbrev pub IsPersisted : Result StoreError (Outcome × SessionTree × Store) → Type 0
IsPersisted (err e) = ⊥
IsPersisted (ok (o, after, stored)) = Mirrors stored after × IsSound stored

record_summary-IsPersisted :
    (draws : List Text) (longer timestamp : Text) (tree : SessionTree) (store : Store)
    (r : CompactResult) (summary : Option Text)
    → IsSound store
    → Mirrors store tree
    → Dict.has tree.entries longer ≡ false
    → IsPersisted (record_summary draws longer timestamp tree store r summary)
unfolding record_summary
record_summary-IsPersisted draws longer timestamp tree store r none s m new = (m, s)
record_summary-IsPersisted draws longer timestamp tree store r (some []) s m new = (m, s)
record_summary-IsPersisted draws longer timestamp tree store r (some (c ∷ t)) s m new =
    let id = generate_entry_id (all_entry_ids tree) draws longer in
    let entry = compaction_entry id timestamp (c ∷ t) r.tokens_before tree in
    let is_new : Dict.has tree.entries id ≡ false =
      unfold all_entry_ids in generate_entry_id-has tree.entries draws longer new in
    let (after, stored, mirrors, sound) = append_entry-Mirrors store tree entry s m is_new refl in
    subst (λ result. IsPersisted (recorded r (put_entry tree entry) result)) (sym stored)
      (unfold recorded in (mirrors, sound))

-- A run works on a tree that its store holds. Whether compaction then fails, has nothing to write or writes its
-- summary, there is no store error and the store still holds the tree of the run, and stays sound; the longer
-- id has to be new.
pub try_compaction-IsPersisted :
    (draws : List Text) (longer timestamp : Text) (engine : Engine) (tree : SessionTree)
    (store : Store)
    → IsSound store
    → Mirrors store tree
    → Dict.has tree.entries longer ≡ false
    → IsPersisted (try_compaction draws longer timestamp engine (λ t. t) tree store)
unfolding try_compaction restore_into
try_compaction-IsPersisted draws longer timestamp (raised n w) tree store s m new = (m, s)
try_compaction-IsPersisted draws longer timestamp (returned r) tree store s m new =
    by_result r.ok r.compacted
  where
    by_result :
        (fine compacted : Bool)
        → IsPersisted (
            if not fine
            then ok (failed_with r, restore_into tree tree, store)
            else (if compacted
                then record_summary draws longer timestamp tree store r r.summary
                else ok (succeeded false r, tree, store)))
    by_result false compacted = (m, s)
    by_result true false = (m, s)
    by_result true true =
        record_summary-IsPersisted draws longer timestamp tree store r r.summary s m new
