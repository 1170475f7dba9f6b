-- ===== src/Session/Store/Mirror.antt =====
-- A store and the tree that a run works on hold the same session, and the stored trees are well formed.
use mathlib.Core.Path.{subst}
use pyclaw.Prelude.{
  ℕ, Text, ◌≡◌, ◌≢◌, refl, sym, ◌∙◌, Bool, false, Option, none, some, List, [], ◌∷◌, ok, some_inj,
  All, arith, if◌then◌else◌, text_eq, text_eq_iff, text_eq_refl, text_key, Bool-cases, inl, inr,
  select, not,
}
use pyclaw.Prelude.Dict
use pyclaw.Prelude.Dict.{Dict}
use pyclaw.Session.Types.{Entry, Header, SessionTree}
use pyclaw.Session.Tree.{new_tree, put_entry}
use pyclaw.Session.Tree.Growth.{IsWellFormed, new_tree-IsWellFormed, put_entry-IsWellFormed}
use pyclaw.Session.Store.{
  Store, load, save_header, append_entry, get_current_session_id, set_current_session_id,
  create_new_session, delete_session, without_current, without_history,
}

-- Every stored tree is well formed and stands under its own id.
abbrev pub IsSound : Store → Type 0
IsSound store =
    (id : Text) (tree : SessionTree)
    → load store id ≡ some tree
    → (tree.header.id ≡ id) × IsWellFormed tree

abbrev pub Mirrors : Store → SessionTree → Type 0
Mirrors store tree = load store tree.header.id ≡ some tree

pub put-IsSound :
    (store : Store) (tree : SessionTree)
    → IsSound store
    → IsWellFormed tree
    → IsSound (record store { trees = Dict.put store.trees tree.header.id tree })
unfolding load
put-IsSound store tree s w id found h = elim (Bool-cases (text_eq tree.header.id id)) [
  | inl same ↦
      let is_tree : tree ≡ found =
        some_inj (rw (Dict.get-put store.trees tree.header.id id tree, same) at h) in
      subst (λ (t : SessionTree). (t.header.id ≡ id) × IsWellFormed t) is_tree
        ((text_eq_iff tree.header.id id).0 same, w)
  | inr other ↦ s id found (rw (Dict.get-put store.trees tree.header.id id tree, other) at h)
]

-- An entry that the run has added to its tree, and adds to the store, under the leaf: the store takes it,
-- and still holds the tree of the run.
pub append_entry-Mirrors :
    (store : Store) (tree : SessionTree) (entry : Entry)
    → IsSound store
    → Mirrors store tree
    → Dict.has tree.entries entry.id ≡ false
    → entry.parent_id ≡ tree.leaf_id
    → (after : Store) × (append_entry store tree.header.id entry entry.id ≡ ok after)
      × Mirrors after (put_entry tree entry)
      × IsSound after
unfolding append_entry put_entry load
append_entry-Mirrors store tree entry s m new q = (
  record store { trees = Dict.put store.trees tree.header.id (put_entry tree entry) },
  rw (append_entry, m) refl,
  Dict.get-put_self store.trees tree.header.id (put_entry tree entry),
  put-IsSound store (put_entry tree entry) s
      (put_entry-IsWellFormed tree entry (s tree.header.id tree m).1 new q),
)

-- A run that finds no session under its id starts one: the store takes the new tree and holds it.
pub save_header-Mirrors :
    (store : Store) (header : Header)
    → IsSound store
    → load store header.id ≡ none
    → Mirrors (save_header store (new_tree header)) (new_tree header)
      × IsSound (save_header store (new_tree header))
unfolding save_header load new_tree
save_header-Mirrors store header s missing =
    subst (λ (after : Store). Mirrors after (new_tree header) × IsSound after) (sym saved)
      (
        Dict.get-put_self store.trees header.id (new_tree header),
        put-IsSound store (new_tree header) s (new_tree-IsWellFormed header),
      )
  where
    saved :
        save_header store (new_tree header)
        ≡ record store { trees = Dict.put store.trees header.id (new_tree header) }
    saved = rw (save_header, missing) refl

-- A new session is empty, is the current one of its key, and is what the store holds under its id; the
-- other sessions of a sound store stay, and it stays sound.
pub create_new_session-current :
    (suffix created_at : Text) (now : ℕ) (store : Store) (session_key workspace_id agent_id : Text)
    (parent : Option Text) {tree : SessionTree} {after : Store}
    → IsSound store
    → create_new_session suffix created_at now store session_key workspace_id agent_id parent
      ≡ (tree, after)
    → (tree.entries ≡ [])
      × Mirrors after tree
      × (get_current_session_id after session_key ≡ some tree.header.id)
      × ((id : Text) → id ≢ tree.header.id → load after id ≡ load store id)
      × IsSound after
unfolding create_new_session get_current_session_id set_current_session_id load new_tree
create_new_session-current suffix created_at now store session_key workspace_id agent_id parent
      {tree} {after} s h =
    let made =
      create_new_session suffix created_at now store session_key workspace_id agent_id parent in
    subst
      (λ (p : SessionTree × Store).
        (p.0.entries ≡ [])
        × Mirrors p.1 p.0
        × (get_current_session_id p.1 session_key ≡ some p.0.header.id)
        × ((id : Text) → id ≢ p.0.header.id → load p.1 id ≡ load store id)
        × IsSound p.1)
      h
      (
        refl,
        Dict.get-put_self store.trees made.0.header.id made.0,
        Dict.get-put_self store.current session_key made.0.header.id,
        λ id other. Dict.get-put_ne store.trees made.0.header.id id made.0 (λ q. other (sym q)),
        put-IsSound store made.0 s (new_tree-IsWellFormed made.0.header),
      )

without_current-get :
    (session_id k : Text) (d : Dict Text Text)
    → Dict.get (without_current session_id d) k ≢ some session_id
unfolding without_current Dict.get
without_current-get session_id k [] h = cc
without_current-get session_id k ((j, v) ∷ d) h =
    ground (arith, text_eq_refl session_id, without_current-get session_id k d)

without_history-get :
    (session_id k : Text) (d : Dict Text (List (ℕ × Text))) {l : List (ℕ × Text)}
    → Dict.get (without_history session_id d) k ≡ some l
    → All (λ p. text_eq p.1 session_id ≡ false) l
unfolding without_history Dict.get
without_history-get session_id k [] h = cc
without_history-get session_id k ((j, v) ∷ d) {l} h = elim (Bool-cases (text_eq j k)) [
  | inl same ↦
      subst (All (λ p. text_eq p.1 session_id ≡ false)) (some_inj (rw same at h)) (without v)
  | inr other ↦ without_history-get session_id k d (rw other at h)
]
  where
    from_kept :
        (p : ℕ × Text) (ps : List (ℕ × Text))
        → text_eq p.1 session_id ≡ false
        → All (λ p. text_eq p.1 session_id ≡ false) (select (λ p. not (text_eq p.1 session_id)) ps)
        → All
            (λ p. text_eq p.1 session_id ≡ false)
            (select (λ p. not (text_eq p.1 session_id)) (p ∷ ps))
    from_kept p ps e rest =
        subst
          (λ b.
            All (λ (p : ℕ × Text). text_eq p.1 session_id ≡ false)
              (if not b
                then p ∷ select (λ p. not (text_eq p.1 session_id)) ps
                else select (λ p. not (text_eq p.1 session_id)) ps))
          (sym e) (e, rest)

    without :
        (ps : List (ℕ × Text))
        → All (λ p. text_eq p.1 session_id ≡ false) (select (λ p. not (text_eq p.1 session_id)) ps)
    without [] = tt
    without (p ∷ ps) = elim (Bool-cases (text_eq p.1 session_id)) [
      | inl e ↦ rw e (without ps)
      | inr e ↦ from_kept p ps e (without ps)
    ]

-- A deleted session is not in the store, is current under no key and is in no history; the other sessions
-- stay, and a sound store stays sound.
pub delete_session-forgets :
    (store : Store) (session_id : Text) {existed : Bool} {after : Store}
    → IsSound store
    → delete_session store session_id ≡ (existed, after)
    → (load after session_id ≡ none)
      × ((key : Text) → get_current_session_id after key ≢ some session_id)
      × ((key : Text) (l : List (ℕ × Text))
          → Dict.get after.history key ≡ some l
          → All (λ p. text_eq p.1 session_id ≡ false) l)
      × ((id : Text) → id ≢ session_id → load after id ≡ load store id)
      × IsSound after
unfolding delete_session load get_current_session_id
delete_session-forgets store session_id {existed} {after} s h =
    let gone = delete_session store session_id in
    subst
      (λ (p : Bool × Store).
        (load p.1 session_id ≡ none)
        × ((key : Text) → get_current_session_id p.1 key ≢ some session_id)
        × ((key : Text) (l : List (ℕ × Text))
            → Dict.get p.1.history key ≡ some l
            → All (λ p. text_eq p.1 session_id ≡ false) l)
        × ((id : Text) → id ≢ session_id → load p.1 id ≡ load store id)
        × IsSound p.1)
      h
      (
        rw (Dict.get-remove store.trees session_id session_id, text_eq_refl session_id) refl,
        λ key. without_current-get session_id key store.current,
        λ key l. without_history-get session_id key store.history,
        λ id other.
            let at = Dict.get-remove store.trees session_id id in
            elim (Bool-cases (text_eq session_id id)) [
              | inl same ↦ absurd (other (sym ((text_eq_iff session_id id).0 same)))
              | inr differs ↦ rw differs at at
            ],
        λ id tree found. s id tree (
            let at = Dict.get-remove store.trees session_id id in
            elim (Bool-cases (text_eq session_id id)) [
              | inl same ↦ absurd (ground (arith, found, at, same))
              | inr differs ↦ sym (rw differs at at) ∙ found
            ]),
      )
