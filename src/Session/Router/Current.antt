-- ===== src/Session/Router/Current.antt =====
-- The session that a key resolves to is stored, current, and the same the next time.
use mathlib.Core.Path.{subst}
use pyclaw.Prelude.{Text, ◌≡◌, ◌≢◌, refl, Option, none, some, [], Option-cases, inl, inr, text_key}
use pyclaw.Prelude.Dict
use pyclaw.Prelude.Dict.{Dict}
use pyclaw.Session.Types.{SessionTree}
use pyclaw.Session.Tree.{new_tree}
use pyclaw.Session.Store.{
  Store, load, get_current_session_id, set_current_session_id, create_new_session,
}
use pyclaw.Session.Store.Mirror.{IsSound, create_new_session-current}
use pyclaw.Session.Router.{
  Draw, Resolved, created, adopt_or_create, from_current, resolve_or_create, rotate,
}

-- The session is current for its key, and the store holds its tree.
pub record IsCurrent (session_key : Text) (r : Resolved) : Type 0 where
  pub current : get_current_session_id r.store session_key ≡ some r.session_id
  pub stored : load r.store r.session_id ≡ some r.tree
  pub sound : IsSound r.store

created-IsCurrent :
    (d : Draw) (store : Store) (session_key : Text) (parent : Option Text)
    → IsSound store
    → IsCurrent session_key (created d store session_key parent)
unfolding created
created-IsCurrent d store session_key parent s =
    let made =
      create_new_session-current d.suffix d.created_at d.now store session_key d.workspace_id
        d.agent_id parent s refl in
    record { current = made.2; stored = made.1; sound = made.4 }

adopt_or_create-IsCurrent :
    (d : Draw) (store : Store) (session_key : Text) (old : Option SessionTree)
    → IsSound store
    → load store session_key ≡ old
    → IsCurrent session_key (adopt_or_create d store session_key old)
unfolding adopt_or_create set_current_session_id get_current_session_id load
adopt_or_create-IsCurrent d store session_key none s q =
    created-IsCurrent d store session_key none s
adopt_or_create-IsCurrent d store session_key (some old_tree) s q = record {
  current = Dict.get-put_self store.current session_key session_key;
  stored = q;
  sound = s;
}

from_current-IsCurrent :
    (d : Draw) (store : Store) (session_key session_id : Text) (found : Option SessionTree)
    → IsSound store
    → get_current_session_id store session_key ≡ some session_id
    → load store session_id ≡ found
    → IsCurrent session_key (from_current d store session_key session_id found)
unfolding from_current
from_current-IsCurrent d store session_key session_id none s c q =
    adopt_or_create-IsCurrent d store session_key (load store session_key) s refl
from_current-IsCurrent d store session_key session_id (some tree) s c q = record {
  current = c;
  stored = q;
  sound = s;
}

-- In a sound store `resolve_or_create` gives a session that is then current for the key and that the store holds,
-- and resolving the key again gives the same session and changes nothing.
pub resolve_or_create-IsCurrent :
    (d e : Draw) (store : Store) (session_key : Text)
    → IsSound store
    → IsCurrent session_key (resolve_or_create d store session_key)
      × (resolve_or_create e (resolve_or_create d store session_key).store session_key
          ≡ resolve_or_create d store session_key)
unfolding resolve_or_create
resolve_or_create-IsCurrent d e store session_key s =
    let current =
      elim (Option-cases (get_current_session_id store session_key))
        as (λ _. IsCurrent session_key (resolve_or_create d store session_key)) [
          | inl missing ↦
              rw (resolve_or_create, missing)
                (adopt_or_create-IsCurrent d store session_key (load store session_key) s refl)
          | inr (id, found) ↦
              rw (resolve_or_create, found)
                (from_current-IsCurrent d store session_key id (load store id) s found refl)
        ] in
    (current, again (resolve_or_create d store session_key) current)
  where
    again : (r : Resolved) → IsCurrent session_key r → resolve_or_create e r.store session_key ≡ r
    again r c = rw (resolve_or_create, c.current) (rw c.stored (unfold from_current in refl))

-- A rotation in a sound store makes an empty session current that has the old one for its parent, and keeps the
-- sessions of other ids, the old one too where the new id differs from it.
pub rotate-IsCurrent :
    (d : Draw) (store : Store) (session_key : Text) {r : Resolved} {old : Option Text}
    → IsSound store
    → rotate d store session_key ≡ (r, old)
    → IsCurrent session_key r
      × (r.tree.entries ≡ [])
      × (r.tree.header.parent_session ≡ get_current_session_id store session_key)
      × (old ≡ get_current_session_id store session_key)
      × ((id : Text) → id ≢ r.session_id → load r.store id ≡ load store id)
unfolding rotate get_current_session_id new_tree
rotate-IsCurrent d store session_key {r} {old} s h =
    let parent = get_current_session_id store session_key in
    let made =
      create_new_session-current d.suffix d.created_at d.now store session_key d.workspace_id
        d.agent_id parent s refl in
    subst
      (λ (p : Resolved × Option Text).
        IsCurrent session_key p.0
        × (p.0.tree.entries ≡ [])
        × (p.0.tree.header.parent_session ≡ parent)
        × (p.1 ≡ parent)
        × ((id : Text) → id ≢ p.0.session_id → load p.0.store id ≡ load store id))
      h
      (
        created-IsCurrent d store session_key parent s,
        unfold created in made.0,
        unfold created in unfold create_new_session in refl,
        refl,
        unfold created in made.3,
      )
