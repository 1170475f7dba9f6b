-- ===== src/Session/Router.antt =====
-- `SessionRouter` of src/pyclaw/channels/session_router.py, over the in-memory store. The random suffix of a new id,
-- the clock and the seconds since a text of a time, as `datetime` reads it, are arguments.
pub mod Current
mod Examples
use pyclaw.Prelude.{ℕ, ◌*◌, Text, Bool, true, false, Option, none, some, List, if◌then◌else◌, leb}
use pyclaw.Session.Types.{Header, SessionTree}
use pyclaw.Session.Store.{
  Store, load, save_header, get_current_session_id, set_current_session_id, create_new_session,
}

-- What a new session needs: a suffix, the time as a text and as a number, the workspace and the agent.
pub record Draw : Type 0 where
  pub suffix : Text
  pub created_at : Text
  pub now : ℕ
  pub workspace_id : Text
  pub agent_id : Text

pub record Resolved : Type 0 where
  pub session_id : Text
  pub tree : SessionTree
  pub store : Store

unfoldable pub created : Draw → Store → Text → Option Text → Resolved
created d store session_key parent =
    let (tree, after) =
      create_new_session d.suffix d.created_at d.now store session_key d.workspace_id d.agent_id
        parent in
    record { session_id = tree.header.id; tree = tree; store = after }

-- A session whose id is the key itself, from before keys had several.
unfoldable pub adopt_or_create : Draw → Store → Text → Option SessionTree → Resolved
unfolding created
adopt_or_create d store session_key none = created d store session_key none
adopt_or_create d store session_key (some old_tree) = record {
  session_id = session_key;
  tree = old_tree;
  store = set_current_session_id d.now store session_key session_key;
}

from_current : Draw → Store → Text → Text → Option SessionTree → Resolved
unfolding adopt_or_create
from_current d store session_key session_id none =
    adopt_or_create d store session_key (load store session_key)
from_current d store session_key session_id (some tree) = record {
  session_id = session_id;
  tree = tree;
  store = store;
}

unfoldable pub resolve_or_create : Draw → Store → Text → Resolved
unfolding from_current adopt_or_create
resolve_or_create d store session_key = elim (get_current_session_id store session_key) [
  | none ↦ adopt_or_create d store session_key (load store session_key)
  | some session_id ↦ from_current d store session_key session_id (load store session_id)
]

-- The new session, and the id that `on_session_rotated` is called with.
unfoldable pub rotate : Draw → Store → Text → Resolved × Option Text
unfolding created
rotate d store session_key =
    let old_id = get_current_session_id store session_key in
    (created d store session_key old_id, old_id)

unfoldable pub update_last_interaction : (now : Text) → Store → Text → Store
update_last_interaction now store session_id = elim (load store session_id) [
  | none ↦ store
  | some tree ↦
      save_header store
        (record tree { header = record tree.header { last_interaction_at = some now } })
]

long_ago : (elapsed : Text → Option ℕ) → (idle_seconds : ℕ) → Option Text → Bool
long_ago elapsed idle none = false
long_ago elapsed idle (some last) = elim (elapsed last) [
  | none ↦ false
  | some seconds ↦ leb idle seconds
]

-- `elapsed` is none for a text that is no time.
unfoldable pub check_idle_reset :
    (elapsed : Text → Option ℕ) → Store → (session_id : Text) → (idle_minutes : ℕ) → Bool
unfolding long_ago
check_idle_reset elapsed store session_id idle_minutes =
    if leb idle_minutes 0 then false else elim (load store session_id) [
      | none ↦ false
      | some tree ↦ long_ago elapsed (idle_minutes * 60) tree.header.last_interaction_at
    ]
