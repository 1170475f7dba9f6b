-- ===== src/Session/Tree.antt =====
-- `SessionTree` of src/pyclaw/models/session.py: a tree of entries by their parents' ids, and the branch
-- from the root to a leaf.
pub mod Branches
pub mod Growth
use pyclaw.Prelude.{
  ℕ, zero, suc, Text, Bool, true, false, Option, none, some, List, [], ◌∷◌, ◌++◌, Result, ok, err,
  length, if◌then◌else◌, select, text_eq, text_key,
}
use pyclaw.Prelude.Dict
use pyclaw.Prelude.Dict.{Dict}
use pyclaw.Session.Types.{Entry, Header, SessionTree}

-- SessionTree(header=header)
unfoldable pub new_tree : Header → SessionTree
new_tree header = record { header = header; entries = []; order = []; leaf_id = none }

-- The writes that `append` and the runner's `_append` have in common.
unfoldable pub put_entry : SessionTree → Entry → SessionTree
put_entry tree entry = record tree {
  entries = Dict.put tree.entries entry.id entry;
  order = tree.order ++ entry.id ∷ [];
  leaf_id = some entry.id;
}

-- The `ValueError` of `append`.
pub data TreeError : Type 0 where
  id_exists : Text → TreeError

unfoldable pub append : SessionTree → Entry → Result TreeError (SessionTree × Text)
append tree entry =
    if Dict.has tree.entries entry.id
    then err (id_exists entry.id)
    else ok (put_entry tree entry, entry.id)

unfoldable pub get_entry : SessionTree → Text → Option Entry
get_entry tree id = Dict.get tree.entries id

same_parent : Option Text → Option Text → Bool
same_parent none none = true
same_parent (some a) (some b) = text_eq a b
same_parent _ _ = false

unfoldable pub get_children : SessionTree → Option Text → List Entry
unfolding same_parent
get_children tree parent = select (λ e. same_parent e.parent_id parent) (Dict.values tree.entries)

-- The `while` loop of `get_branch`; the path is kept in the order that `reverse` gives it. `none` means
-- that the fuel ran out: the source would not return.
unfoldable pub walk : ℕ → Dict Text Entry → Option Text → List Entry → Option (List Entry)
walk zero entries current path = none
walk (suc fuel) entries none path = some path
walk (suc fuel) entries (some id) path = elim (Dict.get entries id) [
  | none ↦ some path
  | some entry ↦ walk fuel entries entry.parent_id (entry ∷ path)
]

-- from_id or self.leaf_id
unfoldable pub start_id : SessionTree → Option Text → Option Text
start_id tree none = tree.leaf_id
start_id tree (some []) = tree.leaf_id
start_id tree (some (c ∷ s)) = some (c ∷ s)

-- More steps than the tree has entries are never made, if its parents come before their children.
unfoldable pub get_branch : SessionTree → Option Text → Option (List Entry)
get_branch tree from_id = walk (suc (length tree.entries)) tree.entries (start_id tree from_id) []

unfoldable pub all_entry_ids : SessionTree → List Text
all_entry_ids tree = Dict.keys tree.entries
