-- ===== src/Session/Store.antt =====
-- `InMemorySessionStore` of src/pyclaw/storage/session/base.py: the trees of the sessions, the current session
-- of each key and the history of each key. The clock and the random part of an id are arguments.
pub mod Mirror
use pyclaw.Prelude.{
  ℕ, ◌+◌, Text, codes, Bool, true, false, Option, none, some, List, [], ◌∷◌, ◌++◌, map, Result, ok,
  err, length, take, select, not, if◌then◌else◌, ltb, text_eq, text_key,
}
use pyclaw.Prelude.Dict
use pyclaw.Prelude.Dict.{Dict}
use pyclaw.Session.Types.{message, Entry, Header, SessionTree}
use pyclaw.Session.Tree.{new_tree}

pub record Store : Type 0 where
  pub trees : Dict Text SessionTree
  pub current : Dict Text Text
  pub history : Dict Text (List (ℕ × Text))

-- The `KeyError` of `append_entry`.
pub data StoreError : Type 0 where
  not_initialized : Text → StoreError

unfoldable pub load : Store → Text → Option SessionTree
load store session_id = Dict.get store.trees session_id

unfoldable pub save_header : Store → SessionTree → Store
save_header store tree = elim (Dict.get store.trees tree.header.id) [
  | none ↦ record store { trees = Dict.put store.trees tree.header.id tree }
  | some old ↦ record store {
    trees = Dict.put store.trees tree.header.id (record old { header = tree.header });
  }
]

unfoldable pub append_entry : Store → Text → Entry → Text → Result StoreError Store
append_entry store session_id entry leaf_id = elim (Dict.get store.trees session_id) [
  | none ↦ err (not_initialized session_id)
  | some tree ↦ ok (record store {
    trees = Dict.put store.trees session_id (record tree {
      entries = Dict.put tree.entries entry.id entry;
      order = tree.order ++ entry.id ∷ [];
      leaf_id = some leaf_id;
    });
  })
]

unfoldable pub get_current_session_id : Store → Text → Option Text
get_current_session_id store session_key = Dict.get store.current session_key

or_empty : Option (List (ℕ × Text)) → List (ℕ × Text)
or_empty none = []
or_empty (some l) = l

unfoldable pub set_current_session_id : (now : ℕ) → Store → Text → Text → Store
unfolding or_empty
set_current_session_id now store session_key session_id = record store {
  current = Dict.put store.current session_key session_id;
  history =
      Dict.put store.history session_key
        (or_empty (Dict.get store.history session_key) ++ (now, session_id) ∷ []);
}

-- f"{session_key}:s:{suffix}"
unfoldable pub generate_session_id : (suffix : Text) → Text → Text
generate_session_id suffix session_key = session_key ++ codes ":s:" ++ suffix

unfoldable pub create_new_session :
    (suffix created_at : Text) (now : ℕ)
    → Store
    → (session_key workspace_id agent_id : Text) → Option Text
    → SessionTree × Store
create_new_session suffix created_at now store session_key workspace_id agent_id parent =
    let id = generate_session_id suffix session_key in
    let tree = new_tree (record {
      id = id;
      workspace_id = workspace_id;
      agent_id = agent_id;
      created_at = created_at;
      parent_session = parent;
      session_key = session_key;
      last_interaction_at = none;
      idle_minutes_override = none;
      model_override = none;
      title = none;
    }) in
    (
      tree,
      set_current_session_id now (record store { trees = Dict.put store.trees id tree }) session_key
          id,
    )

-- The loop that drops the keys whose current session is deleted.
unfoldable pub without_current : Text → Dict Text Text → Dict Text Text
without_current session_id d = select (λ (p : Text × Text). not (text_eq p.1 session_id)) d

-- The loop that drops a deleted session from every history.
unfoldable pub without_history : Text → Dict Text (List (ℕ × Text)) → Dict Text (List (ℕ × Text))
without_history session_id [] = []
without_history session_id ((k, l) ∷ d) =
    (k, select (λ (p : ℕ × Text). not (text_eq p.1 session_id)) l) ∷ without_history session_id d

unfoldable pub delete_session : Store → Text → Bool × Store
delete_session store session_id = (
  Dict.has store.trees session_id,
  record {
    trees = Dict.remove store.trees session_id;
    current = without_current session_id store.current;
    history = without_history session_id store.history;
  },
)

pub record Summary : Type 0 where
  pub session_id : Text
  pub created_at : Text
  pub message_count : ℕ
  pub last_message_at : Option Text
  pub parent_session_id : Option Text

-- sorted(entries, key=lambda x: x[0], reverse=True): the latest first, those of one time in their order
insert_newest : ℕ × Text → List (ℕ × Text) → List (ℕ × Text)
insert_newest p [] = p ∷ []
insert_newest p (q ∷ qs) =
    let rest = insert_newest p qs in if ltb p.0 q.0 then q ∷ rest else p ∷ q ∷ qs

newest_first : List (ℕ × Text) → List (ℕ × Text)
unfolding insert_newest
newest_first [] = []
newest_first (p ∷ ps) = insert_newest p (newest_first ps)

message_count : List Entry → ℕ
message_count [] = 0
message_count (e ∷ es) = elim e.body [ message m ↦ message_count es + 1 | _ ↦ message_count es ]

summary : Store → Text → Summary
unfolding message_count
summary store id = elim (Dict.get store.trees id) [
  | none ↦ record {
    session_id = id;
    created_at = [];
    message_count = 0;
    last_message_at = none;
    parent_session_id = none;
  }
  | some tree ↦ record {
    session_id = id;
    created_at = tree.header.created_at;
    message_count = message_count (Dict.values tree.entries);
    last_message_at = tree.header.last_interaction_at;
    parent_session_id = tree.header.parent_session;
  }
]

unfoldable pub list_session_history : Store → Text → ℕ → List Summary
unfolding newest_first summary or_empty
list_session_history store session_key limit =
    map (λ (p : ℕ × Text). summary store p.1)
      (take limit (newest_first (or_empty (Dict.get store.history session_key))))
