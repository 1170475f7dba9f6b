-- ===== src/Runner/Compaction.antt =====
-- How a run keeps its session: `ensure_session`, `_append` and `_try_compaction` of
-- src/pyclaw/core/agent/runner.py and the checkpoint of src/pyclaw/core/agent/compaction/checkpoint.py. What the
-- hooks and the context engine do is an argument: their result, and what they change in the tree meanwhile.
pub mod Persisted
pub mod Shown
mod Examples
use pyclaw.Prelude.{
  ℕ, Text, codes, Bool, true, false, ◌&&◌, ◌||◌, not, Option, none, some, List, [], ◌∷◌, ◌++◌,
  Result, ok, err, any, if◌then◌else◌, text_eq,
}
use pyclaw.Session.Types.{Compaction, compaction, Entry, Header, SessionTree}
use pyclaw.Session.Tree.{new_tree, put_entry, all_entry_ids}
use pyclaw.Session.Store.{Store, StoreError, load, save_header, append_entry}

-- The session's own tree where the store has it, else a new one. The remaining fields of the header have
-- their defaults, which are the caller's argument.
unfoldable pub ensure_session : Store → Header → SessionTree × Store
ensure_session store header = elim (load store header.id) [
  | some existing ↦ (existing, store)
  | none ↦ (new_tree header, save_header store (new_tree header))
]

-- The entry is in the tree also where the store fails.
unfoldable pub append : SessionTree → Store → Entry → SessionTree × Result StoreError Store
append tree store entry = (put_entry tree entry, append_entry store tree.header.id entry entry.id)

-- `generate_entry_id`: the first of the drawn ids that is not there, else a longer one.
unfoldable pub generate_entry_id : List Text → (draws : List Text) → (longer : Text) → Text
generate_entry_id existing [] longer = longer
generate_entry_id existing (id ∷ draws) longer =
    let rest = generate_entry_id existing draws longer in
    if not (any (text_eq id) existing) then id else rest

-- `restore_into`: the header is kept.
unfoldable pub restore_into : (snapshot : SessionTree) → SessionTree → SessionTree
restore_into snapshot tree = record tree {
  entries = snapshot.entries;
  order = snapshot.order;
  leaf_id = snapshot.leaf_id;
}

pub record CompactResult : Type 0 where
  pub ok : Bool
  pub compacted : Bool
  pub reason : Option Text
  pub reason_code : Option Text
  pub summary : Option Text
  pub tokens_before : ℕ
  pub tokens_after : Option ℕ

-- What the call of the context engine's `compact` comes to.
pub data Engine : Type 0 where
  raised : (type_name what : Text) → Engine
  returned : CompactResult → Engine

pub record Outcome : Type 0 where
  pub ok : Bool
  pub compacted : Bool
  pub error_code : Option Text
  pub error_message : Option Text
  pub result : Option CompactResult

-- value or default, of a text that may be None
unfoldable pub or_else : Option Text → Text → Text
or_else none default = default
or_else (some []) default = default
or_else (some (c ∷ s)) default = c ∷ s

failed_by : (type_name what : Text) → Outcome
failed_by type_name what = record {
  ok = false;
  compacted = false;
  error_code = some (codes "compaction_failed");
  error_message = some (codes "compaction raised " ++ type_name ++ codes ": " ++ what);
  result = none;
}

failed_with : CompactResult → Outcome
unfolding or_else
failed_with r = record {
  ok = false;
  compacted = false;
  error_code = some (or_else r.reason_code (codes "compaction_failed"));
  error_message = some (or_else r.reason (codes "compaction failed"));
  result = some r;
}

unfoldable pub succeeded : Bool → CompactResult → Outcome
succeeded compacted r = record {
  ok = true;
  compacted = compacted;
  error_code = none;
  error_message = none;
  result = some r;
}

-- The entry that stands for the summarised messages; it keeps the leaf as its first entry.
unfoldable pub compaction_entry :
    (id timestamp summary : Text) → (tokens_before : ℕ) → SessionTree → Entry
compaction_entry id timestamp summary tokens_before tree = record {
  id = id;
  parent_id = tree.leaf_id;
  timestamp = timestamp;
  body = compaction (record {
    summary = summary;
    first_kept_entry_id = elim tree.leaf_id [ none ↦ [] | some leaf ↦ leaf ];
    tokens_before = tokens_before;
  });
}

recorded :
    CompactResult
    → SessionTree
    → Result StoreError Store
    → Result StoreError (Outcome × SessionTree × Store)
unfolding succeeded
recorded r tree (err e) = err e
recorded r tree (ok after) = ok (succeeded true r, tree, after)

-- The branch that writes the summary, where there is one that is not empty.
record_summary :
    (draws : List Text) (longer timestamp : Text)
    → SessionTree
    → Store
    → CompactResult
    → Option Text
    → Result StoreError (Outcome × SessionTree × Store)
unfolding compaction_entry generate_entry_id succeeded recorded
record_summary draws longer timestamp tree store r none = ok (succeeded false r, tree, store)
record_summary draws longer timestamp tree store r (some []) = ok (succeeded false r, tree, store)
record_summary draws longer timestamp tree store r (some (c ∷ s)) =
    let id = generate_entry_id (all_entry_ids tree) draws longer in
    let entry = compaction_entry id timestamp (c ∷ s) r.tokens_before tree in
    recorded r (put_entry tree entry) (append_entry store tree.header.id entry entry.id)

-- `meanwhile` is what the hooks and the engine make of the tree between the checkpoint and the result.
unfoldable pub try_compaction :
    (draws : List Text) (longer timestamp : Text)
    → Engine
    → (meanwhile : SessionTree → SessionTree) → SessionTree
    → Store
    → Result StoreError (Outcome × SessionTree × Store)
unfolding failed_by failed_with succeeded record_summary restore_into
try_compaction draws longer timestamp (raised type_name what) meanwhile tree store =
    ok (failed_by type_name what, restore_into tree (meanwhile tree), store)
try_compaction draws longer timestamp (returned r) meanwhile tree store =
    if not r.ok
    then ok (failed_with r, restore_into tree (meanwhile tree), store)
    else (if r.compacted
        then record_summary draws longer timestamp (meanwhile tree) store r r.summary
        else ok (succeeded false r, meanwhile tree, store))
