-- ===== src/Runner/Compaction/Examples.antt =====
-- A stored session that a run compacts.
use pyclaw.Prelude.{
  false, ok, codes, ◌≡◌, refl, true, none, some, [], ◌∷◌, text_eq, text_key, arith,
}
use pyclaw.Prelude.Dict
use pyclaw.Prelude.Dict.{Dict}
use pyclaw.Session.Types.{Role, Content, Body, Entry, Header, SessionTree}
use pyclaw.Session.Tree.{get_entry}
use pyclaw.Session.Tree.Growth.{IsWellFormed}
use pyclaw.Session.Context.{message_dicts, summary_message, build_session_context}
use pyclaw.Runner.Compaction.Shown.{try_compaction-shown}
use pyclaw.Session.Tree.{new_tree}
use pyclaw.Session.Tree.Growth.{new_tree-IsWellFormed}
use pyclaw.Session.Store.{Store, load}
use pyclaw.Session.Store.Mirror.{IsSound, put-IsSound, Mirrors}
use pyclaw.Runner.Compaction.{succeeded, CompactResult, raised, returned, try_compaction}
use pyclaw.Runner.Compaction.Persisted.{try_compaction-restores}

abbrev header : Header
header = record {
  id = codes "s";
  workspace_id = codes "w";
  agent_id = codes "a";
  created_at = codes "2025";
  parent_session = none;
  session_key = [];
  last_interaction_at = none;
  idle_minutes_override = none;
  model_override = none;
  title = none;
}

abbrev nothing_stored : Store
nothing_stored = record { trees = []; current = []; history = [] }

nothing_stored-IsSound : IsSound nothing_stored
unfolding load Dict.get
nothing_stored-IsSound id tree h = absurd (ground (arith, h))

abbrev session : SessionTree
session = record { header = header; entries = []; order = []; leaf_id = none }

abbrev stored : Store
stored = record { trees = (codes "s", session) ∷ []; current = []; history = [] }

stored-IsSound : IsSound stored
unfolding Dict.put new_tree
stored-IsSound =
    put-IsSound nothing_stored (new_tree header) nothing_stored-IsSound
      (new_tree-IsWellFormed header)

stored-Mirrors : Mirrors stored session
unfolding load Dict.get text_eq
stored-Mirrors = refl

abbrev summarised : CompactResult
summarised = record {
  ok = true;
  compacted = true;
  reason = none;
  reason_code = none;
  summary = some (codes "so far");
  tokens_before = 9000;
  tokens_after = none;
}

-- The hook loses the leaf, and the engine raises.
abbrev spoiled : SessionTree → SessionTree
spoiled tree = record tree { leaf_id = some (codes "x") }

try_compaction-restores_example : (session ≡ session) × (stored ≡ stored)
unfolding try_compaction
try_compaction-restores_example =
    try_compaction-restores (codes "0a" ∷ []) (codes "0a0b") (codes "2025")
      (raised (codes "ValueError") (codes "no")) spoiled session stored refl refl refl

abbrev question : Entry
question = record {
  id = codes "1";
  parent_id = none;
  timestamp = codes "2025";
  body = Body.message (record {
    role = Role.user;
    content = Content.plain (codes "hi");
    tool_calls = [];
    tool_call_id = none;
    partial = false;
  });
}

abbrev asked : SessionTree
asked = record session {
  entries = (codes "1", question) ∷ [];
  order = codes "1" ∷ [];
  leaf_id = some (codes "1");
}

asked-IsWellFormed : IsWellFormed asked
unfolding Dict.has text_eq
asked-IsWellFormed = record { ordered = (refl, refl, tt, tt); leaf = refl; in_order = refl }

abbrev stored_question : Store
stored_question = record stored { trees = (codes "s", asked) ∷ [] }

stored_question-IsSound : IsSound stored_question
unfolding Dict.put
stored_question-IsSound = put-IsSound nothing_stored asked nothing_stored-IsSound asked-IsWellFormed

try_compaction-shown_example :
    (after : SessionTree) × (s : Store) × (try_compaction []
        (codes "0a0b")
        (codes "2025")
        (returned summarised)
        (λ t. t)
        asked
        stored_question
      ≡ ok (succeeded true summarised, after, s))
    × (build_session_context after
        ≡ some (
            summary_message (record {
              summary = codes "so far";
              first_kept_entry_id = codes "1";
              tokens_before = 9000;
            })
            ∷ message_dicts (question ∷ [])))
unfolding load get_entry Dict.get Dict.has text_eq
try_compaction-shown_example =
    try_compaction-shown [] (codes "0a0b") (codes "2025") summarised asked stored_question
      {k = codes "1"} {e = question} stored_question-IsSound refl refl refl refl refl refl refl
