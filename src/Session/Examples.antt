-- ===== src/Session/Examples.antt =====
-- Small sessions: what the theorems say of them.
use pyclaw.Prelude.{
  codes, ◌≡◌, refl, false, none, some, List, [], ◌∷◌, ◌++◌, text_eq, text_key, arith,
}
use pyclaw.Prelude.Dict
use pyclaw.Prelude.Dict.{Dict}
use pyclaw.Session.Types.{Role, Content, Message, Compaction, Body, Entry, Header, SessionTree}
use pyclaw.Session.Tree.{put_entry, append, start_id, get_branch}
use pyclaw.Session.Tree.Branches.{Branch, root_first}
use pyclaw.Session.Tree.Growth.{IsWellFormed, get_branch-total, get_branch-append}
use pyclaw.Session.Store.{Store, load, create_new_session}
use pyclaw.Session.Store.Mirror.{IsSound, put-IsSound}

abbrev header : Header
header = record {
  id = codes "s";
  workspace_id = codes "w";
  agent_id = codes "a";
  created_at = codes "2025";
  parent_session = none;
  session_key = codes "k";
  last_interaction_at = none;
  idle_minutes_override = none;
  model_override = none;
  title = none;
}

abbrev question : Message
question = record {
  role = Role.user;
  content = Content.plain (codes "hi");
  tool_calls = [];
  tool_call_id = none;
  partial = false;
}

abbrev first : Entry
first = record {
  id = codes "1";
  parent_id = none;
  timestamp = codes "2025";
  body = Body.message question;
}

abbrev second : Entry
second = record {
  id = codes "2";
  parent_id = some (codes "1");
  timestamp = codes "2025";
  body = Body.message question;
}

abbrev summed_up : Compaction
summed_up = record {
  summary = codes "so far";
  first_kept_entry_id = codes "2";
  tokens_before = 100;
}

abbrev third : Entry
third = record {
  id = codes "3";
  parent_id = some (codes "2");
  timestamp = codes "2025";
  body = Body.compaction summed_up;
}

abbrev one_entry : SessionTree
one_entry = record {
  header = header;
  entries = (codes "1", first) ∷ [];
  order = codes "1" ∷ [];
  leaf_id = some (codes "1");
}

abbrev two_entries : SessionTree
two_entries = record {
  header = header;
  entries = (codes "1", first) ∷ (codes "2", second) ∷ [];
  order = codes "1" ∷ codes "2" ∷ [];
  leaf_id = some (codes "2");
}

one_entry-IsWellFormed : IsWellFormed one_entry
unfolding Dict.has text_eq
one_entry-IsWellFormed = record { ordered = (refl, refl, tt, tt); leaf = refl; in_order = refl }

two_entries-IsWellFormed : IsWellFormed two_entries
unfolding Dict.has text_eq
two_entries-IsWellFormed = record {
  ordered = (refl, refl, tt, (refl, refl, refl, tt));
  leaf = refl;
  in_order = refl;
}

get_branch-total_example :
    (es : List Entry) × Branch two_entries.entries (start_id two_entries none) es
    × (get_branch two_entries none ≡ some (root_first es []))
get_branch-total_example = get_branch-total two_entries none two_entries-IsWellFormed

get_branch-append_example :
    IsWellFormed two_entries
    × ((path : List Entry) × (get_branch one_entry none ≡ some path)
        × (get_branch two_entries none ≡ some (path ++ second ∷ [])))
get_branch-append_example =
    get_branch-append one_entry second {after = two_entries} {id = codes "2"} one_entry-IsWellFormed
      refl
      (unfold append in
        unfold put_entry in unfold Dict.has in unfold Dict.put in unfold text_eq in refl)

abbrev stored : Store
stored = record {
  trees = (codes "s", one_entry) ∷ [];
  current = (codes "k", codes "s") ∷ [];
  history = [];
}

abbrev nothing_stored : Store
nothing_stored = record stored { trees = [] }

nothing_stored-IsSound : IsSound nothing_stored
unfolding load Dict.get
nothing_stored-IsSound id tree h = absurd (ground (arith, h))

stored-IsSound : IsSound stored
unfolding Dict.put
stored-IsSound = put-IsSound nothing_stored one_entry nothing_stored-IsSound one_entry-IsWellFormed

abbrev made : SessionTree × Store
unfolding create_new_session
made =
    create_new_session (codes "1f") (codes "2025") 7 stored (codes "k") (codes "w") (codes "a")
      (some (codes "s"))
