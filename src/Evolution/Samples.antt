-- ===== src/Evolution/Samples.antt =====
-- Tests and witnesses on the extraction of procedures.
use pyclaw.Prelude.{
  ℕ, ◌+◌, ◌≤◌, Text, codes, Bool, true, false, Option, none, some, some_inj, List, [], ◌∷◌, ◌++◌,
  ◌≡◌, refl, sym, ap, ◌∙◌, length, arith,
}
use pyclaw.Prelude.Dict
use pyclaw.Prelude.Dict.{Dict}
use pyclaw.Tools.Types.{Call, Arguments}
use pyclaw.Session.Types.{Role, Content, Body, Entry, Header, SessionTree}
use pyclaw.Storage.Redis.Memory.{memory, memory-IsRedis}
use pyclaw.Evolution.Sop.{RawSop, validate_sop, format_sop_content}
use pyclaw.Evolution.Segments.{build_segments, is_empty}
use pyclaw.Evolution.Segments.Private.{rewrite_user, build_segments-rewrite_user}
use pyclaw.Evolution.Extraction.{
  Surroundings, EvolutionSettings, MemoryStore, Answer, extract_sop_background, is_duplicate,
  derive_session_key, candidates_key,
}
use pyclaw.Evolution.Extraction.Outcome.{IsCounted, extract_sop_background-IsCounted}
use pyclaw.Evolution.Extraction.Writes.{IsKeptByStores, extract_sop_background-writes}
use pyclaw.Evolution.Jobs.{
  Job, lock_key, extract_sops_sync, maybe_spawn_extraction, format_extraction_result_zh,
}
use pyclaw.Evolution.Jobs.Locks.{IsReleased, extract_sops_sync-IsReleased}
use pyclaw.Evolution.Jobs.Alike.{state_of, spawned_run, extract_sops_sync-maybe_spawn_extraction}

abbrev header : Header
header = record {
  id = codes "k:s:1";
  workspace_id = codes "w";
  agent_id = codes "a";
  created_at = codes "2025";
  parent_session = none;
  session_key = codes "k";
  last_interaction_at = none;
  idle_minutes_override = none;
  model_override = none;
  title = none;
}

abbrev said : Role → Text → List Call → Option Text → Body
said role t calls id = Body.message (record {
  role = role;
  content = Content.plain t;
  tool_calls = calls;
  tool_call_id = id;
  partial = false;
})

abbrev entry : Text → Body → Entry
entry id body = record { id = id; parent_id = none; timestamp = codes "2025"; body = body }

abbrev bash : Call
bash = record { id = codes "c"; name = codes "bash"; arguments = Arguments.raw (codes "ls") }

abbrev tree : SessionTree
tree = record {
  header = header;
  entries =
      (codes "1", entry (codes "1") (said Role.user (codes "hi") [] none))
      ∷ (codes "2", entry (codes "2") (said Role.assistant [] (bash ∷ []) none))
      ∷ (codes "3", entry (codes "3") (said Role.tool (codes "a.txt") [] (some (codes "c"))))
      ∷ [];
  order = codes "1" ∷ codes "2" ∷ codes "3" ∷ [];
  leaf_id = some (codes "3");
}

one_segment :
    build_segments tree (codes "c" ∷ [])
    ≡ codes "# Task Segment 1\nTOOL CALLS:\n  - bash(ls)\nTOOL RESULTS:\n    -> a.txt"
unfolding build_segments Dict.get pyclaw.Prelude.text_eq pyclaw.Messages.join_lines
    pyclaw.Prelude.decimal
one_segment = refl

build_segments-rewrite_user_example :
    build_segments (rewrite_user (λ c. Content.plain []) tree) (codes "c" ∷ [])
    ≡ build_segments tree (codes "c" ∷ [])
build_segments-rewrite_user_example =
    build_segments-rewrite_user (λ c. Content.plain []) tree (codes "c" ∷ [])

abbrev sop : RawSop
sop = record {
  name = some (codes "list");
  description = some (codes "List");
  procedure = some (codes "1. ls");
}

abbrev store : MemoryStore (List Text)
store = record {
  search = λ m key query. some (elim m [ [] ↦ none | t ∷ ts ↦ some t ]);
  store = λ m key content source. some (content ∷ m);
}

abbrev env : Surroundings (Dict Text Text) (List Text)
env = record {
  redis = memory;
  hgetall = λ server key. (codes "c", []) ∷ [];
  read_fails = false;
  cleanup_fails = false;
  load = λ id. some (some tree);
  memory_store = store;
  is_dangerous = λ t. false;
  overlaps = λ s t. false;
  ask = λ segments attempt. Answer.parsed (sop ∷ sop ∷ record sop { name = none } ∷ []);
}

abbrev settings : EvolutionSettings
settings = record {
  enabled = true;
  min_tool_calls_for_extraction = 1;
  max_sops_per_extraction = 5;
  limits = record { description_max_chars = 150; procedure_max_chars = 5000 };
}

abbrev session : Text
session = codes "k:s:1"

abbrev job : Job (Dict Text Text) (List Text)
job = record {
  env = env;
  settings = settings;
  min_tool_calls = none;
  tool_names = λ t. some 2;
  hgetall_fails = false;
  lock_fails = false;
  spawn_fails = false;
  release_fails = false;
}

learnt : (extract_sops_sync job session [] []).memory ≡ codes "list\nList\n1. ls" ∷ []
unfolding extract_sops_sync Dict.has extract_sop_background pyclaw.Messages.is_blank build_segments
    Dict.get pyclaw.Prelude.text_eq pyclaw.Messages.join_lines
    pyclaw.Evolution.Extraction.call_llm_with_retry validate_sop format_sop_content
    pyclaw.Messages.strip pyclaw.Prelude.has_part
learnt = refl

shown :
    format_extraction_result_zh (extract_sops_sync job session [] []).result
    ≡ codes "✅ 学到 1 条新 SOP！（1 条已存在，1 条未通过质量检查）"
unfolding format_extraction_result_zh extract_sops_sync Dict.has extract_sop_background
    pyclaw.Messages.is_blank build_segments Dict.get pyclaw.Prelude.text_eq
    pyclaw.Messages.join_lines pyclaw.Evolution.Extraction.call_llm_with_retry validate_sop
    format_sop_content pyclaw.Messages.strip pyclaw.Prelude.has_part pyclaw.Prelude.decimal
shown = refl

extract_sop_background-IsCounted_example :
    IsCounted settings (extract_sop_background env settings session [] []).result
extract_sop_background-IsCounted_example =
    extract_sop_background-IsCounted env settings session [] []

abbrev IsCountOf : ℕ → List Text → Type 0
IsCountOf n m = length m ≡ n

stores_one : IsKeptByStores env settings session IsCountOf
unfolding format_sop_content
stores_one n before after raw s v new e h =
    sym (ap length (some_inj e))
    ∙ (let f : length (format_sop_content s ∷ before) ≡ n + 1 = omega (arith, h) in f)

extract_sop_background-writes_example :
    IsCountOf
      (extract_sop_background env settings session [] []).result.written
      (extract_sop_background env settings session [] []).memory
extract_sop_background-writes_example =
    extract_sop_background-writes env settings session [] [] IsCountOf stores_one refl

abbrev busy_server : Dict Text Text
busy_server = (codes "pyclaw:sop_extracting:k:s:1", codes "1") ∷ []

extract_sops_sync-IsReleased_example :
    IsReleased job session []
      (memory.get busy_server (lock_key session))
      (extract_sops_sync job session busy_server [])
extract_sops_sync-IsReleased_example =
    extract_sops_sync-IsReleased job session memory-IsRedis refl busy_server []

extract_sops_sync-maybe_spawn_extraction_example :
    state_of (extract_sops_sync job session [] [])
    ≡ spawned_run job session [] (maybe_spawn_extraction job session [])
unfolding is_empty
extract_sops_sync-maybe_spawn_extraction_example =
    extract_sops_sync-maybe_spawn_extraction job session [] [] refl refl
