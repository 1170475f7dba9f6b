-- ===== src/Runner/Samples.antt =====
-- Tests of the loop of src/pyclaw/core/agent/runner.py, and the runs at which its theorems are applied.
use pyclaw.Prelude.{
  ℕ, ◌≤◌, ◌==◌, Text, codes, Bool, true, false, none, some, List, [], ◌∷◌, ◌++◌, ◌≡◌, refl, ap,
  length, length-append, text_eq, text_eq_iff, text_key, arith, ◌⊎◌, leb, ◌&&◌, if◌then◌else◌,
}
use pyclaw.Prelude.Dict
use pyclaw.Prelude.Dict.{Dict}
use pyclaw.Session.Types.{assistant, Entry, Header, SessionTree}
use pyclaw.Session.Store.{Store, load}
use pyclaw.Session.Store.Mirror.{IsSound}
use pyclaw.Runner.Compaction.{raised}
use pyclaw.Tools.Execution.{returned}
use pyclaw.Runner.Turn.{classify_turn, planning, reasoning, empty, complete}
use pyclaw.Runner.Stream.{
  Chunk, Delta, Usage, completes, llm_error, no_usage, merge_tool_call_deltas, finalize_tool_calls,
}
use pyclaw.Runner.State.{Config, Draw, Environment, Turn, Run, Event, error, done, text_chunk, said}
use pyclaw.Runner.Loop.{run_agent_stream, run_agent, RunEnd}
use pyclaw.Runner.Kept.{IsKept, IsLeaf}
use pyclaw.Runner.Ends.{
  Reports, run_agent_stream-Reports, run_agent_stream-IsKept, run_agent-Reports,
}

-- An id that is longer than all that are there.
above : Dict Text Entry → Text
above [] = 0 ∷ []
above ((k, e) ∷ d) = 0 ∷ k ++ above d

has-above : (d : Dict Text Entry) (t : Text) → length (above d) ≤ length t → Dict.has d t ≡ false
unfolding above Dict.has
has-above [] t h = refl
has-above ((k, e) ∷ d) t h = ground (
  arith,
  text_eq_iff k t,
  λ (q : k ≡ t). ap (λ (x : Text). length x) q,
  length-append k (above d),
  has-above d t,
)

abbrev digit : ℕ → Bool
digit c = leb 48 c && leb c 57

abbrev limits : Config
limits = record {
  max_iterations = 3;
  planning_only_limit = 1;
  reasoning_only_limit = 1;
  empty_response_limit = 1;
  unknown_tool_threshold = 2;
  history_budget = 0;
  max_output_chars = 100;
}

abbrev chunk : Text → Chunk
chunk t = record {
  run_timed_out = false;
  abort_set = false;
  text_delta = t;
  tool_call_deltas = [];
  usage = none;
}

abbrev turn_of : List Chunk → Turn
turn_of chunks = record {
  run_timed_out = false;
  abort_set = false;
  prepare_raises = false;
  assembled = [];
  pretrim = raised [] [];
  no_time_left = false;
  chunks = chunks;
  stream_end = completes;
  overflow = raised [] [];
  tools = [];
  approval_hook = none;
  execute = λ i t c. returned (record { tool_call_id = c.id; content = []; is_error = false });
  schedule = λ l. l;
  max_output_chars = λ t. none;
}

-- The first turn gives a plan, the second an answer.
abbrev turns : ℕ → Turn
turns i =
    if i == 1
    then turn_of (chunk (codes "Let me ") ∷ chunk (codes "see.") ∷ [])
    else turn_of (chunk (codes "It is 4.") ∷ [])

abbrev planner : Environment
planner = record {
  config = limits;
  tier_override = none;
  is_digit = digit;
  reprint = λ t. t;
  repr = λ t. t;
  draw = λ tree. record { draws = []; longer = above tree.entries; timestamp = [] };
  turns = turns;
}

planner_fresh : (tree : SessionTree) → Dict.has tree.entries (planner.draw tree).longer ≡ false
planner_fresh tree = has-above tree.entries (above tree.entries) (omega arith)

abbrev header : Header
header = record {
  id = codes "s";
  workspace_id = codes "w";
  agent_id = codes "a";
  created_at = codes "2025";
  parent_session = none;
  session_key = [];
  last_interaction_at = none;
  idle_minutes_override = none;
  model_override = none;
  title = none;
}

abbrev no_sessions : Store
no_sessions = record { trees = []; current = []; history = [] }

no_sessions-IsSound : IsSound no_sessions
unfolding load Dict.get
no_sessions-IsSound id tree h = absurd (ground (arith, h))

classify_plan : classify_turn digit (codes "  I'll look.") ≡ planning
unfolding classify_turn pyclaw.Messages.is_blank pyclaw.Messages.strip
classify_plan = refl

classify_reasoning : classify_turn digit (codes "<thinking>x</Thinking> ") ≡ reasoning
unfolding classify_turn pyclaw.Messages.is_blank pyclaw.Messages.strip
classify_reasoning = refl

classify_empty : classify_turn digit (codes " ") ≡ empty
unfolding classify_turn pyclaw.Messages.is_blank pyclaw.Messages.strip
classify_empty = refl

classify_answer : classify_turn digit (codes "Four. I will not plan.") ≡ complete
unfolding classify_turn pyclaw.Messages.is_blank pyclaw.Messages.strip
classify_answer = refl

run_agent_stream_plans :
    (run_agent_stream planner true no_sessions header (codes "2+2?") []).events
    ≡ text_chunk (codes "Let me ")
      ∷ text_chunk (codes "see.")
      ∷ text_chunk (codes "It is 4.")
      ∷ done (codes "It is 4.") no_usage
      ∷ []
unfolding run_agent_stream pyclaw.Runner.Loop.refuses pyclaw.Runner.State.then_do
    pyclaw.Runner.State.append_message pyclaw.Runner.Compaction.append
    pyclaw.Session.Store.append_entry Dict.get pyclaw.Runner.Compaction.ensure_session load
    pyclaw.Session.Store.save_header Dict.put text_eq pyclaw.Session.Tree.new_tree
    pyclaw.Runner.Stream.stream_loop finalize_tool_calls merge_tool_call_deltas
    pyclaw.Runner.Response.retry_count classify_turn pyclaw.Messages.is_blank pyclaw.Messages.strip
    pyclaw.Runner.Response.retry_limit_for pyclaw.Session.Tree.put_entry
    pyclaw.Runner.Turn.retry_message_for pyclaw.Runner.Response.add_usage
run_agent_stream_plans = refl

run_agent_stream-Reports_example :
    let end = run_agent_stream planner true no_sessions header (codes "2+2?") [] in
    (end.iteration ≤ planner.config.max_iterations)
    × (run : Run) × (end.run ≡ some run)
    × Reports end.raised run end.events end.terminated_by
unfolding pyclaw.Runner.Loop.refuses
run_agent_stream-Reports_example =
    run_agent_stream-Reports planner planner_fresh no_sessions header (codes "2+2?") [] true
      no_sessions-IsSound refl

run_agent_stream-IsKept_example :
    (run : Run) × ((run_agent_stream planner true no_sessions header (codes "2+2?") []).run
      ≡ some run)
    × IsKept run
unfolding pyclaw.Runner.Loop.refuses
run_agent_stream-IsKept_example =
    run_agent_stream-IsKept planner planner_fresh no_sessions header (codes "2+2?") [] true
      no_sessions-IsSound refl

run_agent-Reports_example :
    let end = run_agent_stream planner true no_sessions header (codes "2+2?") [] in
    (run : Run) × (end.run ≡ some run)
    × ((run_agent end).terminated_by ≡ end.terminated_by)
    × (((run_agent end).final_text ≡ []) ⊎ IsLeaf run (said assistant (run_agent end).final_text))
unfolding pyclaw.Runner.Loop.refuses run_agent_stream pyclaw.Runner.State.then_do
    pyclaw.Runner.State.append_message pyclaw.Runner.Compaction.append
    pyclaw.Session.Store.append_entry Dict.get pyclaw.Runner.Compaction.ensure_session load
    pyclaw.Session.Store.save_header Dict.put text_eq pyclaw.Session.Tree.new_tree
    pyclaw.Runner.Stream.stream_loop finalize_tool_calls merge_tool_call_deltas
    pyclaw.Runner.Response.retry_count classify_turn pyclaw.Messages.is_blank pyclaw.Messages.strip
    pyclaw.Runner.Response.retry_limit_for pyclaw.Session.Tree.put_entry
    pyclaw.Runner.Turn.retry_message_for
run_agent-Reports_example =
    run_agent-Reports planner no_sessions header (codes "2+2?") [] true planner_fresh
      no_sessions-IsSound refl refl
