-- ===== src/Runner/State.antt =====
-- The state of a run of `run_agent_stream`, src/pyclaw/core/agent/runner.py, what it takes from outside, and the entries
-- that it appends to its session. The text of an `ErrorEvent` is left out, its code is kept.
use pyclaw.Prelude.{ℕ, Text, Bool, true, false, Option, none, List, [], ◌∷◌, Result, ok, err}
use pyclaw.Session.Types.{Role, assistant, plain, Message, message, Entry, SessionTree}
use pyclaw.Session.Tree.{all_entry_ids}
use pyclaw.Session.Store.{Store, StoreError}
use pyclaw.Tools.Types.{Tool, Call, Tier}
use pyclaw.Tools.Registry.{Registry}
use pyclaw.Tools.Truncation.{ToolResult}
use pyclaw.Tools.Execution.{Ending}
use pyclaw.Messages.{LlmMessage}
use pyclaw.Runner.Gate.{ApprovalHook, Evaluated}
use pyclaw.Runner.LoopGuard.{LoopState}
use pyclaw.Runner.Compaction.{append, generate_entry_id, Engine}
use pyclaw.Runner.Stream.{Chunk, StreamEnd, Usage}

pub data Event : Type 0 where
  text_chunk : Text → Event
  tool_call_start : Call → Event
  tool_approval_request : Evaluated → Event
  tool_call_end : (tool_call_id : Text) → ToolResult → Event
  error : (code : Text) → Event
  done : (final_message : Text) → Usage → Event

-- `retry_counts`
pub record Retries : Type 0 where
  pub planning : ℕ
  pub reasoning : ℕ
  pub empty : ℕ

pub record Run : Type 0 where
  pub tree : SessionTree
  pub store : Store
  pub retries : Retries
  pub loop : LoopState
  pub totals : Usage

-- `AgentRunConfig`, with the budget for the history.
pub record Config : Type 0 where
  pub max_iterations : ℕ
  pub planning_only_limit : ℕ
  pub reasoning_only_limit : ℕ
  pub empty_response_limit : ℕ
  pub unknown_tool_threshold : ℕ
  pub history_budget : ℕ
  pub max_output_chars : ℕ

-- What `generate_entry_id` and the clock give for an entry.
pub record Draw : Type 0 where
  pub draws : List Text
  pub longer : Text
  pub timestamp : Text

-- What a turn meets: the tests of the clock and of the abort event, the messages that the context engine
-- assembles, whether the prompt or the assembly raises, the results of `compact`, the stream, the registry, the hook and the tools.
pub record Turn : Type 0 where
  pub run_timed_out : Bool
  pub abort_set : Bool
  pub prepare_raises : Bool
  pub assembled : List LlmMessage
  pub pretrim : Engine
  pub no_time_left : Bool
  pub chunks : List Chunk
  pub stream_end : StreamEnd
  pub overflow : Engine
  pub tools : Registry
  pub approval_hook : Option ApprovalHook
  pub execute : ℕ → Tool → Call → Ending
  pub schedule : List (ℕ × Call) → List (ℕ × Call)
  pub max_output_chars : Tool → Option ℕ

-- The draws depend on the tree, which grows with each entry, so that every sequence of draws is one of these.
pub record Environment : Type 0 where
  pub config : Config
  pub tier_override : Option Tier
  pub is_digit : ℕ → Bool
  pub reprint : Text → Text
  pub repr : Text → Text
  pub draw : SessionTree → Draw
  pub turns : (iteration : ℕ) → Turn

-- How a turn, or a part of it, goes on: the run continues, ends with a code, or an exception leaves it.
pub data Next : Type 0 where
  continue : Run → List Event → Next
  stop : Run → List Event → (terminated_by : Text) → Next
  raises : Run → List Event → Next
  store_fails : StoreError → List Event → Next

unfoldable pub new_entry : Draw → SessionTree → Message → Entry
new_entry draw tree m = record {
  id = generate_entry_id (all_entry_ids tree) draw.draws draw.longer;
  parent_id = tree.leaf_id;
  timestamp = draw.timestamp;
  body = message m;
}

unfoldable pub said : Role → Text → Message
said role text = record {
  role = role;
  content = plain text;
  tool_calls = [];
  tool_call_id = none;
  partial = false;
}

unfoldable pub appended : Run → SessionTree × Result StoreError Store → Result StoreError Run
appended run (tree, err e) = err e
appended run (tree, ok store) = ok (record run { tree = tree; store = store })

-- `_append` of a new entry. What `ingest` of the context engine does is not modelled.
unfoldable pub append_message : (SessionTree → Draw) → Run → Message → Result StoreError Run
unfolding appended
append_message draw run m =
    appended run (append run.tree run.store (new_entry (draw run.tree) run.tree m))

-- A store that fails ends the run with its exception.
unfoldable pub then_do : Result StoreError Run → List Event → (Run → Next) → Next
then_do (err e) events rest = store_fails e events
then_do (ok run) events rest = rest run

unfoldable pub kept_going : Run → SessionTree × Result StoreError Store → Run
kept_going run (tree, err e) = record run { tree = tree }
kept_going run (tree, ok store) = record run { tree = tree; store = store }

-- `_persist_partial_assistant`, called where the text is not empty; a store that fails is passed over, with the
-- entry in the tree.
unfoldable pub persist_partial : (SessionTree → Draw) → Run → Text → Run
unfolding kept_going
persist_partial draw run [] = run
persist_partial draw run (c ∷ s) = kept_going run (
    append run.tree run.store (
      new_entry (draw run.tree) run.tree (record {
        role = assistant;
        content = plain (c ∷ s);
        tool_calls = [];
        tool_call_id = none;
        partial = true;
      })))
