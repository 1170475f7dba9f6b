-- ===== src/Runner/Loop.antt =====
-- The loop of `run_agent_stream`, src/pyclaw/core/agent/runner.py: a turn, from the tests at its start to the response,
-- and the turns of a run.
use pyclaw.Prelude.{
  ℕ, zero, suc, ◌+◌, Text, codes, Bool, true, false, ◌&&◌, not, Option, none, some, List, [], ◌∷◌,
  ◌++◌, map, Result, ok, err, if◌then◌else◌, ltb, text_eq,
}
use pyclaw.Messages.{is_blank}
use pyclaw.Session.Types.{user, Block, text, Content, plain, blocks, Header, SessionTree}
use pyclaw.Session.Store.{Store, StoreError}
use pyclaw.Compaction.Planning.{estimate_messages_tokens}
use pyclaw.Runner.LoopGuard.{reset}
use pyclaw.Runner.Compaction.{ensure_session, try_compaction, Engine, or_else}
use pyclaw.Runner.Compaction as Compaction
use pyclaw.Runner.Stream.{
  no_usage, StreamEnd, completes, agent_timeout, agent_aborted, llm_error, stream_raises, Streamed,
  nothing_streamed, stream_loop, finalize_tool_calls,
}
use pyclaw.Runner.State.{
  Event, text_chunk, tool_call_end, error, done, Run, Turn, Environment, Next, continue, stop,
  raises, store_fails, append_message, then_do, persist_partial,
}
use pyclaw.Runner.Response.{no_retries, fail, add_usage, respond}

abbrev pub compaction_code : Compaction.Outcome → Text
compaction_code outcome = or_else outcome.error_code (codes "compaction_failed")

-- How a run ends: what its `finally` hands to `notify_run_end`, and whether an exception left it.
pub record RunEnd : Type 0 where
  pub run : Option Run
  pub events : List Event
  pub terminated_by : Text
  pub raised : Bool
  -- how many turns were begun
  pub iteration : ℕ

unfoldable pub ended : Run → List Event → Text → (iteration : ℕ) → RunEnd
ended run events code iteration = record {
  run = some run;
  events = events;
  terminated_by = code;
  raised = false;
  iteration = iteration;
}

-- An exception leaves `terminated_by` as it was set at the start.
unfoldable pub left_by_exception : Option Run → List Event → (iteration : ℕ) → RunEnd
left_by_exception run events iteration = record {
  run = run;
  events = events;
  terminated_by = codes "done";
  raised = true;
  iteration = iteration;
}

unfoldable pub go_on : List Event → (iteration : ℕ) → Next → (Run → List Event → RunEnd) → RunEnd
unfolding ended left_by_exception
go_on events iteration (continue run more) rest = rest run (events ++ more)
go_on events iteration (stop run more code) rest = ended run (events ++ more) code iteration
go_on events iteration (raises run more) rest =
    left_by_exception (some run) (events ++ more) iteration
go_on events iteration (store_fails e more) rest = left_by_exception none (events ++ more) iteration

-- The content of the user's entry.
unfoldable pub user_content : (user_message : Text) → (attachments : List Block) → Content
user_content message [] = plain message
user_content message (a ∷ as') =
    blocks ((a ∷ as') ++ (if is_blank message then [] else text message ∷ []))

-- request.attachments and not model_supports_input(...)
unfoldable pub refuses : List Block → (sees_images : Bool) → Bool
refuses [] sees_images = false
refuses (a ∷ more) sees_images = not sees_images

module _ (env : Environment) where
  -- The exit of a stream that broke off, with what was streamed kept.
  unfoldable pub break_off : Run → Text → List Event → Text → Next
  unfolding fail
  break_off run streamed events code = fail (persist_partial env.draw run streamed) events code

  unfoldable pub compact :
      Engine → Run → Result StoreError (Compaction.Outcome × SessionTree × Store)
  compact engine run =
      let d = env.draw run.tree in
      try_compaction d.draws d.longer d.timestamp engine (λ t. t) run.tree run.store

  unfoldable pub after_overflow :
      Text
      → Text
      → Run
      → List Event
      → Result StoreError (Compaction.Outcome × SessionTree × Store)
      → Next
  unfolding break_off
  after_overflow code streamed run events (err e) = store_fails e events
  after_overflow code streamed run events (ok (outcome, tree, store)) =
      let after = record run { tree = tree; store = store } in
      if not outcome.ok
      then break_off after streamed events (compaction_code outcome)
      else if outcome.compacted
      then continue after events
      else break_off after streamed events code

  unfoldable pub after_stream : Turn → Run → Streamed → StreamEnd → List Event → Next
  unfolding respond break_off compact after_overflow
  after_stream turn run s completes events =
      respond env turn s.text (finalize_tool_calls env.reprint s.buffer)
        (record run { totals = add_usage run.totals s.usage }) events
  after_stream turn run s agent_timeout events = break_off run s.text events (codes "timeout")
  after_stream turn run s agent_aborted events = break_off run s.text events (codes "aborted")
  after_stream turn run s (llm_error code) events =
      if text_eq code (codes "context_overflow")
      then after_overflow code s.text run events (compact turn.overflow run)
      else break_off run s.text events code
  after_stream turn run s stream_raises events = raises run events

  unfoldable pub call_model : Turn → Run → Next
  unfolding after_stream fail
  call_model turn run =
      if turn.no_time_left
      then fail run [] (codes "timeout")
      else (let streamed = stream_loop turn.chunks turn.stream_end nothing_streamed in
          after_stream turn run streamed.0 streamed.1 (map text_chunk streamed.0.deltas))

  unfoldable pub after_pretrim :
      Turn → Run → Result StoreError (Compaction.Outcome × SessionTree × Store) → Next
  unfolding call_model fail
  after_pretrim turn run (err e) = store_fails e []
  after_pretrim turn run (ok (outcome, tree, store)) =
      let after = record run { tree = tree; store = store } in
      if not outcome.ok
      then fail after [] (compaction_code outcome)
      else if outcome.compacted
      then continue after []
      else call_model turn after

  unfoldable pub is_over_budget : Turn → Bool
  is_over_budget turn =
      ltb 0 env.config.history_budget
      && ltb env.config.history_budget (estimate_messages_tokens turn.assembled)

  unfoldable pub run_turn : Turn → Run → Next
  unfolding fail is_over_budget after_pretrim compact call_model
  run_turn turn run =
      if turn.run_timed_out
      then fail run [] (codes "timeout")
      else if turn.abort_set
      then fail run [] (codes "aborted")
      else if turn.prepare_raises
      then raises run []
      else if is_over_budget turn
      then after_pretrim turn run (compact turn.pretrim run)
      else call_model turn run

  -- The `while` loop: `left` is the number of turns below `max_iterations`.
  unfoldable pub run_turns : (left iteration : ℕ) → Run → List Event → RunEnd
  unfolding ended run_turn go_on
  run_turns zero iteration run events =
      ended run (events ++ error (codes "max_iterations") ∷ []) (codes "max_iterations") iteration
  run_turns (suc left) iteration run events =
      go_on events (iteration + 1) (run_turn (env.turns (iteration + 1)) run)
        (run_turns left (iteration + 1))

  unfoldable pub begin_run : (user_message : Text) → (attachments : List Block) → Run → RunEnd
  unfolding run_turns user_content go_on
  begin_run message attachments run =
      go_on [] 0
        (then_do
          (append_message env.draw run (record {
            role = user;
            content = user_content message attachments;
            tool_calls = [];
            tool_call_id = none;
            partial = false;
          }))
          [] (λ after. continue after []))
        (run_turns env.config.max_iterations 0)

  -- `sees_images` says that the model can read images, or that its providers are not known. The refusal leaves
  -- `terminated_by` as it is.
  unfoldable pub run_agent_stream :
      (sees_images : Bool)
      → Store
      → Header
      → (user_message : Text) → (attachments : List Block) → RunEnd
  unfolding begin_run ended
  run_agent_stream sees_images store header message attachments =
      let session = ensure_session store header in
      let run : Run = record {
        tree = session.0;
        store = session.1;
        retries = no_retries;
        loop = reset;
        totals = no_usage;
      } in
      if refuses attachments sees_images
      then ended run (error (codes "vision_not_support") ∷ []) (codes "done") 0
      else begin_run message attachments run

-- `RunResult`
pub record RunResult : Type 0 where
  pub final_text : Text
  pub iterations : ℕ
  pub terminated_by : Text

unfoldable pub read_event : RunResult → Event → RunResult
read_event r (done final_message usage) = record r {
  final_text = final_message;
  terminated_by = codes "done";
}
read_event r (error code) = record r { terminated_by = code }
read_event r (tool_call_end id result) = record r { iterations = r.iterations + 1 }
read_event r _ = r

unfoldable pub read_events : RunResult → List Event → RunResult
unfolding read_event
read_events r [] = r
read_events r (e ∷ es) = read_events (read_event r e) es

-- `run_agent` of a run that no exception leaves.
unfoldable pub run_agent : RunEnd → RunResult
unfolding read_events
run_agent end =
    read_events (record { final_text = []; iterations = 0; terminated_by = codes "done" })
      end.events
