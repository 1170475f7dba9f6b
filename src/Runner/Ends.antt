-- ===== src/Runner/Ends.antt =====
-- How a run of `run_agent_stream`, src/pyclaw/core/agent/runner.py, ends.
use mathlib.Core.Path.{subst}
use mathlib.Core.List.{append_assoc}
use pyclaw.Prelude.{
  ℕ, zero, suc, ◌+◌, ◌≤◌, arith, Text, codes, Bool, true, false, some, List, [], ◌∷◌, ◌++◌, ◌≡◌,
  refl, sym, ap, ◌∙◌, inl, inr, ◌⊎◌, All, All-append, if_elim, text_key,
}
use pyclaw.Prelude.Dict
use pyclaw.Session.Types.{assistant, Block, Header, SessionTree}
use pyclaw.Session.Store.{Store}
use pyclaw.Session.Store.Mirror.{IsSound}
use pyclaw.Runner.LoopGuard.{reset}
use pyclaw.Runner.Compaction.{ensure_session}
use pyclaw.Runner.Compaction.Persisted.{ensure_session-Mirrors}
use pyclaw.Runner.Stream.{no_usage}
use pyclaw.Runner.State.{
  Event, text_chunk, tool_call_start, tool_approval_request, tool_call_end, error, done, Run,
  Environment, Next, continue, stop, raises, store_fails, said,
}
use pyclaw.Runner.Response.{no_retries}
use pyclaw.Runner.Loop.{
  RunEnd, RunResult, ended, left_by_exception, go_on, run_turn, run_turns, begin_run, refuses,
  run_agent_stream, run_agent, read_event, read_events,
}
use pyclaw.Runner.Kept.{IsKept, IsQuiet, IsLeaf, Says, Terminates, IsKeptBy, then_do-IsKeptBy}
use pyclaw.Runner.Kept.Turns.{run_turn-IsKeptBy}

-- A run that no exception leaves ends with an event of its code; one that an exception leaves has no such event,
-- and its code is "done".
abbrev pub Reports : (raised : Bool) → Run → List Event → Text → Type 0
Reports false run events code = Terminates run events code
Reports true run events code = All IsQuiet events × (code ≡ codes "done")

abbrev pub EndsWell : (bound : ℕ) → RunEnd → Type 0
EndsWell bound end =
    (end.iteration ≤ bound)
    × (run : Run) × (end.run ≡ some run)
    × IsKept run
    × Reports end.raised run end.events end.terminated_by

later :
    (events more : List Event) (run : Run) (code : Text)
    → All IsQuiet events
    → Terminates run more code
    → Terminates run (events ++ more) code
later events more run code q (before, last, e, quiet, says) = (
  events ++ before,
  last,
  ap (λ l. events ++ l) e ∙ sym (append_assoc events before (last ∷ [])),
  All-append IsQuiet events before q quiet,
  says,
)

go_on-EndsWell :
    (bound iteration : ℕ) (events : List Event) (next : Next) (rest : Run → List Event → RunEnd)
    → iteration ≤ bound
    → All IsQuiet events
    → IsKeptBy next
    → ((run : Run) (more : List Event)
        → IsKept run
        → All IsQuiet more
        → EndsWell bound (rest run more))
    → EndsWell bound (go_on events iteration next rest)
unfolding go_on ended left_by_exception
go_on-EndsWell bound iteration events (continue run more) rest i q (k, quiet) h =
    h run (events ++ more) k (All-append IsQuiet events more q quiet)
go_on-EndsWell bound iteration events (stop run more code) rest i q (k, t) h =
    (i, run, refl, k, later events more run code q t)
go_on-EndsWell bound iteration events (raises run more) rest i q (k, quiet) h =
    (i, run, refl, k, (All-append IsQuiet events more q quiet, refl))
go_on-EndsWell bound iteration events (store_fails e more) rest i q k h = absurd k

module _ (env : Environment)
    (fresh : (tree : SessionTree) → Dict.has tree.entries (env.draw tree).longer ≡ false) where
  run_turns-EndsWell :
      (bound left iteration : ℕ) (run : Run) (events : List Event)
      → iteration + left ≤ bound
      → IsKept run
      → All IsQuiet events
      → EndsWell bound (run_turns env left iteration run events)
  unfolding run_turns ended
  run_turns-EndsWell bound zero iteration run events i k q =
      (omega (arith, i), run, refl, k, (events, error (codes "max_iterations"), refl, q, refl))
  run_turns-EndsWell bound (suc left) iteration run events i k q =
      go_on-EndsWell bound (iteration + 1) events (run_turn env (env.turns (iteration + 1)) run)
        (run_turns env left (iteration + 1)) (omega (arith, i)) q
        (run_turn-IsKeptBy env fresh (env.turns (iteration + 1)) run k)
        (λ after more kept quiet.
          run_turns-EndsWell bound left (iteration + 1) after more (omega (arith, i)) kept quiet)

  begin_run-EndsWell :
      (text : Text) (attachments : List Block) (run : Run)
      → IsKept run
      → EndsWell env.config.max_iterations (begin_run env text attachments run)
  unfolding begin_run
  begin_run-EndsWell text attachments run k =
      go_on-EndsWell env.config.max_iterations 0 [] _ (run_turns env env.config.max_iterations 0)
        (omega arith) tt
        (then_do-IsKeptBy env fresh run _ [] (λ after. continue after []) k
          (λ after kept leaf totals. (kept, tt)))
        (λ after more kept quiet.
          run_turns-EndsWell env.config.max_iterations env.config.max_iterations 0 after more
            (omega arith) kept quiet)

  started-EndsWell :
      (store : Store) (header : Header) (text : Text) (attachments : List Block)
      (sees_images : Bool)
      → IsSound store
      → refuses attachments sees_images ≡ false
      → EndsWell env.config.max_iterations
          (run_agent_stream env sees_images store header text attachments)
  unfolding run_agent_stream
  started-EndsWell store header text attachments sees_images sound accepted =
      let (is, mirrors, sound') =
        ensure_session-Mirrors store header {tree = (ensure_session store header).0}
          {after = (ensure_session store header).1} sound refl in
      if_elim (EndsWell env.config.max_iterations) (refuses attachments sees_images) (λ t. cc)
        (λ _.
          begin_run-EndsWell text attachments
            (record {
              tree = (ensure_session store header).0;
              store = (ensure_session store header).1;
              retries = no_retries;
              loop = reset;
              totals = no_usage;
            })
            (mirrors, sound'))

  -- A run on a sound store, with ids that are new in its tree, ends, having begun `max_iterations` turns at most. If no
  -- exception leaves it, its events are followed by one last event that ends it, an error of the code that
  -- `notify_run_end` is given, or, with the code "done", an answer that is the leaf of its tree; if the prompt, the
  -- assembly, the stream, the hook or the tools raise an exception that is not one of the model's, a timeout or an abort, no
  -- event ends it and the code is "done". A run that is refused for its images is left out.
  pub run_agent_stream-Reports :
      (store : Store) (header : Header) (text : Text) (attachments : List Block)
      (sees_images : Bool)
      → IsSound store
      → refuses attachments sees_images ≡ false
      → let end = run_agent_stream env sees_images store header text attachments in
        (end.iteration ≤ env.config.max_iterations)
        × (run : Run) × (end.run ≡ some run)
        × Reports end.raised run end.events end.terminated_by
  run_agent_stream-Reports store header text attachments sees_images sound accepted =
      let (bound, run, is, k, reports) =
        started-EndsWell store header text attachments sees_images sound accepted in
      (bound, run, is, reports)

  -- A run on a sound store, with ids that are new in its tree, never meets an error of the store, and leaves a sound store
  -- that holds its tree, however it ends: by an answer, an error, an abort, a timeout, a compaction that fails,
  -- the limit of its turns or an exception of the prompt, the assembly, the stream, the hook or the tools. A run that is refused for its images is left out.
  pub run_agent_stream-IsKept :
      (store : Store) (header : Header) (text : Text) (attachments : List Block)
      (sees_images : Bool)
      → IsSound store
      → refuses attachments sees_images ≡ false
      → (run : Run) × ((run_agent_stream env sees_images store header text attachments).run
          ≡ some run)
        × IsKept run
  run_agent_stream-IsKept store header text attachments sees_images sound accepted =
      let (bound, run, is, k, reports) =
        started-EndsWell store header text attachments sees_images sound accepted in
      (run, is, k)

read_quiet :
    (r : RunResult) (events : List Event)
    → All IsQuiet events
    → (read_events r events).terminated_by ≡ r.terminated_by
      × ((read_events r events).final_text ≡ r.final_text)
unfolding read_events read_event
read_quiet r [] q = (refl, refl)
read_quiet r (text_chunk t ∷ es) q = read_quiet r es q.1
read_quiet r (tool_call_start c ∷ es) q = read_quiet r es q.1
read_quiet r (tool_approval_request e ∷ es) q = read_quiet r es q.1
read_quiet r (tool_call_end id result ∷ es) q =
    read_quiet (read_event r (tool_call_end id result)) es q.1
read_quiet r (error code ∷ es) q = absurd q.0
read_quiet r (done text usage ∷ es) q = absurd q.0

read_append :
    (r : RunResult) (events : List Event) (last : Event)
    → read_events r (events ++ last ∷ []) ≡ read_event (read_events r events) last
unfolding read_events
read_append r [] last = refl
read_append r (e ∷ es) last = read_append (read_event r e) es last

read_result :
    (end : RunEnd) (run : Run)
    → Terminates run end.events end.terminated_by
    → ((run_agent end).terminated_by ≡ end.terminated_by)
      × (((run_agent end).final_text ≡ []) ⊎ IsLeaf run (said assistant (run_agent end).final_text))
unfolding run_agent
read_result end run (before, last, e, quiet, says) =
    let start : RunResult = record {
      final_text = [];
      iterations = 0;
      terminated_by = codes "done";
    } in
    let (code, text) = read_quiet start before quiet in
    subst
      (λ (r : RunResult).
        (r.terminated_by ≡ end.terminated_by)
        × ((r.final_text ≡ []) ⊎ IsLeaf run (said assistant r.final_text)))
      (sym (ap (read_events start) e ∙ read_append start before last))
      (by_last last says (read_events start before) text)
  where
    by_last :
        (last : Event)
        → Says run last end.terminated_by
        → (r : RunResult) → r.final_text ≡ []
        → ((read_event r last).terminated_by ≡ end.terminated_by)
          × (((read_event r last).final_text ≡ [])
              ⊎ IsLeaf run (said assistant (read_event r last).final_text))
    by_last (text_chunk t) says r empty = absurd says
    by_last (tool_call_start c) says r empty = absurd says
    by_last (tool_approval_request e) says r empty = absurd says
    by_last (tool_call_end id result) says r empty = absurd says
    by_last (error code) says r empty = unfold read_event in (says, inl empty)
    by_last (done text usage) (code, totals, leaf) r empty =
        unfold read_event in (sym code, inr leaf)

-- What `run_agent` reads off the events of a run on a sound store, with ids that are new in its tree, if no exception
-- leaves it and it is not refused for its images: the code is the one that `notify_run_end` is given, and
-- the text is empty or the assistant's message at the leaf of the run's tree.
pub run_agent-Reports :
    (env : Environment) (store : Store) (header : Header) (text : Text) (attachments : List Block)
    (sees_images : Bool)
    (fresh : (tree : SessionTree) → Dict.has tree.entries (env.draw tree).longer ≡ false)
    → IsSound store
    → refuses attachments sees_images ≡ false
    → (run_agent_stream env sees_images store header text attachments).raised ≡ false
    → let end = run_agent_stream env sees_images store header text attachments in
      (run : Run) × (end.run ≡ some run)
      × ((run_agent end).terminated_by ≡ end.terminated_by)
      × (((run_agent end).final_text ≡ []) ⊎ IsLeaf run (said assistant (run_agent end).final_text))
run_agent-Reports env store header text attachments sees_images fresh sound accepted no_exception =
    let end = run_agent_stream env sees_images store header text attachments in
    let (bound, run, is, k, reports) =
      started-EndsWell env fresh store header text attachments sees_images sound accepted in
    let (code, final) =
      read_result end run
        (subst (λ b. Reports b run end.events end.terminated_by) no_exception reports) in
    (run, is, code, final)
