-- ===== src/Runner/Kept/Turns.antt =====
-- What every exit of a turn keeps: src/pyclaw/core/agent/runner.py.
use pyclaw.Prelude.{
  Text, codes, false, not, List, [], ◌≡◌, Result, ok, err, All, if_elim, text_eq, text_key,
}
use pyclaw.Prelude.Dict
use pyclaw.Session.Types.{SessionTree}
use pyclaw.Session.Store.{Store, StoreError}
use pyclaw.Runner.Compaction.{append, generate_entry_id, Engine, try_compaction}
use pyclaw.Runner.Compaction as Compaction
use pyclaw.Runner.Compaction.Persisted.{IsPersisted, try_compaction-IsPersisted}
use pyclaw.Runner.Stream.{
  StreamEnd, completes, agent_timeout, agent_aborted, llm_error, stream_raises, Streamed,
  stream_loop, nothing_streamed, finalize_tool_calls,
}
use pyclaw.Runner.State.{Event, Run, Turn, Environment, persist_partial}
use pyclaw.Runner.Response.{add_usage}
use pyclaw.Runner.Loop.{
  break_off, compact, compaction_code, after_overflow, after_stream, call_model, after_pretrim,
  is_over_budget, run_turn,
}
use pyclaw.Runner.Kept.{
  IsKept, IsQuiet, IsKeptBy, text_chunk-IsQuiet, fail-IsKeptBy, persist_partial-IsKept,
}
use pyclaw.Runner.Kept.Calls.{respond-IsKeptBy}

module _ (env : Environment)
    (fresh : (tree : SessionTree) → Dict.has tree.entries (env.draw tree).longer ≡ false) where
  break_off-IsKeptBy :
      (run : Run) (streamed : Text) (events : List Event) (code : Text)
      → IsKept run
      → All IsQuiet events
      → IsKeptBy (break_off env run streamed events code)
  unfolding break_off
  break_off-IsKeptBy run streamed events code k q =
      fail-IsKeptBy (persist_partial env.draw run streamed) events code
        (persist_partial-IsKept env fresh run streamed k) q

  compact-IsPersisted :
      (engine : Engine) (run : Run) → IsKept run → IsPersisted (compact env engine run)
  unfolding compact
  compact-IsPersisted engine run (mirrors, sound) =
      let d = env.draw run.tree in
      try_compaction-IsPersisted d.draws d.longer d.timestamp engine run.tree run.store sound
        mirrors (fresh run.tree)

  after_overflow-IsKeptBy :
      (code streamed : Text) (run : Run) (events : List Event)
      (r : Result StoreError (Compaction.Outcome × SessionTree × Store))
      → IsPersisted r
      → All IsQuiet events
      → IsKeptBy (after_overflow env code streamed run events r)
  unfolding after_overflow
  after_overflow-IsKeptBy code streamed run events (err e) p q = absurd p
  after_overflow-IsKeptBy code streamed run events (ok (outcome, tree, store)) p q =
      let after = record run { tree = tree; store = store } in
      if_elim IsKeptBy (not outcome.ok)
        (λ _. break_off-IsKeptBy after streamed events (compaction_code outcome) p q)
        (λ _.
          if_elim IsKeptBy outcome.compacted (λ _. (p, q))
            (λ _. break_off-IsKeptBy after streamed events code p q))

  after_stream-IsKeptBy :
      (turn : Turn) (run : Run) (s : Streamed) (end : StreamEnd) (events : List Event)
      → IsKept run
      → All IsQuiet events
      → IsKeptBy (after_stream env turn run s end events)
  unfolding after_stream
  after_stream-IsKeptBy turn run s completes events k q =
      respond-IsKeptBy env fresh turn s.text (finalize_tool_calls env.reprint s.buffer)
        (record run { totals = add_usage run.totals s.usage }) events k q
  after_stream-IsKeptBy turn run s agent_timeout events k q =
      break_off-IsKeptBy run s.text events _ k q
  after_stream-IsKeptBy turn run s agent_aborted events k q =
      break_off-IsKeptBy run s.text events _ k q
  after_stream-IsKeptBy turn run s (llm_error code) events k q =
      if_elim IsKeptBy (text_eq code (codes "context_overflow"))
        (λ _.
          after_overflow-IsKeptBy code s.text run events (compact env turn.overflow run)
            (compact-IsPersisted turn.overflow run k) q)
        (λ _. break_off-IsKeptBy run s.text events code k q)
  after_stream-IsKeptBy turn run s stream_raises events k q = (k, q)

  call_model-IsKeptBy : (turn : Turn) (run : Run) → IsKept run → IsKeptBy (call_model env turn run)
  unfolding call_model
  call_model-IsKeptBy turn run k =
      let streamed = stream_loop turn.chunks turn.stream_end nothing_streamed in
      if_elim IsKeptBy turn.no_time_left (λ _. fail-IsKeptBy run [] _ k tt)
        (λ _.
          after_stream-IsKeptBy turn run streamed.0 streamed.1 _ k
            (text_chunk-IsQuiet streamed.0.deltas))

  after_pretrim-IsKeptBy :
      (turn : Turn) (run : Run) (r : Result StoreError (Compaction.Outcome × SessionTree × Store))
      → IsPersisted r
      → IsKeptBy (after_pretrim env turn run r)
  unfolding after_pretrim
  after_pretrim-IsKeptBy turn run (err e) p = absurd p
  after_pretrim-IsKeptBy turn run (ok (outcome, tree, store)) p =
      let after = record run { tree = tree; store = store } in
      if_elim IsKeptBy (not outcome.ok) (λ _. fail-IsKeptBy after [] (compaction_code outcome) p tt)
        (λ _.
          if_elim IsKeptBy outcome.compacted (λ _. (p, tt)) (λ _. call_model-IsKeptBy turn after p))

  pub run_turn-IsKeptBy : (turn : Turn) (run : Run) → IsKept run → IsKeptBy (run_turn env turn run)
  unfolding run_turn
  run_turn-IsKeptBy turn run k =
      if_elim IsKeptBy turn.run_timed_out (λ _. fail-IsKeptBy run [] _ k tt)
        (λ _.
          if_elim IsKeptBy turn.abort_set (λ _. fail-IsKeptBy run [] _ k tt)
            (λ _.
              if_elim IsKeptBy turn.prepare_raises (λ _. (k, tt))
                (λ _.
                  if_elim IsKeptBy (is_over_budget env turn)
                    (λ _.
                      after_pretrim-IsKeptBy turn run (compact env turn.pretrim run)
                        (compact-IsPersisted turn.pretrim run k))
                    (λ _. call_model-IsKeptBy turn run k))))
