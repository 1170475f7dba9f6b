-- ===== src/Runner/Kept.antt =====
-- What a turn of `run_agent_stream`, src/pyclaw/core/agent/runner.py, keeps: the store holds the session of the run, and an
-- event that ends the run is its last. Proved once for all exits of a turn.
pub mod Calls
pub mod Turns
use mathlib.Core.Path.{subst}
use pyclaw.Prelude.{
  Text, codes, true, false, not, Option, none, some, List, [], ◌∷◌, ◌++◌, map, ◌≡◌, refl, sym, ap,
  Result, ok, err, All, All-append, if_elim, text_eq, text_key, ltb,
}
use pyclaw.Prelude.Dict
use pyclaw.Session.Types.{plain, user, assistant, Message, message, Entry, SessionTree}
use pyclaw.Session.Tree.{put_entry, all_entry_ids}
use pyclaw.Session.Store.{Store, StoreError, append_entry}
use pyclaw.Session.Store.Mirror.{IsSound, Mirrors, append_entry-Mirrors}
use pyclaw.Tools.Types.{Call}
use pyclaw.Tools.Truncation.{ToolResult}
use pyclaw.Runner.Gate.{gate_calls, Evaluated}
use pyclaw.Runner.Gate as Gate
use pyclaw.Runner.LoopGuard.{LoopAction, proceed, warn, terminate}
use pyclaw.Runner.Compaction.{append, generate_entry_id, Engine, try_compaction}
use pyclaw.Runner.Compaction as Compaction
use pyclaw.Runner.Compaction.Persisted.{
  generate_entry_id-has, IsPersisted, try_compaction-IsPersisted,
}
use pyclaw.Runner.Turn.{TurnClassification, retry_message_for}
use pyclaw.Runner.Stream.{
  StreamEnd, completes, agent_timeout, agent_aborted, llm_error, Streamed, stream_loop,
  nothing_streamed, finalize_tool_calls,
}
use pyclaw.Runner.State.{
  Event, text_chunk, tool_call_start, tool_approval_request, tool_call_end, error, done, Run, Turn,
  Environment, Next, continue, stop, raises, store_fails, said, append_message, appended, new_entry,
  then_do, persist_partial, kept_going,
}
use pyclaw.Runner.Response.{
  fail, append_results, tool_message, executed, after_tools, execute_kept, truncated_results, gated,
  denial, after_guard, call_tools, retry_prompt, answer, respond, retry_count, retry_limit_for,
  count_retry, add_usage,
}
use pyclaw.Runner.Loop.{
  break_off, compact, compaction_code, after_overflow, after_stream, call_model, after_pretrim,
  is_over_budget, run_turn,
}

-- The store of a run holds its tree, and is sound.
abbrev pub IsKept : Run → Type 0
IsKept run = Mirrors run.store run.tree × IsSound run.store

-- An event after which the run goes on.
abbrev pub IsQuiet : Event → Type 0
IsQuiet (error code) = ⊥
IsQuiet (done text usage) = ⊥
IsQuiet _ = Unit

-- The leaf of the run's tree is an entry of this message.
abbrev pub IsLeaf : Run → Message → Type 0
IsLeaf run m =
    (e : Entry) × (run.tree.leaf_id ≡ some e.id)
    × (Dict.get run.tree.entries e.id ≡ some e)
    × (e.body ≡ message m)

-- An event that ends a run with this code: an error of that code, or the answer, which is the leaf of the tree.
abbrev pub Says : Run → Event → Text → Type 0
Says run (error code) terminated_by = code ≡ terminated_by
Says run (done text usage) terminated_by =
    (terminated_by ≡ codes "done") × (usage ≡ run.totals) × IsLeaf run (said assistant text)
Says run _ terminated_by = ⊥

abbrev pub Terminates : Run → List Event → Text → Type 0
Terminates run events code =
    (before : List Event) × (last : Event) × (events ≡ before ++ last ∷ [])
    × All IsQuiet before
    × Says run last code

abbrev pub IsKeptBy : Next → Type 0
IsKeptBy (continue run events) = IsKept run × All IsQuiet events
IsKeptBy (stop run events code) = IsKept run × Terminates run events code
IsKeptBy (raises run events) = IsKept run × All IsQuiet events
IsKeptBy (store_fails e events) = ⊥

pub append-IsQuiet :
    (events : List Event) (e : Event)
    → All IsQuiet events
    → IsQuiet e
    → All IsQuiet (events ++ e ∷ [])
append-IsQuiet events e h q = All-append IsQuiet events (e ∷ []) h (q, tt)

pub text_chunk-IsQuiet : (ts : List Text) → All IsQuiet (map text_chunk ts)
text_chunk-IsQuiet [] = tt
text_chunk-IsQuiet (t ∷ ts) = (tt, text_chunk-IsQuiet ts)

pub tool_call_start-IsQuiet : (cs : List Call) → All IsQuiet (map tool_call_start cs)
tool_call_start-IsQuiet [] = tt
tool_call_start-IsQuiet (c ∷ cs) = (tt, tool_call_start-IsQuiet cs)

pub tool_approval_request-IsQuiet :
    (es : List Evaluated) → All IsQuiet (map tool_approval_request es)
tool_approval_request-IsQuiet [] = tt
tool_approval_request-IsQuiet (e ∷ es) = (tt, tool_approval_request-IsQuiet es)

pub fail-IsKeptBy :
    (run : Run) (events : List Event) (code : Text)
    → IsKept run
    → All IsQuiet events
    → IsKeptBy (fail run events code)
unfolding fail
fail-IsKeptBy run events code k q = (k, (events, error code, refl, q, refl))

module _ (env : Environment)
    (fresh : (tree : SessionTree) → Dict.has tree.entries (env.draw tree).longer ≡ false) where
  -- The store takes a new entry of the run, and the run that has both is kept.
  stored :
      (run : Run) (m : Message)
      → IsKept run
      → (store : Store) × (append_entry run.store run.tree.header.id
            (new_entry (env.draw run.tree) run.tree m)
            (new_entry (env.draw run.tree) run.tree m).id
          ≡ ok store)
        × IsKept (record run {
          tree = put_entry run.tree (new_entry (env.draw run.tree) run.tree m);
          store = store;
        })
  unfolding new_entry all_entry_ids
  stored run m (mirrors, sound) =
      let is_new : Dict.has run.tree.entries (
            generate_entry_id (Dict.keys run.tree.entries) (env.draw run.tree).draws
              (env.draw run.tree).longer)
          ≡ false =
        unfold all_entry_ids in
        generate_entry_id-has run.tree.entries (env.draw run.tree).draws (env.draw run.tree).longer
          (fresh run.tree) in
      let (store, is, holds, sound') =
        append_entry-Mirrors run.store run.tree (new_entry (env.draw run.tree) run.tree m) sound
          mirrors is_new refl in
      (store, is, (holds, sound'))

  append_message-IsKept :
      (run : Run) (m : Message)
      → IsKept run
      → (after : Run) × (append_message env.draw run m ≡ ok after)
        × IsKept after
        × IsLeaf after m
        × (after.totals ≡ run.totals)
  unfolding append_message append new_entry put_entry appended
  append_message-IsKept run m k =
      let entry = new_entry (env.draw run.tree) run.tree m in
      let (store, is, kept) = stored run m k in
      (
        record run { tree = put_entry run.tree entry; store = store },
        ap (λ r. appended run (put_entry run.tree entry, r)) is,
        kept,
        (entry, refl, Dict.get-put_self run.tree.entries entry.id entry, refl),
        refl,
      )

  pub then_do-IsKeptBy :
      (run : Run) (m : Message) (events : List Event) (rest : Run → Next)
      → IsKept run
      → ((after : Run)
          → IsKept after
          → IsLeaf after m
          → after.totals ≡ run.totals
          → IsKeptBy (rest after))
      → IsKeptBy (then_do (append_message env.draw run m) events rest)
  then_do-IsKeptBy run m events rest k h =
      let (after, e, kept, leaf, totals) = append_message-IsKept run m k in
      subst (λ r. IsKeptBy (then_do r events rest)) (sym e)
        (unfold then_do in h after kept leaf totals)

  pub persist_partial-IsKept :
      (run : Run) (text : Text) → IsKept run → IsKept (persist_partial env.draw run text)
  unfolding persist_partial kept_going append
  persist_partial-IsKept run [] k = k
  persist_partial-IsKept run (c ∷ s) k =
      let m : Message = record {
        role = assistant;
        content = plain (c ∷ s);
        tool_calls = [];
        tool_call_id = none;
        partial = true;
      } in
      let entry = new_entry (env.draw run.tree) run.tree m in
      let (store, is, kept) = stored run m k in
      subst (λ r. IsKept (kept_going run (put_entry run.tree entry, r))) (sym is) kept
