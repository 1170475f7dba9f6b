-- ===== src/Lib.antt =====
-- A model of the core of PyClaw, an agent that works for the users of a chat: what a run may execute, what it
-- remembers, and what several workers share.
--
-- A run of the agent (src/pyclaw/core/agent/runner.py) builds the context for the language model from the tree of
-- its session, asks the model, and handles the tool calls of the answer: the approval gate decides which of them are
-- executed, the registry finds and runs the tools, long results are cut, and the answers go to the session and to
-- its store. When the context grows too long it is compacted: the older messages become a summary. Meanwhile
-- commands can steer the run. Several workers share the sessions through Redis: a router sends each event to the
-- worker that owns its session, and locks guard work that only one of them may do.
--
-- Files:
-- - Prelude: texts as lists of code points, lists over the native numbers, `dict` in the order of insertion,
--   exceptions as values.
-- - Tools: src/pyclaw/core/agent/tools/registry.py. Types, Names (the names for the language model), Registry
--   (`ToolRegistry`), Execution (`execute_tool_calls`, `_dispatch_single`) and Truncation
--   (src/pyclaw/core/agent/tool_result_truncation.py).
-- - Messages: the dicts that go to the language model, and `extract_text_from_content`.
-- - Runner: src/pyclaw/core/agent/runner.py. Gate is the part of `run_agent_stream` between the parsed tool calls and
--   their execution, LoopGuard is `_update_tool_loop_state`, Compaction is `ensure_session`, `_append` and
--   `_try_compaction` with the checkpoint. Loop is `run_agent_stream` with all its turns and `run_agent`, over State
--   (what a run keeps and what a turn meets) and Response (what follows a response), Stream (the chunks of a response,
--   with src/pyclaw/core/agent/llm.py) and Turn (src/pyclaw/core/agent/incomplete_turn.py).
-- - Tasks: `TaskManager` of src/pyclaw/infra/task_manager.py.
-- - Session: src/pyclaw/models/session.py (Types, Tree, Context), `InMemorySessionStore` of
--   src/pyclaw/storage/session/base.py (Store), `RedisSessionStore` of src/pyclaw/storage/session/redis.py (RedisStore)
--   and src/pyclaw/channels/session_router.py (Router).
-- - Compaction: src/pyclaw/core/agent/compaction/planning.py (Planning), hardening.py (Chunks) and
--   dedup.py (Dedup), and `compact` of src/pyclaw/core/context_engine.py (Engine).
-- - Steering: src/pyclaw/core/agent/run_control.py, src/pyclaw/core/commands/steering.py and
--   src/pyclaw/core/agent/hooks/steer_hook.py.
-- - Storage: src/pyclaw/storage/lock/redis.py (Lock) and mutex.py (Mutex), src/pyclaw/gateway/affinity.py and router.py
--   (Router), over an interface of the Redis commands (Redis).
-- - Evolution: how procedures are learnt, kept and promoted. src/pyclaw/core/sop_extraction.py: the segments of a
--   session (Segments), the check and the text of an item (Sop), the extraction (Extraction) and its lock and task (Jobs);
--   src/pyclaw/core/skill_graduation.py (Graduation); the table of procedures with src/pyclaw/core/curator_admin.py
--   (Procedures), and src/pyclaw/core/curator.py, curator_cycle.py and curator_state.py: the scan of a database (Scan),
--   its review by the language model (Review) and the cycle under the mutex (Cycle).
-- - Memory: the working memory of a session (src/pyclaw/core/agent/tools/update_working_memory.py, and
--   working_memory_hook.py and memory_nudge_hook.py of src/pyclaw/core/agent/hooks).
-- - Tiers: src/pyclaw/auth/tier_resolution.py and src/pyclaw/core/commands/tier_store.py.
-- The modules called Examples or Samples hold tests and concrete instances of the theorems.
--
-- State is passed explicitly and methods give the new state back; exceptions are values. What is not in the
-- repository is an argument: the approval hook, the hooks and the language model around a compaction, what a tool's own
-- `execute` comes to, the order in which the event loop completes concurrent calls, the Redis server with laws that
-- state its documented behaviour, what a turn of a run meets (time, abort, the stream of the model, the tools), the
-- codec of the stored models, what the answers of the language model are parsed to, random ids, the
-- clock, `str.lower`, `repr` and the XML escape.
--
-- Bounds: `get_branch` walks on fuel, one step more than the tree has entries; in a well-formed tree this is enough,
-- and in others the source may loop. `decimal` takes one step for each digit, `drop_blocks` one for each
-- character at most, and a run `max_iterations` turns, which the
-- source bounds too. All other loops are structural.
--
-- Not modelled: the timeouts of a run but for their outcome, the loop that starts the cycles of the curator, the parse of
-- what the language model answers to the curator and the extraction, the hook that collects candidates, the store of
-- profiles, the channels, and everything that is input and output only. A scan or a review of a database that raises is
-- one that has changed nothing. That a Redis error makes the router process an event locally is left out, and so is the
-- expiry of keys, but for the interference that the router's theorems allow.
pub mod Prelude
pub mod Tools
pub mod Messages
pub mod Runner
pub mod Session
pub mod Compaction
pub mod Steering
pub mod Storage
pub mod Tasks
pub mod Evolution
pub mod Memory
pub mod Tiers
