-- ===== src/Runner/Stream.antt =====
-- The streaming of one response in `run_agent_stream` of src/pyclaw/core/agent/runner.py, with
-- `merge_tool_call_deltas` and `finalize_tool_calls` of src/pyclaw/core/agent/llm.py. What the model sends, and how its
-- stream ends, is an argument.
use pyclaw.Prelude.{
  ℕ, Text, codes, Bool, Option, none, some, List, [], ◌∷◌, ◌++◌, map, if◌then◌else◌, leb, decimal,
  Key, ◌==◌, ==_iff,
}
use pyclaw.Prelude.Dict
use pyclaw.Prelude.Dict.{Dict}
use pyclaw.Tools.Types.{Call, raw}

instance abbrev pub number_key : Key ℕ
number_key = record { beq = ◌==◌; beq_iff = ==_iff }

-- A part of a tool call; a text that is missing is empty.
pub record Delta : Type 0 where
  pub index : ℕ
  pub id : Text
  pub name : Text
  pub arguments : Text

pub record Slot : Type 0 where
  pub id : Text
  pub name : Text
  pub arguments : Text

abbrev pub empty_slot : Slot
empty_slot = record { id = []; name = []; arguments = [] }

-- new or old, where the new text is empty
unfoldable pub replaced_by : Text → Text → Text
replaced_by [] old = old
replaced_by (c ∷ s) old = c ∷ s

unfoldable pub merge_slot : Slot → Delta → Slot
unfolding replaced_by
merge_slot slot d = record {
  id = replaced_by d.id slot.id;
  name = replaced_by d.name slot.name;
  arguments = slot.arguments ++ d.arguments;
}

slot_or : Option Slot → Slot
slot_or none = empty_slot
slot_or (some slot) = slot

unfoldable pub merge_tool_call_deltas : Dict ℕ Slot → List Delta → Dict ℕ Slot
unfolding merge_slot slot_or
merge_tool_call_deltas buffer [] = buffer
merge_tool_call_deltas buffer (d ∷ ds) =
    merge_tool_call_deltas
      (Dict.put buffer d.index (merge_slot (slot_or (Dict.get buffer d.index)) d)) ds

-- sorted(buffer.keys()), with the slots
insert_slot : ℕ × Slot → Dict ℕ Slot → Dict ℕ Slot
insert_slot p [] = p ∷ []
insert_slot p (q ∷ qs) = let rest = insert_slot p qs in if leb p.0 q.0 then p ∷ q ∷ qs else q ∷ rest

sort_slots : Dict ℕ Slot → Dict ℕ Slot
unfolding insert_slot
sort_slots [] = []
sort_slots (p ∷ ps) = insert_slot p (sort_slots ps)

-- `reprint` is json.dumps(json.loads(s)), or `s` where that is no JSON.
unfoldable pub call_of : (reprint : Text → Text) → ℕ × Slot → Call
unfolding replaced_by
call_of reprint (index, slot) = record {
  id = replaced_by slot.id (codes "call_" ++ decimal index);
  name = slot.name;
  arguments = raw (reprint (replaced_by slot.arguments (codes "{}")));
}

unfoldable pub finalize_tool_calls : (reprint : Text → Text) → Dict ℕ Slot → List Call
unfolding sort_slots call_of
finalize_tool_calls reprint buffer = map (call_of reprint) (sort_slots buffer)

-- `LLMUsage`
pub record Usage : Type 0 where
  pub input_tokens : ℕ
  pub output_tokens : ℕ
  pub cache_creation_input_tokens : ℕ
  pub cache_read_input_tokens : ℕ

abbrev pub no_usage : Usage
no_usage = record {
  input_tokens = 0;
  output_tokens = 0;
  cache_creation_input_tokens = 0;
  cache_read_input_tokens = 0;
}

-- A chunk, and whether the run's time is over or its abort is set when it comes.
pub record Chunk : Type 0 where
  pub run_timed_out : Bool
  pub abort_set : Bool
  pub text_delta : Text
  pub tool_call_deltas : List Delta
  pub usage : Option Usage

-- How the iteration over the chunks ends.
pub data StreamEnd : Type 0 where
  completes : StreamEnd
  agent_timeout : StreamEnd
  agent_aborted : StreamEnd
  llm_error : (code : Text) → StreamEnd
  -- another exception, which no `except` of the run takes
  stream_raises : StreamEnd

-- What is there when the stream is left; `deltas` are the texts of its `TextChunk` events.
pub record Streamed : Type 0 where
  pub text : Text
  pub deltas : List Text
  pub buffer : Dict ℕ Slot
  pub usage : Usage

abbrev pub nothing_streamed : Streamed
nothing_streamed = record { text = []; deltas = []; buffer = []; usage = no_usage }

-- if chunk.text_delta
unfoldable pub add_delta : Streamed → Text → Streamed
add_delta s [] = s
add_delta s (c ∷ t) = record s { text = s.text ++ c ∷ t; deltas = s.deltas ++ (c ∷ t) ∷ [] }

usage_or : Option Usage → Usage → Usage
usage_or none old = old
usage_or (some new) old = new

unfoldable pub take_chunk : Streamed → Chunk → Streamed
unfolding add_delta usage_or
take_chunk s chunk =
    let with_text = add_delta s chunk.text_delta in
    record with_text {
      buffer = merge_tool_call_deltas s.buffer chunk.tool_call_deltas;
      usage = usage_or chunk.usage s.usage;
    }

unfoldable pub stream_loop : List Chunk → StreamEnd → Streamed → Streamed × StreamEnd
unfolding take_chunk
stream_loop [] end s = (s, end)
stream_loop (chunk ∷ chunks) end s =
    let rest = stream_loop chunks end (take_chunk s chunk) in
    if chunk.run_timed_out
    then (s, agent_timeout)
    else if chunk.abort_set
    then (s, agent_aborted)
    else rest
