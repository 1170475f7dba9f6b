-- ===== src/Runner/LoopGuard/McpNames.antt =====
-- The counter of unknown tools and the tools of MCP servers.
use pyclaw.Prelude.{ℕ, suc, Text, ◌≡◌, true, false, some, [], ◌∷◌, ok}
use pyclaw.Tools.Types.{Tool, absent, Call}
use pyclaw.Tools.Names.{server_part, llm_name, has_dunder}
use pyclaw.Tools.Names.RoundTrip.{ends_in_underscore}
use pyclaw.Tools.Registry.{Registry, register, get, contains, is_mcp_imported}
use pyclaw.Tools.Registry.Lookup.{
  IsRegistry, register-IsRegistry, register-Accepted, get-register-llm_name, contains-llm_name,
  has_dunder-llm,
}
use pyclaw.Runner.LoopGuard.{terminate, unknown_names}
use pyclaw.Runner.LoopGuard.Turns.{action, turns, turns-action}

abbrev pub call_of : Text → Call
call_of name = record { id = []; name = name; arguments = absent }

unknown_names-not_contained :
    (tools : Registry) (name : Text)
    → has_dunder name ≡ true
    → contains tools name ≡ false
    → unknown_names tools (name ∷ []) ≡ name ∷ []
unfolding unknown_names has_dunder
unknown_names-not_contained tools [] d h = cc
unknown_names-not_contained tools (c ∷ s) d h = rw h

-- After `register` has accepted a tool of an MCP server (not named with a trailing underscore), the
-- name that the LLM is given finds the tool, and yet calling the tool in each turn by that name
-- ends the run: the turn after the `n + 1` turns of the threshold terminates it.
pub mcp_calls_terminate :
    (tools : Registry) (tool : Tool) (n : ℕ) {after : Registry}
    → IsRegistry tools
    → is_mcp_imported tool ≡ true
    → ends_in_underscore (server_part tool.name) ≡ false
    → register tools tool ≡ ok after
    → (get after (llm_name tool.name) ≡ some tool)
      × (action
            (call_of (llm_name tool.name) ∷ [])
            after
            (suc n)
            (turns (call_of (llm_name tool.name) ∷ []) after (suc n) (suc n))
          ≡ terminate)
mcp_calls_terminate tools tool n {after} inv mcp u r =
    let one = ((register-Accepted tools tool r).well_named.qualified_name mcp).0 in
    let unknown =
      unknown_names-not_contained after (llm_name tool.name) (has_dunder-llm tool.name one)
        (contains-llm_name after tool.name (register-IsRegistry tools tool inv r) one) in
    (
      get-register-llm_name tools tool inv mcp u r,
      (turns-action (call_of (llm_name tool.name) ∷ []) after (llm_name tool.name) [] n unknown).2,
    )
