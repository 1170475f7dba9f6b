-- ===== src/Tools/Registry.antt =====
-- `ToolRegistry` of src/pyclaw/core/agent/tools/registry.py.
pub mod Lookup
use pyclaw.Prelude.{
  Text, Bool, true, false, ◌&&◌, not, Option, none, some, List, [], ◌∷◌, Result, ok, err, ◌==◌,
  if◌then◌else◌,
}
use pyclaw.Prelude.Dict
use pyclaw.Prelude.Dict.{Dict}
use pyclaw.Prelude.{text_key}
use pyclaw.Tools.Types.{Tool, ToolClass, read, memory_write_safe, write, other}
use pyclaw.Tools.Names.{has_dunder, replace_dunder, colon_count, server_part, llm_name}

-- `_tools`
abbrev pub Registry : Type 0
Registry = Dict Text Tool

-- The reasons for a `ValueError` of `register`.
pub data RegisterError : Type 0 where
  already_registered invalid_tool_class reserved_dunder reserved_colon : RegisterError
  not_one_colon server_dunder : RegisterError

-- cls in _VALID_TOOL_CLASSES
unfoldable pub is_valid_class : Option ToolClass → Bool
is_valid_class none = false
is_valid_class (some read) = true
is_valid_class (some memory_write_safe) = true
is_valid_class (some write) = true
is_valid_class (some (other _)) = false

-- hasattr(tool, "server_config")
unfoldable pub is_mcp_imported : Tool → Bool
is_mcp_imported tool = elim tool.server [ none ↦ false | some _ ↦ true ]

unfoldable pub register : Registry → Tool → Result RegisterError Registry
unfolding is_valid_class is_mcp_imported
register tools tool =
    let mcp = is_mcp_imported tool in
    if Dict.has tools tool.name
    then err already_registered
    else if not (is_valid_class tool.tool_class)
    then err invalid_tool_class
    else if not mcp && has_dunder tool.name
    then err reserved_dunder
    else if not (colon_count tool.name == 0) && not mcp
    then err reserved_colon
    else if mcp && not (colon_count tool.name == 1)
    then err not_one_colon
    else if mcp && has_dunder (server_part tool.name)
    then err server_dunder
    else ok (Dict.put tools tool.name tool)

unfoldable pub unregister : Registry → Text → Registry × Bool
unregister tools name =
    if Dict.has tools name then (Dict.remove tools name, true) else (tools, false)

-- `get` of a name that is not empty.
unfoldable pub get_named : Registry → Text → Option Tool
get_named tools name = elim (Dict.get tools name) [
  | some tool ↦ some tool
  | none ↦ if has_dunder name then Dict.get tools (replace_dunder name) else none
]

-- `get("")` and `get(None)` find nothing.
unfoldable pub get : Registry → Text → Option Tool
unfolding get_named
get tools [] = none
get tools (c ∷ s) = get_named tools (c ∷ s)

unfoldable pub names : Registry → List Text
names tools = Dict.keys tools

-- `__contains__`
unfoldable pub contains : Registry → Text → Bool
contains tools name = Dict.has tools name

-- The names under which `list_for_llm` offers the tools: `_to_openai_function` of each.
unfoldable pub offered_names : Registry → List Text
offered_names [] = []
offered_names ((_, tool) ∷ tools) = llm_name tool.name ∷ offered_names tools
