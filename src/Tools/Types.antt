-- ===== src/Tools/Types.antt =====
-- What the registry and the runner read of a tool: src/pyclaw/core/agent/tools/registry.py, the tiers
-- of src/pyclaw/core/hooks.py and the per-server settings of src/pyclaw/integrations/mcp/settings.py.
use pyclaw.Prelude.{Text, Bool, Option}

pub data Tier : Type 0 where
  read_only approval yolo : Tier

-- `other` is any string that is none of the three classes; a missing attribute is `none` below.
pub data ToolClass : Type 0 where
  read memory_write_safe write : ToolClass
  other : Text → ToolClass

-- The attributes of a tool imported from an MCP server: `server_name` and `server_config`.
pub record Server : Type 0 where
  pub server_name : Text
  pub forced_tier : Option Tier

-- `server` is there exactly if the tool has a `server_config`.
pub record Tool : Type 0 where
  pub name : Text
  pub description : Text
  pub side_effect : Bool
  pub tool_class : Option ToolClass
  pub server : Option Server

-- The `arguments` of a call: a text, a dict by what `str` makes of it, or neither.
pub data Arguments : Type 0 where
  raw : Text → Arguments
  fields : (printed : Text) → Arguments
  absent : Arguments

-- A tool call of a response: `id`, the function's `name` (empty where it is missing) and its
-- arguments.
pub record Call : Type 0 where
  pub id : Text
  pub name : Text
  pub arguments : Arguments
