-- ===== src/Session/Types.antt =====
-- The data of src/pyclaw/models/session.py and the content blocks of src/pyclaw/models/agent.py. What a
-- custom entry and the details of a compaction hold is left out: nothing here reads it.
use pyclaw.Prelude.{ℕ, Text, Bool, Option, List}
use pyclaw.Prelude.Dict.{Dict}
use pyclaw.Tools.Types.{Call}

pub data Role : Type 0 where
  user assistant tool : Role

pub data Block : Type 0 where
  text : Text → Block
  image : (bytes mime_type : Text) → Block

pub data Content : Type 0 where
  plain : Text → Content
  blocks : List Block → Content

-- `tool_calls` is empty where the source has None: both are falsy where they are read.
pub record Message : Type 0 where
  pub role : Role
  pub content : Content
  pub tool_calls : List Call
  pub tool_call_id : Option Text
  pub partial : Bool

pub record Compaction : Type 0 where
  pub summary : Text
  pub first_kept_entry_id : Text
  pub tokens_before : ℕ

pub data Body : Type 0 where
  message : Message → Body
  compaction : Compaction → Body
  model_change : (provider model_id : Text) → Body
  custom : (custom_type : Text) → Body

-- `SessionEntry`, with the fields of `SessionEntryBase`
pub record Entry : Type 0 where
  pub id : Text
  pub parent_id : Option Text
  pub timestamp : Text
  pub body : Body

pub record Header : Type 0 where
  pub id : Text
  pub workspace_id : Text
  pub agent_id : Text
  pub created_at : Text
  pub parent_session : Option Text
  pub session_key : Text
  pub last_interaction_at : Option Text
  pub idle_minutes_override : Option ℕ
  pub model_override : Option Text
  pub title : Option Text

pub record SessionTree : Type 0 where
  pub header : Header
  pub entries : Dict Text Entry
  pub order : List Text
  pub leaf_id : Option Text
