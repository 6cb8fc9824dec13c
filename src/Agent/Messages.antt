-- ===== src/Agent/Messages.antt =====
-- The messages that the model is given: `Message` of pigagent/core/llm/types.py.
use pigugu_server.Common.{
  String, Bool, false, Option, none, some, List, [], ◌∷◌, str_eq, if◌then◌else◌,
}
use pigugu_server.Context.Record.{Role, assistant, tool, ToolCall}

pub record Message : Type 0 where
  pub role : Role
  pub content : String
  pub partial : Bool
  pub tool_calls : Option (List ToolCall)
  pub tool_call_id : Option String
  pub name : Option String

-- Message.assistant
abbrev pub assistant_message : String → Bool → Option (List ToolCall) → Message
assistant_message content partial calls = record {
  role = assistant;
  content = content;
  partial = partial;
  tool_calls = calls;
  tool_call_id = none;
  name = none;
}

-- Message.tool
abbrev pub tool_message : String → String → String → Message
tool_message call_id name content = record {
  role = tool;
  content = content;
  partial = false;
  tool_calls = none;
  tool_call_id = some call_id;
  name = some name;
}

-- Message(role=..., content=...)
abbrev pub plain_message : Role → String → Message
plain_message role content = record {
  role = role;
  content = content;
  partial = false;
  tool_calls = none;
  tool_call_id = none;
  name = none;
}

-- the calls of a message, where `None` counts as none
abbrev pub calls_of : Option (List ToolCall) → List ToolCall
calls_of none = []
calls_of (some calls) = calls

-- a text that is there and not empty
abbrev pub text_of : Option String → List String
text_of none = []
text_of (some s) = if str_eq s "" then [] else s ∷ []
