-- ===== src/Agent/Sanitize.antt =====
-- The removal of tool calls that have no response: `validate_tool_calls` of pigagent/core/agent/sanitize.py.
use pigugu_server.Common.{
  String, Bool, true, false, none, some, List, [], ◌∷◌, ◌++◌, str_eq, if◌then◌else◌, any, select,
}
use pigugu_server.Context.Record.{Role, tool, is_assistant, ToolCall}
use pigugu_server.Agent.Messages.{Message, assistant_message, calls_of, text_of}

abbrev pub is_tool : Role → Bool
is_tool tool = true
is_tool _ = false

-- the responded ids, as a list
unfoldable pub responded_ids : List Message → List String
responded_ids [] = []
responded_ids (m ∷ ms) = (if is_tool m.role then text_of m.tool_call_id else []) ++ responded_ids ms

abbrev pub is_in : List String → String → Bool
is_in ids x = any (λ i. str_eq i x) ids

abbrev pub valid_calls : List String → List ToolCall → List ToolCall
valid_calls ids calls = select (λ c. is_in ids c.id) calls

-- an assistant message with calls, by those of them that are valid
unfoldable pub keep_valid : Message → List ToolCall → List Message
keep_valid m (c ∷ valid) = assistant_message m.content m.partial (some (c ∷ valid)) ∷ []
keep_valid m [] =
    if str_eq m.content "" then [] else assistant_message m.content m.partial none ∷ []

-- role == "assistant" and tool_calls
abbrev pub has_calls : Message → Bool
has_calls m = elim (calls_of m.tool_calls) [ [] ↦ false | c ∷ cs ↦ is_assistant m.role ]

unfoldable pub clean : List String → Message → List Message
unfolding keep_valid
clean ids m = if has_calls m then keep_valid m (valid_calls ids (calls_of m.tool_calls)) else m ∷ []

unfoldable pub clean_all : List String → List Message → List Message
clean_all ids [] = []
clean_all ids (m ∷ ms) = clean ids m ++ clean_all ids ms

unfoldable pub validate_tool_calls : List Message → List Message
validate_tool_calls ms = clean_all (responded_ids ms) ms
