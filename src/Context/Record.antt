-- ===== src/Context/Record.antt =====
-- A stored turn: ConversationRecord of pigagent/context/schema.py. Summaries stand in the list of turns
-- under the numbers 0 and below.
use pigugu_server.Common.{ℕ, String, Bool, true, false, Option, List, ltb}
use pigugu_server.Common.Int.{ℤ, pos, negsuc}

pub data Role : Type 0 where
  system user assistant tool : Role

abbrev pub is_user : Role → Bool
is_user user = true
is_user _ = false

abbrev pub is_assistant : Role → Bool
is_assistant assistant = true
is_assistant _ = false

-- an entry of `tool_calls`
pub record ToolCall : Type 0 where
  pub id : String
  pub name : String
  pub arguments : String

pub record ConversationRecord : Type 0 where
  pub turn_number : ℤ
  pub role : Role
  pub content : String
  pub created_at : ℕ
  pub roast_instance_id : Option String
  pub tool_calls : Option (List ToolCall)
  pub tool_call_id : Option String
  pub name : Option String
  pub partial : Bool

-- r.turn_number > n, for n at least 0
abbrev pub is_after : ℕ → ℤ → Bool
is_after n (pos m) = ltb n m
is_after n (negsuc m) = false
