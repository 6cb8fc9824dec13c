-- ===== src/Context/View.antt =====
-- What the context is turned into: WorkingContext.to_messages and to_records of pigagent/context/schema.py,
-- and the end of ContextManager.assemble, which starts a compression.
use Prim.Native.String.{◌++◌ as str_append}
use pigugu_server.Common.{
  ℕ, ltb, String, Bool, not, ◌&&◌, Option, none, some, List, [], ◌∷◌, ◌++◌, if◌then◌else◌, str_eq,
  map,
}
use pigugu_server.Common.Int.{ℤ, pos, negsuc}
use pigugu_server.Context.Record.{Role, system, user, ToolCall, ConversationRecord}
use pigugu_server.Context.Memory.{summary_of}
use pigugu_server.Context.Recording.{Session, Task, compress}
use pigugu_server.Context.Assembly.{
  load_layers, consume_summary, WorkingContext, working_context, RoastContext, load_game_state,
}
use pigugu_server.Agent.Messages.{Message, plain_message}
use pigugu_server.Agent.Sanitize.{validate_tool_calls}

-- an empty list of calls counts as none
abbrev pub some_calls : Option (List ToolCall) → Option (List ToolCall)
some_calls none = none
some_calls (some []) = none
some_calls (some (c ∷ cs)) = some (c ∷ cs)

-- ConversationRecord.to_message
unfoldable pub to_message : ConversationRecord → Message
to_message r = record {
  role = r.role;
  content = r.content;
  partial = r.partial;
  tool_calls = some_calls r.tool_calls;
  tool_call_id = r.tool_call_id;
  name = r.name;
}

-- a message under a title, unless the text is empty
abbrev pub titled : Role → String → String → List Message
titled role title text =
    if str_eq text "" then [] else plain_message role (str_append title text) ∷ []

unfoldable pub roast_messages : Option RoastContext → List Message
roast_messages none = []
roast_messages (some rc) =
    titled user "[Game rules]\n" rc.prompt ++ titled user "[Game history]\n" rc.summary

unfoldable pub to_messages : WorkingContext → List Message
unfolding to_message roast_messages
to_messages wc = validate_tool_calls (
    titled system "[User profile]\n" wc.profile
    ++ titled system "[Conversation history]\n" wc.summary
    ++ roast_messages wc.roast
    ++ map to_message wc.raw_records)

abbrev pub plain_record : ℤ → Role → String → Option String → ConversationRecord
plain_record n role content rid = record {
  turn_number = n;
  role = role;
  content = content;
  created_at = 0;
  roast_instance_id = rid;
  tool_calls = none;
  tool_call_id = none;
  name = none;
  partial = Bool.false;
}

abbrev pub titled_record : ℤ → Role → String → String → List ConversationRecord
titled_record n role title text =
    if str_eq text "" then [] else plain_record n role (str_append title text) none ∷ []

unfoldable pub prompt_record : Option RoastContext → List ConversationRecord
prompt_record none = []
prompt_record (some rc) =
    if not (str_eq rc.prompt "") && ltb 0 rc.prompt_turn
    then plain_record (pos rc.prompt_turn) user rc.prompt (some rc.roast_instance_id) ∷ []
    else []

unfoldable pub history_record : Option RoastContext → List ConversationRecord
history_record none = []
history_record (some rc) = titled_record (negsuc 0) user "[Game history]\n" rc.summary

-- the one list that a compression is given
unfoldable pub to_records : WorkingContext → List ConversationRecord
unfolding prompt_record history_record
to_records wc =
    titled_record (negsuc 2) system "[User profile]\n" wc.profile
    ++ titled_record (negsuc 1) system "[Conversation history]\n" wc.summary
    ++ prompt_record wc.roast
    ++ history_record wc.roast
    ++ wc.raw_records

-- a compression of the unified list starts where none runs and there are records
abbrev pub compress_task :
    Bool → List ConversationRecord → List ConversationRecord → String → List Task
compress_task compressing [] unified text = []
compress_task compressing (r ∷ rs) unified text =
    if compressing then [] else compress unified text ∷ []

-- ContextManager.assemble
unfoldable pub assemble : ℕ → ℕ → Session → WorkingContext × Session
assemble window now s =
    let l = load_layers window s in
    let read = summary_of l.summary in
    let used = consume_summary now l in
    let (g, s') = load_game_state used.session in
    let wc = working_context read g used in
    (
      wc,
      record s' {
        tasks =
            s'.tasks
            ++ compress_task s'.mem.compressing_flag wc.raw_records (to_records wc) read.l3_session;
      },
    )

-- ContextManager.load
unfoldable pub load_messages : ℕ → ℕ → Session → List Message × Session
unfolding assemble
load_messages window now s = let (wc, s') = assemble window now s in (to_messages wc, s')
