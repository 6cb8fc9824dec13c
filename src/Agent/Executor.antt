-- ===== src/Agent/Executor.antt =====
-- The execution of tool calls: `ToolExecutor` of pigagent/core/agent/executor.py. A handler is a parameter,
-- by what comes of its call; the semaphore and the durations leave the results alone and are left out.
use Prim.Native.String as Str
use pigugu_server.Common.{
  ◌>>=◌, String, Bool, true, false, Option, none, some, List, [], ◌∷◌, str_eq, if◌then◌else◌,
  length, ltb,
}
use pigugu_server.Common.Dict
use pigugu_server.Common.Dict.{Dict}
use pigugu_server.Context.Record.{Role, ToolCall}

-- a message that a tool adds after its result
pub record Injected : Type 0 where
  pub role : Role
  pub content : String

pub record ToolResult : Type 0 where
  pub tool_call_id : String
  pub tool_name : String
  pub success : Bool
  pub content : String
  pub error : Option String
  pub inject : Option (List Injected)

-- what comes of a handler's call: a result, as text, an exception, by its text, the time that is up, or
-- the cancellation of the call
pub data Outcome : Type 0 where
  returned : (content : String) (inject : Option (List Injected)) → Outcome
  raised : (error : String) → Outcome
  timed_out cancelled : Outcome

module _ {Args : Type 0} (no_args : Args) (parse_args : String → Option Args)
    (timeout_text : String) where
  abbrev pub Handlers : Type 0
  Handlers = Dict (Args → Outcome)

  -- json.loads(tc.arguments) if tc.arguments else {}
  unfoldable pub arguments_of : String → Option Args
  arguments_of text = if str_eq text "" then some no_args else parse_args text

  unfoldable pub failure : ToolCall → String → ToolResult
  failure tc error = record {
    tool_call_id = tc.id;
    tool_name = tc.name;
    success = false;
    content = "";
    error = some error;
    inject = none;
  }

  -- the result of a call by its outcome; `none` is a CancelledError, which `_execute_one` does not catch
  unfoldable pub result_of : ToolCall → Outcome → Option ToolResult
  unfolding failure
  result_of tc (returned content inject) = some (record {
    tool_call_id = tc.id;
    tool_name = tc.name;
    success = true;
    content = content;
    error = none;
    inject = inject;
  })
  result_of tc (raised error) = some (failure tc error)
  result_of tc timed_out = some (failure tc timeout_text)
  result_of tc cancelled = none

  unfoldable pub call_handler : ToolCall → (Args → Outcome) → Option Args → Option ToolResult
  unfolding result_of
  call_handler tc handler none =
      some (failure tc (Str.◌++◌ "Invalid JSON arguments: " tc.arguments))
  call_handler tc handler (some args) = result_of tc (handler args)

  unfoldable pub call_known : ToolCall → Option (Args → Outcome) → Option ToolResult
  call_known tc none =
      some (failure tc (Str.◌++◌ "No handler registered for tool '" (Str.◌++◌ tc.name "'")))
  call_known tc (some handler) = call_handler tc handler (arguments_of tc.arguments)

  -- _execute_one
  unfoldable pub execute_one : Handlers → ToolCall → Option ToolResult
  execute_one handlers tc = call_known tc (Dict.get handlers tc.name)

  -- what gather returns for a call that was cancelled
  unfoldable pub or_cancelled : ToolCall → Option ToolResult → ToolResult
  or_cancelled tc none = failure tc ""
  or_cancelled tc (some r) = r

  unfoldable pub gather : Handlers → List ToolCall → List ToolResult
  gather handlers [] = []
  gather handlers (tc ∷ tcs) = or_cancelled tc (execute_one handlers tc) ∷ gather handlers tcs

  unfoldable pub one_by_one : Handlers → List ToolCall → Option (List ToolResult)
  one_by_one handlers [] = some []
  one_by_one handlers (tc ∷ tcs) = do
    r ← execute_one handlers tc
    rs ← one_by_one handlers tcs
    some (r ∷ rs)

  -- ToolExecutor.run; `none` is a cancellation that goes through
  unfoldable pub run : Handlers → Bool → List ToolCall → Option (List ToolResult)
  run handlers concurrent calls =
      if ltb 1 (length calls)
      then (if concurrent then some (gather handlers calls) else one_by_one handlers calls)
      else one_by_one handlers calls
