-- ===== src/Agent/Examples.antt =====
-- A model that always calls a tool, a tool that works, and the theorems about the agent's loop at them.
use pigugu_server.Common.{
  subst, ℕ, ◌≡◌, ◌≤◌, refl, String, Bool, true, false, Option, none, some, List, [], ◌∷◌, arith,
  All, ◌==◌, ◌&&◌,
}
use pigugu_server.Context.Record.{ToolCall, user}
use pigugu_server.Agent.Messages.{Message, assistant_message, tool_message, plain_message, calls_of}
use pigugu_server.Agent.Sanitize.{validate_tool_calls, has_calls, is_in, responded_ids}
use pigugu_server.Agent.SanitizeResults.{validate_tool_calls-IsClean}
use pigugu_server.Agent.Executor.{
  ToolResult, returned, Handlers, run, one_by_one, execute_one, call_known, call_handler,
  arguments_of, result_of,
}
use pigugu_server.Agent.Runner.{
  running, Answer, answered, Response, Progress, stop_conditions, should_stop, step_count_is,
  no_tool_calls, run_loop, is_running,
}
use pigugu_server.Agent.RunResults.{run_loop_ends}
use pigugu_server.Agent.Responses.{IsNamed, IsAnswered}
use pigugu_server.Agent.Answered.{run_loop-IsAnswered, cancelled_keeps_calls, tools}
use pigugu_server.Agent.Runner.{
  success, executed, loop, step, take_step, after_step, step_result, conclude, all_result_messages,
  result_messages, no_tool_calls, should_stop, step_count_is,
}
use pigugu_server.Agent.Stream.{Delta}
use pigugu_server.Agent.StreamLoop.{LastCall, Talk, talk}
use pigugu_server.Agent.Interrupts.{Manager}

abbrev a_call : ToolCall
a_call = record { id = "c1"; name = "volume"; arguments = "" }

abbrev a_lost_call : ToolCall
a_lost_call = record { id = "c2"; name = "volume"; arguments = "" }

abbrev some_messages : List Message
some_messages =
    plain_message user "hi"
    ∷ assistant_message "" false (some (a_call ∷ a_lost_call ∷ []))
    ∷ tool_message "c1" "volume" "ok"
    ∷ []

validate_tool_calls-IsClean_example :
    let out = validate_tool_calls some_messages in
    All
      (λ m.
        has_calls m ≡ true
        → All (λ c. is_in (responded_ids out) c.id ≡ true) (calls_of m.tool_calls))
      out
    × (validate_tool_calls out ≡ out)
validate_tool_calls-IsClean_example = validate_tool_calls-IsClean some_messages

abbrev parse_args : String → Option ℕ
parse_args s = some 1

abbrev some_handlers : Handlers 0 parse_args "late"
some_handlers = ("volume", λ n. returned "ok" none) ∷ []

abbrev always_call : List Message → Answer Response
always_call ms =
    answered (record { content = none; tool_calls = a_call ∷ []; finish_reason = none })

abbrev always_ok : List ToolCall → Answer (List ToolResult)
always_ok calls = answered (
    (record {
      tool_call_id = "c1";
      tool_name = "volume";
      success = true;
      content = "ok";
      error = none;
      inject = none;
    })
    ∷ [])

run_loop_ends_example :
    (p : Progress) × (run_loop always_call always_ok (stop_conditions [] 5) 6 some_messages
      ≡ some p)
    × (p.state.current_step ≤ 5)
    × (is_running p.state.status ≡ false)
run_loop_ends_example = run_loop_ends always_call always_ok 5 6 some_messages (omega arith)

abbrev a_stream : List Message → List Delta × Bool
a_stream ms = (
  (record { content = "one moment"; tool_calls = (0, a_call) ∷ []; finish_reason = none }) ∷ [],
  false,
)

abbrev at_second_step : ℕ → ℕ → Bool
at_second_step step chunk = step == 1 && chunk == 0

abbrev before : LastCall
before = record { step_count = 1; status = none; messages = some_messages }

abbrev a_talk : Talk
a_talk = record {
  messages = [];
  state = record { status = running; current_step = 0; last_had_tool_calls = false };
  collected = "";
  yields = [];
  last = before;
}

abbrev never : ℕ → ℕ → Bool
never step chunk = false

abbrev at_limit : Talk
at_limit = (talk a_stream always_ok never a_talk).0

abbrev a_manager : Manager
a_manager = record {
  flags = λ x. false;
  next = 1;
  events = ("room", 0) ∷ [];
  creation_times = ("room", 5) ∷ [];
}

-- a model that calls a tool once, and tools that all work
abbrev calls_once : List Message → Answer Response
calls_once [] = answered (record { content = none; tool_calls = a_call ∷ []; finish_reason = none })
calls_once (m ∷ ms) =
    answered (record { content = some "done"; tool_calls = []; finish_reason = none })

abbrev IsNamedIn : Answer Response → Type 0
IsNamedIn (answered r) = IsNamed r.tool_calls
IsNamedIn _ = Unit

calls_once-IsNamed :
    (ms : List Message) (r : Response) → calls_once ms ≡ answered r → IsNamed r.tool_calls
calls_once-IsNamed [] r e = subst IsNamedIn e (refl, tt)
calls_once-IsNamed (m ∷ ms) r e = subst IsNamedIn e tt

abbrev finished_run : Progress
finished_run = record {
  messages =
      assistant_message "" false (some (a_call ∷ []))
      ∷ tool_message "c1" "volume" "ok"
      ∷ assistant_message "done" false none
      ∷ [];
  state = record { status = success; current_step = 2; last_had_tool_calls = false };
  last_result = some (record { content = "done"; tool_calls = none; finish_reason = "stop" });
  is_cancelled = false;
}

abbrev never_cut : List ToolCall → Bool
never_cut calls = false

run_loop-IsAnswered_example : IsAnswered finished_run.messages
unfolding run_loop loop should_stop stop_conditions step_count_is no_tool_calls step take_step
    after_step pigugu_server.Agent.Runner.after_tools step_result all_result_messages
    result_messages conclude executed run one_by_one execute_one call_known call_handler
    arguments_of result_of pigugu_server.Common.Dict.get
run_loop-IsAnswered_example =
    run_loop-IsAnswered 0 parse_args "late" some_handlers true never_cut calls_once
      (stop_conditions [] 5) 6 [] finished_run calls_once-IsNamed tt refl refl refl

abbrev always_cut : List ToolCall → Bool
always_cut calls = true

cancelled_keeps_calls_example :
    (p : Progress) × (run_loop calls_once
        (tools 0 parse_args "late" some_handlers true always_cut)
        (stop_conditions [] 5)
        6
        []
      ≡ some p)
    × (p.state.status ≡ success)
    × (p.is_cancelled ≡ true)
    × (p.messages ≡ assistant_message "" false (some (a_call ∷ [])) ∷ [])
cancelled_keeps_calls_example =
    cancelled_keeps_calls 0 parse_args "late" some_handlers true always_cut calls_once
      (stop_conditions [] 5) 5 []
      (record { content = none; tool_calls = a_call ∷ []; finish_reason = none }) a_call []
      (unfold should_stop stop_conditions step_count_is no_tool_calls in refl) refl refl refl
