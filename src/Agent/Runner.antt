-- ===== src/Agent/Runner.antt =====
-- The loop over the steps of an agent: `_run_loop`, `_should_stop` and `_run_step` of
-- pigagent/core/agent/runner.py, with pigagent/core/agent/state.py and pigagent/core/agent/stop.py. The
-- model's answers and the results of the tools are parameters, by the messages that they are given.
use Prim.Native.String as Str
use pigugu_server.Common.{
  ℕ, zero, suc, ◌+◌, String, Bool, true, false, not, ◌&&◌, Option, none, some, List, [], ◌∷◌, ◌++◌,
  map, str_eq, if◌then◌else◌, leb, ltb, is_some,
}
use pigugu_server.Context.Record.{ToolCall}
use pigugu_server.Agent.Messages.{Message, assistant_message, tool_message, plain_message}
use pigugu_server.Agent.Executor.{ToolResult, Injected}

pub data StateStatus : Type 0 where
  running success fail error interrupted : StateStatus

pub record AgentState : Type 0 where
  pub status : StateStatus
  pub current_step : ℕ
  pub last_had_tool_calls : Bool

abbrev pub new_state : AgentState
new_state = record { status = running; current_step = 0; last_had_tool_calls = false }

abbrev pub is_running : StateStatus → Bool
is_running running = true
is_running _ = false

pub record StepResult : Type 0 where
  pub content : String
  pub tool_calls : Option (List ToolCall)
  pub finish_reason : String

-- StepResult()
abbrev pub no_result : StepResult
no_result = record { content = ""; tool_calls = none; finish_reason = "" }

-- a stop condition; `none` is an exception, which counts as no
abbrev pub StopCondition : Type 0
StopCondition = AgentState → Option Bool

unfoldable pub step_count_is : ℕ → StopCondition
step_count_is max_steps state = some (leb max_steps state.current_step)

unfoldable pub no_tool_calls : StopCondition
no_tool_calls state = some (ltb 0 state.current_step && not state.last_had_tool_calls)

abbrev pub holds : Option Bool → Bool
holds none = false
holds (some b) = b

unfoldable pub should_stop : List StopCondition → AgentState → Bool
should_stop [] state = false
should_stop (c ∷ cs) state =
    let rest = should_stop cs state in if holds (c state) then true else rest

-- config.stop_when or the default conditions
unfoldable pub stop_conditions : List StopCondition → ℕ → List StopCondition
unfolding step_count_is no_tool_calls
stop_conditions [] max_steps = step_count_is max_steps ∷ no_tool_calls ∷ []
stop_conditions (c ∷ cs) max_steps = c ∷ cs

-- what comes of a call that can be interrupted, fail, or be cancelled with its task
pub data Answer (A : Type 0) : Type 0 where
  answered : A → Answer A
  interrupting failing cancelling : Answer A

-- a response of the model
pub record Response : Type 0 where
  pub content : Option String
  pub tool_calls : List ToolCall
  pub finish_reason : Option String

abbrev pub or_text : Option String → String → String
or_text none d = d
or_text (some s) d = if str_eq s "" then d else s

-- _run_step, from the response on
unfoldable pub step_result : Response → StepResult
step_result r = elim r.tool_calls [
  | [] ↦ record {
    content = or_text r.content "";
    tool_calls = none;
    finish_reason = or_text r.finish_reason "stop";
  }
  | c ∷ cs ↦ record {
    content = or_text r.content "";
    tool_calls = some (c ∷ cs);
    finish_reason = or_text r.finish_reason "tool_calls";
  }
]

-- tr.content if tr.success else f"Error: {tr.error}"
abbrev pub error_text : Option String → String
error_text none = "None"
error_text (some e) = e

unfoldable pub result_messages : ToolResult → List Message
result_messages r =
    tool_message r.tool_call_id r.tool_name
      (if r.success then r.content else Str.◌++◌ "Error: " (error_text r.error))
    ∷ map (λ i. plain_message i.role i.content)
        (elim r.inject as (λ _. List Injected) [ none ↦ [] | some is ↦ is ])

unfoldable pub all_result_messages : List ToolResult → List Message
unfolding result_messages
all_result_messages [] = []
all_result_messages (r ∷ rs) = result_messages r ++ all_result_messages rs

-- where the loop is: the messages, the state, the last result, and whether a CancelledError goes through it
pub record Progress : Type 0 where
  pub messages : List Message
  pub state : AgentState
  pub last_result : Option StepResult
  pub is_cancelled : Bool

abbrev pub ended : StateStatus → Progress → Progress
ended status p = record p { state = record p.state { status = status } }

-- what the loop sees of an execution of tools: `cut` is whether its task is cancelled while they run
unfoldable pub executed : Bool → Option (List ToolResult) → Answer (List ToolResult)
executed true results = cancelling
executed false none = cancelling
executed false (some results) = answered results

module _ (chat : List Message → Answer Response)
    (execute : List ToolCall → Answer (List ToolResult)) where
  -- a step has called tools: it goes on, or an exception ends the loop
  unfoldable pub after_tools : Progress → Answer (List ToolResult) → Progress × Bool
  unfolding all_result_messages
  after_tools p (answered results) =
      (record p { messages = p.messages ++ all_result_messages results }, true)
  after_tools p interrupting = (ended interrupted p, false)
  after_tools p failing = (ended error p, false)
  after_tools p cancelling = (record p { is_cancelled = true }, false)

  -- a step has a result: without tool calls the loop ends
  unfoldable pub after_step : Progress → StepResult → Progress × Bool
  after_step p r =
      let p' : Progress = record {
        messages = p.messages ++ assistant_message r.content false r.tool_calls ∷ [];
        state = record p.state { last_had_tool_calls = is_some r.tool_calls };
        last_result = some r;
        is_cancelled = p.is_cancelled;
      } in
      elim r.tool_calls [ none ↦ (p', false) | some calls ↦ after_tools p' (execute calls) ]

  unfoldable pub take_step : Progress → Answer Response → Progress × Bool
  take_step p (answered r) = after_step p (step_result r)
  take_step p interrupting = (ended interrupted p, false)
  take_step p failing = (ended error p, false)
  take_step p cancelling = (record p { is_cancelled = true }, false)

  abbrev pub count_step : Progress → Progress
  count_step p = record p { state = record p.state { current_step = p.state.current_step + 1 } }

  -- the body of the loop
  unfoldable pub step : Progress → Progress × Bool
  step p = take_step (count_step p) (chat p.messages)

  -- the loop, for at most `fuel` tests of the stop conditions; `none` is that they do not suffice
  unfoldable pub loop : List StopCondition → ℕ → Progress → Option Progress
  loop conditions zero p = none
  loop conditions (suc fuel) p =
      let (p', goes_on) = step p in
      let rest = loop conditions fuel p' in
      if should_stop conditions p.state then some p else if goes_on then rest else some p'

  -- the `finally` of _run_loop: what runs on is a success, also where a CancelledError goes through; it hands the
  -- messages on
  unfoldable pub conclude : Progress → Progress
  conclude p = if is_running p.state.status then ended success p else p

  -- `_run_loop` on the messages that are loaded
  unfoldable pub run_loop : List StopCondition → ℕ → List Message → Option Progress
  run_loop conditions fuel messages =
      elim (loop conditions fuel (record {
        messages = messages;
        state = new_state;
        last_result = none;
        is_cancelled = false;
      })) [ none ↦ none | some p ↦ some (conclude p) ]
