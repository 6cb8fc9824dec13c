-- ===== src/Agent/StreamLoop.antt =====
-- The loop of `AgentRunner.stream` (pigagent/core/agent/runner.py), and what it leaves in the runner. The
-- model's stream is a parameter, by the messages; `is_set step chunk` is whether the interrupt event is set
-- at a check: the one before a step for chunk 0, then the one at each chunk, from 1 on.
use pigugu_server.Common.{
  ℕ, zero, suc, ◌+◌, String, Bool, true, false, Option, none, some, List, [], ◌∷◌, ◌++◌, str_eq,
  if◌then◌else◌,
}
use pigugu_server.Context.Record.{ToolCall}
use pigugu_server.Agent.Messages.{Message, assistant_message}
use pigugu_server.Agent.Executor.{ToolResult}
use pigugu_server.Agent.Runner.{
  StateStatus, success, interrupted, error, AgentState, new_state, Answer, answered, interrupting,
  failing, cancelling, StopCondition, should_stop, all_result_messages,
}
use pigugu_server.Agent.Stream.{Delta, Yield, Step, no_step, take_delta}

-- self.last_step_count, self.last_status and self.last_messages
pub record LastCall : Type 0 where
  pub step_count : ℕ
  pub status : Option StateStatus
  pub messages : List Message

-- how a stream ends: with an answer, with an interrupt, with an exception, at a stop condition, or with the
-- cancellation of its task, which no handler catches
pub data End : Type 0 where
  finished interrupt exception stopped cancellation : End

-- where the loop is: the messages, the step and whether it had calls, the text of the step, the yields
pub record Talk : Type 0 where
  pub messages : List Message
  pub state : AgentState
  pub collected : String
  pub yields : List Yield
  pub last : LastCall

-- the deltas of a step, until one at which the event is set, or until the stream fails
unfoldable pub read_deltas : (ℕ → Bool) → ℕ → List Delta → Bool → Step → Step × Answer Unit
unfolding take_delta
read_deltas is_set chunk [] fails s = (s, (if fails then failing else answered tt))
read_deltas is_set chunk (d ∷ ds) fails s =
    let rest = read_deltas is_set (chunk + 1) ds fails (take_delta d s) in
    if is_set chunk then (s, interrupting) else rest

-- except InterruptedException
unfoldable pub on_interrupt : Talk → Talk
on_interrupt t =
    let said =
      (if str_eq t.collected "" then [] else assistant_message t.collected true none ∷ []) in
    let messages = t.messages ++ said in
    record t {
      messages = messages;
      last = record {
        step_count = t.state.current_step;
        status = some interrupted;
        messages = messages;
      };
    }

-- except Exception: the messages of the last call stay
unfoldable pub on_exception : Talk → Talk
on_exception t = record t {
  last = record t.last { step_count = t.state.current_step; status = some error };
}

-- a step without tool calls ends the stream
unfoldable pub on_finish : Talk → Talk
on_finish t =
    let messages = t.messages ++ assistant_message t.collected false none ∷ [] in
    record t {
      messages = messages;
      last = record {
        step_count = t.state.current_step;
        status = some success;
        messages = messages;
      };
    }

module _ (chat_stream : List Message → List Delta × Bool)
    (execute : List ToolCall → Answer (List ToolResult)) (is_set : ℕ → ℕ → Bool) where
  -- the tools' results, or `none` and the end of the stream
  unfoldable pub after_tools : Talk → Answer (List ToolResult) → Talk × Option End
  after_tools t (answered results) =
      (record t { messages = t.messages ++ all_result_messages results }, none)
  after_tools t interrupting = (on_interrupt t, some interrupt)
  after_tools t failing = (on_exception t, some exception)
  after_tools t cancelling = (t, some cancellation)

  unfoldable pub after_calls : Talk → List ToolCall → Talk × Option End
  after_calls t [] = (on_finish t, some finished)
  after_calls t (c ∷ cs) =
      after_tools
        (record t {
          messages = t.messages ++ assistant_message t.collected false (some (c ∷ cs)) ∷ [];
        })
        (execute (c ∷ cs))

  abbrev pub has_any : List ToolCall → Bool
  has_any [] = false
  has_any (c ∷ cs) = true

  unfoldable pub after_stream : Talk → Step × Answer Unit → Talk × Option End
  after_stream t (s, answered _) =
      after_calls
        (record t {
          collected = s.collected;
          yields = t.yields ++ s.yields;
          state = record t.state { last_had_tool_calls = has_any s.calls };
        })
        s.calls
  after_stream t (s, interrupting) = (
    on_interrupt (record t { collected = s.collected; yields = t.yields ++ s.yields }),
    some interrupt,
  )
  after_stream t (s, failing) = (
    on_exception (record t { collected = s.collected; yields = t.yields ++ s.yields }),
    some exception,
  )
  after_stream t (s, cancelling) =
      (record t { collected = s.collected; yields = t.yields ++ s.yields }, some cancellation)

  -- the body of the loop
  unfoldable pub talk : Talk → Talk × Option End
  talk t =
      let number = t.state.current_step + 1 in
      let t' : Talk = record t {
        state = record t.state { current_step = number };
        collected = "";
      } in
      let (deltas, fails) = chat_stream t.messages in
      if is_set t.state.current_step 0
      then (on_interrupt t, some interrupt)
      else after_stream t' (read_deltas (is_set number) 1 deltas fails no_step)

  -- the loop, for at most `fuel` tests of the stop conditions; a stop condition ends it as it is
  unfoldable pub stream_loop : List StopCondition → ℕ → Talk → Option (Talk × End)
  stream_loop conditions zero t = none
  stream_loop conditions (suc fuel) t =
      let (t', end) = talk t in
      let rest = stream_loop conditions fuel t' in
      if should_stop conditions t.state
      then some (t, stopped)
      else elim end [ none ↦ rest | some how ↦ some (t', how) ]

  -- stream; `last` is what the call before has left in the runner
  unfoldable pub stream : List StopCondition → ℕ → List Message → LastCall → Option (Talk × End)
  stream conditions fuel messages last =
      stream_loop conditions fuel (record {
        messages = messages;
        state = new_state;
        collected = "";
        yields = [];
        last = last;
      })
