-- ===== src/Agent/Answered.antt =====
-- The loop of pigagent/core/agent/runner.py, and the responses to the tool calls in its messages.
use pigugu_server.Common.{
  ℕ, suc, ◌≡◌, refl, subst, String, Bool, true, false, Option, none, some, List, [], ◌∷◌, ◌++◌,
}
use pigugu_server.Context.Record.{ToolCall}
use pigugu_server.Agent.Messages.{Message, assistant_message}
use pigugu_server.Agent.Executor.{ToolResult, Handlers, run}
use pigugu_server.Agent.RunResults.{AllAnswer, IfAny, run-AllAnswer}
use pigugu_server.Agent.Runner.{
  Answer, answered, cancelling, executed, Response, Progress, StopCondition, new_state, is_running,
  after_tools, after_step, take_step, step, step_result, should_stop, loop, conclude, ended,
  run_loop, success, or_text,
}
use pigugu_server.Agent.Responses.{Carries, IsNamed, IsAnswered}
use pigugu_server.Agent.LoopAnswered.{is_good, run-IsAnswered}

module _ {Args : Type 0} (no_args : Args) (parse_args : String → Option Args)
    (timeout_text : String) (handlers : Handlers no_args parse_args timeout_text)
    (concurrent : Bool) (cut : List ToolCall → Bool) where
  -- the tools of the loop: ToolExecutor.run, which the cancellation of the task may cut off
  abbrev pub tools : List ToolCall → Answer (List ToolResult)
  tools calls = executed (cut calls) (run no_args parse_args timeout_text handlers concurrent calls)

  AllAnswer-Carries :
      (cs : List ToolCall) (rs : List ToolResult)
      → AllAnswer no_args parse_args timeout_text cs rs
      → Carries cs rs
  AllAnswer-Carries [] rs h = tt
  AllAnswer-Carries (c ∷ cs) [] h = elim h [ ]
  AllAnswer-Carries (c ∷ cs) (r ∷ rs) (a, h) = (a.0, AllAnswer-Carries cs rs h)

  abbrev CarriesIn : List ToolCall → Answer (List ToolResult) → Type 0
  CarriesIn cs (answered rs) = Carries cs rs
  CarriesIn cs _ = Unit

  executed-Carries :
      (cs : List ToolCall) (b : Bool) (o : Option (List ToolResult))
      → IfAny no_args parse_args timeout_text (AllAnswer no_args parse_args timeout_text cs) o
      → CarriesIn cs (executed b o)
  unfolding executed
  executed-Carries cs true o h = tt
  executed-Carries cs false none h = tt
  executed-Carries cs false (some rs) h = AllAnswer-Carries cs rs h

  -- Where the model gives each call an id that is not empty, a run of the loop with the tool executor that ends
  -- with neither an interrupt nor an error, and that no cancellation goes through, leaves no tool call without its
  -- response, if there was none before: whatever the handlers do, and whether the calls run together or not.
  pub run_loop-IsAnswered :
      (chat : List Message → Answer Response) (conditions : List StopCondition) (fuel : ℕ)
      (messages : List Message) (p : Progress)
      → ((ms : List Message) (r : Response) → chat ms ≡ answered r → IsNamed r.tool_calls)
      → IsAnswered messages
      → run_loop chat tools conditions fuel messages ≡ some p
      → is_good p.state.status ≡ true
      → p.is_cancelled ≡ false
      → IsAnswered p.messages
  run_loop-IsAnswered chat conditions fuel messages p named =
      run-IsAnswered chat tools named
        (λ cs rs e. subst (CarriesIn cs) e (
          executed-Carries cs (cut cs) (run no_args parse_args timeout_text handlers concurrent cs)
            (run-AllAnswer no_args parse_args timeout_text handlers concurrent cs)))
        conditions fuel messages p

  begins : List Message → Progress
  begins messages = record {
    messages = messages;
    state = new_state;
    last_result = none;
    is_cancelled = false;
  }

  calls-step_result :
      (r : Response) (cs : List ToolCall) (c : ToolCall)
      → r.tool_calls ≡ c ∷ cs
      → ((step_result r).tool_calls ≡ some (c ∷ cs))
        × ((step_result r).content ≡ or_text r.content "")
  unfolding step_result
  calls-step_result r cs c e = rw e (refl, refl)

  executed-cut : (calls : List ToolCall) → cut calls ≡ true → tools calls ≡ cancelling
  unfolding executed
  executed-cut calls hit = rw hit refl

  step-cut :
      (chat : List Message → Answer Response) (p : Progress) (r : Response) (c : ToolCall)
      (cs : List ToolCall)
      → chat p.messages ≡ answered r
      → r.tool_calls ≡ c ∷ cs
      → cut (c ∷ cs) ≡ true
      → let (p', goes_on) = step chat tools p in
        (goes_on ≡ false)
        × (p'.state.status ≡ p.state.status)
        × (p'.is_cancelled ≡ true)
        × (p'.messages
            ≡ p.messages ++ assistant_message (or_text r.content "") false (some (c ∷ cs)) ∷ [])
  unfolding step take_step after_step
  step-cut chat p r c cs answer calls hit =
      let (has, text) = calls-step_result r cs c calls in
      rw (answer, has, text, executed-cut (c ∷ cs) hit)
        (unfold after_tools in (refl, refl, refl, refl))

  loop-last :
      (chat : List Message → Answer Response) (conditions : List StopCondition) (fuel : ℕ)
      (p : Progress)
      → should_stop conditions p.state ≡ false
      → (step chat tools p).1 ≡ false
      → loop chat tools conditions (suc fuel) p ≡ some (step chat tools p).0
  unfolding loop
  loop-last chat conditions fuel p starts ends = rw (starts, ends) refl

  run_loop-last :
      (chat : List Message → Answer Response) (conditions : List StopCondition) (fuel : ℕ)
      (messages : List Message) (p : Progress)
      → loop chat tools conditions fuel (begins messages) ≡ some p
      → is_running p.state.status ≡ true
      → run_loop chat tools conditions fuel messages ≡ some (ended success p)
  unfolding run_loop conclude begins
  run_loop-last chat conditions fuel messages p ends runs =
      rw (run_loop, ends) (rw (conclude, runs) refl)

  -- A run whose task is cancelled while the tools of its first step run hands on its messages with the calls of
  -- that step and no response to them, and its state is a success.
  pub cancelled_keeps_calls :
      (chat : List Message → Answer Response) (conditions : List StopCondition) (fuel : ℕ)
      (messages : List Message) (r : Response) (c : ToolCall) (cs : List ToolCall)
      → should_stop conditions new_state ≡ false
      → chat messages ≡ answered r
      → r.tool_calls ≡ c ∷ cs
      → cut (c ∷ cs) ≡ true
      → (p : Progress) × (run_loop chat tools conditions (suc fuel) messages ≡ some p)
        × (p.state.status ≡ success)
        × (p.is_cancelled ≡ true)
        × (p.messages
            ≡ messages ++ assistant_message (or_text r.content "") false (some (c ∷ cs)) ∷ [])
  unfolding begins
  cancelled_keeps_calls chat conditions fuel messages r c cs starts answer calls hit =
      let (ends, status, cancelled, flushed) =
        step-cut chat (begins messages) r c cs answer calls hit in
      (
        ended success (step chat tools (begins messages)).0,
        run_loop-last chat conditions (suc fuel) messages (step chat tools (begins messages)).0
            (loop-last chat conditions fuel (begins messages) starts ends) (rw status refl),
        refl,
        cancelled,
        flushed,
      )
