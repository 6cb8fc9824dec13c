-- ===== src/Agent/LoopAnswered.antt =====
-- The loop of pigagent/core/agent/runner.py over tools whose results carry the ids of their calls.
use mathlib.Core.List.{append_assoc}
use pigugu_server.Common.{
  ℕ, zero, suc, ◌≡◌, refl, ap, sym, subst, ◌∙◌, String, Bool, true, false, Option, none, some, List,
  [], ◌∷◌, ◌++◌, Bool-cases, inl, inr, arith,
}
use pigugu_server.Context.Record.{ToolCall}
use pigugu_server.Agent.Messages.{Message, assistant_message, calls_of}
use pigugu_server.Agent.Sanitize.{responded_ids}
use pigugu_server.Agent.Executor.{ToolResult}
use pigugu_server.Agent.Runner.{
  StateStatus, Answer, answered, interrupting, failing, cancelling, Response, StepResult, Progress,
  StopCondition, new_state, is_running, all_result_messages, after_tools, after_step, take_step,
  count_step, step, step_result, should_stop, loop, conclude, run_loop, error, interrupted,
}
use pigugu_server.Agent.Responses.{
  Carries, IsNamed, IsAnswered, IsAnswered-append, called-AnsweredBy,
}

abbrev pub is_good : StateStatus → Bool
is_good interrupted = false
is_good error = false
is_good _ = true

step_result-calls :
    (cs : List ToolCall) (r : Response)
    → r.tool_calls ≡ cs
    → IsNamed cs
    → IsNamed (calls_of (step_result r).tool_calls)
unfolding step_result
step_result-calls [] r e n = rw e tt
step_result-calls (c ∷ cs) r e n = rw e n

module _ (chat : List Message → Answer Response)
    (execute : List ToolCall → Answer (List ToolResult))
    (named : (ms : List Message) (r : Response) → chat ms ≡ answered r → IsNamed r.tool_calls)
    (carries : (cs : List ToolCall) (rs : List ToolResult)
      → execute cs ≡ answered rs
      → Carries cs rs) where
  -- where the loop is, its messages are answered, or it has ended badly or is cancelled
  abbrev pub IsFine : Progress → Type 0
  IsFine p = is_good p.state.status ≡ true → p.is_cancelled ≡ false → IsAnswered p.messages

  after_tools-IsFine :
      (p : Progress) (text : String) (before : List Message) (calls : List ToolCall)
      (a : Answer (List ToolResult))
      → execute calls ≡ a
      → p.messages ≡ before ++ assistant_message text false (some calls) ∷ []
      → (is_good p.state.status ≡ true → p.is_cancelled ≡ false → IsAnswered before)
      → IsNamed calls
      → IsFine (after_tools chat execute p a).0
  unfolding after_tools
  after_tools-IsFine p text before calls (answered rs) e same h n good live =
      subst IsAnswered
        (sym (
          ap (λ ms. ms ++ all_result_messages rs) same
          ∙ append_assoc before (assistant_message text false (some calls) ∷ [])
              (all_result_messages rs)))
        (IsAnswered-append before
          (assistant_message text false (some calls) ∷ all_result_messages rs) (h good live)
          (called-AnsweredBy (responded_ids before) text calls rs (carries calls rs e) n))
  after_tools-IsFine p text before calls interrupting e same h n bad live = ground arith
  after_tools-IsFine p text before calls failing e same h n bad live = ground arith
  after_tools-IsFine p text before calls cancelling e same h n good live = ground arith

  after_step-IsFine :
      (p : Progress) (r : StepResult) (o : Option (List ToolCall))
      → r.tool_calls ≡ o
      → IsNamed (calls_of o)
      → IsFine p
      → IsFine (after_step chat execute p r).0
  unfolding after_step
  after_step-IsFine p r none e n h = rw e (λ good live.
      IsAnswered-append p.messages (assistant_message r.content false none ∷ []) (h good live)
        (tt, tt))
  after_step-IsFine p r (some calls) e n h =
      rw e (after_tools-IsFine _ r.content p.messages calls (execute calls) refl refl h n)

  take_step-IsFine :
      (p : Progress) (ms : List Message) (a : Answer Response)
      → chat ms ≡ a
      → IsFine p
      → IsFine (take_step chat execute p a).0
  unfolding take_step
  take_step-IsFine p ms (answered r) e h =
      after_step-IsFine p (step_result r) (step_result r).tool_calls refl
        (step_result-calls r.tool_calls r refl (named ms r e)) h
  take_step-IsFine p ms interrupting e h = λ bad live. ground arith
  take_step-IsFine p ms failing e h = λ bad live. ground arith
  take_step-IsFine p ms cancelling e h = λ good live. ground arith

  step-IsFine : (p : Progress) → IsFine p → IsFine (step chat execute p).0
  unfolding step
  step-IsFine p h = take_step-IsFine (count_step chat execute p) p.messages (chat p.messages) refl h

  abbrev pub FineIf : Option Progress → Type 0
  FineIf none = Unit
  FineIf (some p) = IsFine p

  loop-IsFine :
      (conditions : List StopCondition) (fuel : ℕ) (p : Progress)
      → IsFine p
      → FineIf (loop chat execute conditions fuel p)
  unfolding loop
  loop-IsFine conditions zero p h = tt
  loop-IsFine conditions (suc fuel) p h =
      let next = step-IsFine p h in
      let rest = loop-IsFine conditions fuel (step chat execute p).0 next in
      elim (Bool-cases (should_stop conditions p.state)) [
        | inl e ↦ rw e h
        | inr e ↦ elim (Bool-cases (step chat execute p).1) [
          | inl g ↦ rw (e, g) rest
          | inr g ↦ rw (e, g) next
        ]
      ]

  conclude-IsFine : (p : Progress) → IsFine p → IsFine (conclude chat execute p)
  unfolding conclude
  conclude-IsFine p h = elim (Bool-cases (is_running p.state.status)) [
    | inl e ↦ rw e (λ _. h (running_good p.state.status e))
    | inr e ↦ rw e h
  ]
    where
      running_good : (s : StateStatus) → is_running s ≡ true → is_good s ≡ true
      running_good s e = ground arith

  -- a run that ends well and is not cancelled
  pub run-IsAnswered :
      (conditions : List StopCondition) (fuel : ℕ) (messages : List Message) (p : Progress)
      → IsAnswered messages
      → run_loop chat execute conditions fuel messages ≡ some p
      → is_good p.state.status ≡ true
      → p.is_cancelled ≡ false
      → IsAnswered p.messages
  unfolding run_loop
  run-IsAnswered conditions fuel messages p h ends = subst FineIf ends (
      concluded (loop chat execute conditions fuel begin)
        (loop-IsFine conditions fuel begin (λ _ _. h)))
    where
      begin : Progress
      begin = record {
        messages = messages;
        state = new_state;
        last_result = none;
        is_cancelled = false;
      }

      concluded :
          (o : Option Progress)
          → FineIf o
          → FineIf (elim o as (λ _. Option Progress) [
            | none ↦ none
            | some p ↦ some (conclude chat execute p)
          ])
      concluded none f = tt
      concluded (some q) f = conclude-IsFine q f
