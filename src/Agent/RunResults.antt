-- ===== src/Agent/RunResults.antt =====
-- The loop over the steps ends, and the tools' results answer the calls.
use pigugu_server.Common.{
  ℕ, zero, suc, ◌+◌, ◌≤◌, ◌<◌, ◌≡◌, refl, sym, subst, ◌>>=◌, String, Bool, false, Option, none,
  some, List, [], ◌∷◌, Bool-cases, inl, inr, arith, length, ltb,
}
use pigugu_server.Common.Dict
use pigugu_server.Context.Record.{ToolCall}
use pigugu_server.Agent.Messages.{Message}
use pigugu_server.Agent.Executor.{
  ToolResult, Outcome, Handlers, failure, result_of, returned, raised, timed_out, cancelled,
  arguments_of, call_handler, call_known, execute_one, or_cancelled, gather, one_by_one, run,
}
use pigugu_server.Agent.Runner.{
  AgentState, Answer, answered, interrupting, failing, cancelling, Response, StepResult, Progress,
  step_count_is, should_stop, stop_conditions, new_state, is_running, after_tools, after_step,
  take_step, step, step_result, loop, conclude, run_loop, count_step,
}

-- The results of the calls.
module _ {Args : Type 0} (no_args : Args) (parse_args : String → Option Args)
    (timeout_text : String) where
  -- a result is the one of its call
  abbrev pub Answers : ToolCall → ToolResult → Type 0
  Answers tc r = (r.tool_call_id ≡ tc.id) × (r.tool_name ≡ tc.name)

  abbrev pub AllAnswer : List ToolCall → List ToolResult → Type 0
  AllAnswer [] [] = Unit
  AllAnswer (tc ∷ tcs) (r ∷ rs) = Answers tc r × AllAnswer tcs rs
  AllAnswer _ _ = ⊥

  -- what holds of a result, if there is one
  abbrev pub IfAny {ℓ} : {A : Type ℓ} → (A → Type 0) → Option A → Type 0
  IfAny P none = Unit
  IfAny P (some a) = P a

  result_of-Answers :
      (tc : ToolCall) (o : Outcome)
      → IfAny (Answers tc) (result_of no_args parse_args timeout_text tc o)
  unfolding result_of failure
  result_of-Answers tc (returned content inject) = (refl, refl)
  result_of-Answers tc (raised e) = (refl, refl)
  result_of-Answers tc timed_out = (refl, refl)
  result_of-Answers tc cancelled = tt

  call_handler-Answers :
      (tc : ToolCall) (handler : Args → Outcome) (o : Option Args)
      → IfAny (Answers tc) (call_handler no_args parse_args timeout_text tc handler o)
  unfolding call_handler failure
  call_handler-Answers tc handler none = (refl, refl)
  call_handler-Answers tc handler (some args) = result_of-Answers tc (handler args)

  call_known-Answers :
      (tc : ToolCall) (o : Option (Args → Outcome))
      → IfAny (Answers tc) (call_known no_args parse_args timeout_text tc o)
  unfolding call_known failure
  call_known-Answers tc none = (refl, refl)
  call_known-Answers tc (some handler) =
      call_handler-Answers tc handler (arguments_of no_args parse_args timeout_text tc.arguments)

  or_cancelled-Answers :
      (tc : ToolCall) (o : Option ToolResult)
      → IfAny (Answers tc) o
      → Answers tc (or_cancelled no_args parse_args timeout_text tc o)
  unfolding or_cancelled failure
  or_cancelled-Answers tc none h = (refl, refl)
  or_cancelled-Answers tc (some r) h = h

  gather-Answers :
      (handlers : Handlers no_args parse_args timeout_text) (calls : List ToolCall)
      → AllAnswer calls (gather no_args parse_args timeout_text handlers calls)
  unfolding gather execute_one
  gather-Answers handlers [] = tt
  gather-Answers handlers (tc ∷ tcs) = (
    or_cancelled-Answers tc (execute_one no_args parse_args timeout_text handlers tc)
        (call_known-Answers tc (Dict.get handlers tc.name)),
    gather-Answers handlers tcs,
  )

  both-Answers :
      (tc : ToolCall) (tcs : List ToolCall) (o : Option ToolResult) (os : Option (List ToolResult))
      → IfAny (Answers tc) o
      → IfAny (AllAnswer tcs) os
      → IfAny (AllAnswer (tc ∷ tcs)) (o >>= (λ r. os >>= (λ rs. some (r ∷ rs))))
  both-Answers tc tcs none os h k = tt
  both-Answers tc tcs (some r) none h k = tt
  both-Answers tc tcs (some r) (some rs) h k = (h, k)

  one_by_one-Answers :
      (handlers : Handlers no_args parse_args timeout_text) (calls : List ToolCall)
      → IfAny (AllAnswer calls) (one_by_one no_args parse_args timeout_text handlers calls)
  unfolding one_by_one execute_one
  one_by_one-Answers handlers [] = tt
  one_by_one-Answers handlers (tc ∷ tcs) =
      both-Answers tc tcs (execute_one no_args parse_args timeout_text handlers tc)
        (one_by_one no_args parse_args timeout_text handlers tcs)
        (call_known-Answers tc (Dict.get handlers tc.name)) (one_by_one-Answers handlers tcs)

  -- The results of an execution answer the calls one by one and in their order, each with the id and the
  -- name of its call, whatever the handlers do and whether the calls run together or not; there are no
  -- results only if a cancellation goes through.
  pub run-AllAnswer :
      (handlers : Handlers no_args parse_args timeout_text) (concurrent : Bool)
      (calls : List ToolCall)
      → IfAny (AllAnswer calls) (run no_args parse_args timeout_text handlers concurrent calls)
  unfolding run
  run-AllAnswer handlers concurrent calls = elim (Bool-cases (ltb 1 (length calls))) [
    | inr e ↦ rw e (one_by_one-Answers handlers calls)
    | inl e ↦ rw e (elim (Bool-cases concurrent) [
      | inl c ↦ rw c (gather-Answers handlers calls)
      | inr c ↦ rw c (one_by_one-Answers handlers calls)
    ])
  ]

-- The loop.
module _ (chat : List Message → Answer Response)
    (execute : List ToolCall → Answer (List ToolResult)) where
  after_tools_counts :
      (p : Progress) (a : Answer (List ToolResult))
      → (after_tools chat execute p a).0.state.current_step ≡ p.state.current_step
  unfolding after_tools
  after_tools_counts p (answered results) = refl
  after_tools_counts p interrupting = refl
  after_tools_counts p failing = refl
  after_tools_counts p cancelling = refl

  after_step_counts :
      (p : Progress) (r : StepResult) (calls : Option (List ToolCall))
      → r.tool_calls ≡ calls
      → (after_step chat execute p r).0.state.current_step ≡ p.state.current_step
  unfolding after_step
  after_step_counts p r none e = rw e refl
  after_step_counts p r (some calls) e = rw e (after_tools_counts _ (execute calls))

  take_step_counts :
      (p : Progress) (a : Answer Response)
      → (take_step chat execute p a).0.state.current_step ≡ p.state.current_step
  unfolding take_step
  take_step_counts p (answered r) =
      after_step_counts p (step_result r) (step_result r).tool_calls refl
  take_step_counts p interrupting = refl
  take_step_counts p failing = refl
  take_step_counts p cancelling = refl

  step_counts :
      (p : Progress) → (step chat execute p).0.state.current_step ≡ p.state.current_step + 1
  unfolding step
  step_counts p = take_step_counts (count_step chat execute p) (chat p.messages)

  abbrev pub Ends : ℕ → Option Progress → Type 0
  Ends max_steps o = (p : Progress) × (o ≡ some p) × (p.state.current_step ≤ max_steps)

  stops-lt :
      (max_steps : ℕ) (s : AgentState)
      → should_stop (stop_conditions [] max_steps) s ≡ false
      → s.current_step < max_steps
  unfolding should_stop stop_conditions step_count_is
  stops-lt max_steps s h = ground arith

  loop-Ends :
      (max_steps fuel : ℕ) (p : Progress)
      → p.state.current_step ≤ max_steps
      → max_steps < p.state.current_step + fuel
      → Ends max_steps (loop chat execute (stop_conditions [] max_steps) fuel p)
  unfolding loop
  loop-Ends max_steps zero p le lt = ground arith
  loop-Ends max_steps (suc fuel) p le lt =
      let n = step_counts p in
      elim (Bool-cases (should_stop (stop_conditions [] max_steps) p.state)) [
        | inl e ↦ rw e (p, refl, le)
        | inr e ↦
            let small = stops-lt max_steps p.state e in
            elim (Bool-cases (step chat execute p).1) [
              | inl g ↦
                  rw (e, g)
                    (loop-Ends max_steps fuel (step chat execute p).0 (omega arith) (omega arith))
              | inr g ↦ rw (e, g) ((step chat execute p).0, refl, omega arith)
            ]
      ]

  concluded :
      (p : Progress)
      → ((conclude chat execute p).state.current_step ≡ p.state.current_step)
        × (is_running (conclude chat execute p).state.status ≡ false)
  unfolding conclude
  concluded p = elim (Bool-cases (is_running p.state.status)) [
    | inl e ↦ rw e (refl, refl)
    | inr e ↦ rw e (refl, e)
  ]

  -- With the default stop conditions the loop ends: as many tests as the step limit and one more are
  -- enough, whatever the model and the tools do. It has taken at most as many steps as the limit, and its
  -- state is no longer running.
  pub run_loop_ends :
      (max_steps fuel : ℕ) (messages : List Message)
      → max_steps < fuel
      → (p : Progress) × (run_loop chat execute (stop_conditions [] max_steps) fuel messages
          ≡ some p)
        × (p.state.current_step ≤ max_steps)
        × (is_running p.state.status ≡ false)
  unfolding run_loop
  run_loop_ends max_steps fuel messages lt =
      let begin : Progress = record {
        messages = messages;
        state = new_state;
        last_result = none;
        is_cancelled = false;
      } in
      let (p, e, le) = loop-Ends max_steps fuel begin (omega arith) (omega arith) in
      rw (run_loop, e)
        (
          conclude chat execute p,
          refl,
          subst (λ n. n ≤ max_steps) (sym (concluded p).0) le,
          (concluded p).1,
        )
