-- ===== src/Agent/StreamResults.antt =====
-- What a streamed reply leaves in the runner.
use mathlib.Core.List.{Memᴰ}
use pigugu_server.Common.{
  ℕ, zero, suc, ◌+◌, ◌≡◌, refl, subst, Bool, true, false, Option, none, some, List, [], ◌∷◌, ◌++◌,
  str_eq, Bool-cases, inl, inr, arith,
}
use pigugu_server.Context.Record.{ToolCall}
use pigugu_server.Agent.Messages.{Message, assistant_message}
use pigugu_server.Agent.Executor.{ToolResult}
use pigugu_server.Agent.Runner.{
  Answer, answered, interrupting, failing, cancelling, StopCondition, should_stop,
  all_result_messages,
}
use pigugu_server.Agent.Stream.{Delta, Step, no_step}
use pigugu_server.Agent.StreamLoop.{
  LastCall, End, finished, interrupt, exception, stopped, cancellation, Talk, read_deltas,
  on_interrupt, after_tools, after_calls, after_stream, talk, stream_loop, stream,
}

Memᴰ-++_left {ℓ} : {A : Type ℓ} {x : A} (xs ys : List A) → Memᴰ x xs → Memᴰ x (xs ++ ys)
Memᴰ-++_left [] ys m = elim m [ ]
Memᴰ-++_left (x ∷ xs) ys (Memᴰ.head e) = Memᴰ.head e
Memᴰ-++_left (x ∷ xs) ys (Memᴰ.tail m) = Memᴰ.tail (Memᴰ-++_left xs ys m)

Memᴰ-snoc {ℓ} : {A : Type ℓ} (xs : List A) (x : A) → Memᴰ x (xs ++ x ∷ [])
Memᴰ-snoc [] x = Memᴰ.head refl
Memᴰ-snoc (y ∷ xs) x = Memᴰ.tail (Memᴰ-snoc xs x)

abbrev is_stopped : End → Bool
is_stopped stopped = true
is_stopped _ = false

abbrev last_of : Talk → LastCall
last_of t = t.last

-- a step that goes on keeps what the call before has left, and its text stands in the messages
abbrev pub GoesOn : LastCall → Talk × Option End → Type 0
GoesOn last (t', some end) = is_stopped end ≡ false
GoesOn last (t', none) =
    (t'.last ≡ last)
    × ((calls : List ToolCall) × Memᴰ (assistant_message t'.collected false (some calls))
          t'.messages)

module _ (chat_stream : List Message → List Delta × Bool)
    (execute : List ToolCall → Answer (List ToolResult)) (is_set : ℕ → ℕ → Bool) where
  after_tools-GoesOn :
      (t : Talk) (a : Answer (List ToolResult)) (calls : List ToolCall)
      → Memᴰ (assistant_message t.collected false (some calls)) t.messages
      → GoesOn (last_of t) (after_tools chat_stream execute is_set t a)
  unfolding after_tools
  after_tools-GoesOn t (answered results) calls h =
      (refl, (calls, Memᴰ-++_left t.messages (all_result_messages results) h))
  after_tools-GoesOn t interrupting calls h = refl
  after_tools-GoesOn t failing calls h = refl
  after_tools-GoesOn t cancelling calls h = refl

  after_calls-GoesOn :
      (t : Talk) (calls : List ToolCall)
      → GoesOn (last_of t) (after_calls chat_stream execute is_set t calls)
  unfolding after_calls
  after_calls-GoesOn t [] = refl
  after_calls-GoesOn t (c ∷ cs) =
      after_tools-GoesOn
        (record t {
          messages = t.messages ++ assistant_message t.collected false (some (c ∷ cs)) ∷ [];
        })
        (execute (c ∷ cs)) (c ∷ cs)
        (Memᴰ-snoc t.messages (assistant_message t.collected false (some (c ∷ cs))))

  after_stream-GoesOn :
      (t : Talk) (d : Step × Answer Unit)
      → GoesOn (last_of t) (after_stream chat_stream execute is_set t d)
  unfolding after_stream
  after_stream-GoesOn t (s, answered _) = after_calls-GoesOn _ s.calls
  after_stream-GoesOn t (s, interrupting) = refl
  after_stream-GoesOn t (s, failing) = refl
  after_stream-GoesOn t (s, cancelling) = refl

  talk-GoesOn : (t : Talk) → GoesOn (last_of t) (talk chat_stream execute is_set t)
  unfolding talk
  talk-GoesOn t = elim (Bool-cases (is_set t.state.current_step 0)) [
    | inl e ↦ rw e refl
    | inr e ↦ rw e (
        after_stream-GoesOn
          (record t {
            state = record t.state { current_step = t.state.current_step + 1 };
            collected = "";
          })
          (read_deltas (is_set (t.state.current_step + 1)) 1 (chat_stream t.messages).0
            (chat_stream t.messages).1 no_step))
  ]

  went_on :
      (last : LastCall) (d : Talk × Option End)
      → d.1 ≡ none
      → GoesOn last d
      → (d.0.last ≡ last)
        × ((calls : List ToolCall) × Memᴰ
              (assistant_message d.0.collected false (some calls))
              d.0.messages)
  went_on last (t, none) e h = h
  went_on last (t, some end) e h = ground arith

  talk_interrupted :
      (t : Talk)
      → is_set t.state.current_step 0 ≡ true
      → talk chat_stream execute is_set t ≡ (on_interrupt t, some interrupt)
  unfolding talk
  talk_interrupted t e = rw e refl

  messages-on_interrupt :
      (t : Talk)
      → str_eq t.collected "" ≡ false
      → (on_interrupt t).last.messages ≡ t.messages ++ assistant_message t.collected true none ∷ []
  unfolding on_interrupt
  messages-on_interrupt t e = rw e refl

  -- If the event is set at the check before a step that follows a step with tool calls, the reply ends with
  -- the text of the earlier step as a partial message, though the earlier step has added it already.
  pub interrupt_repeats_text :
      (t : Talk)
      → let (t', end) = talk chat_stream execute is_set t in
        end ≡ none
        → is_set t'.state.current_step 0 ≡ true
        → str_eq t'.collected "" ≡ false
        → let (t'', end') = talk chat_stream execute is_set t' in
          (end' ≡ some interrupt)
          × ((calls : List ToolCall) × Memᴰ
                (assistant_message t'.collected false (some calls))
                t'.messages)
          × (t''.last.messages ≡ t'.messages ++ assistant_message t'.collected true none ∷ [])
  interrupt_repeats_text t on set said =
      let t' = (talk chat_stream execute is_set t).0 in
      let (_, there) = went_on t.last (talk chat_stream execute is_set t) on (talk-GoesOn t) in
      rw (talk_interrupted t' set) (refl, there, messages-on_interrupt t' said)

  -- what is known of a stream that a stop condition has ended
  abbrev pub IsKept : LastCall → Option (Talk × End) → Type 0
  IsKept last (some (t, stopped)) = t.last ≡ last
  IsKept last _ = Unit

  ended-IsKept :
      (last : LastCall) (t : Talk) (end : End)
      → is_stopped end ≡ false
      → IsKept last (some (t, end))
  ended-IsKept last t finished h = tt
  ended-IsKept last t interrupt h = tt
  ended-IsKept last t exception h = tt
  ended-IsKept last t cancellation h = tt
  ended-IsKept last t stopped h = ground arith

  stream_loop-IsKept :
      (conditions : List StopCondition) (fuel : ℕ) (t : Talk)
      → IsKept (last_of t) (stream_loop chat_stream execute is_set conditions fuel t)
  unfolding stream_loop
  stream_loop-IsKept conditions zero t = tt
  stream_loop-IsKept conditions (suc fuel) t =
      let rest = stream_loop-IsKept conditions fuel (talk chat_stream execute is_set t).0 in
      elim (Bool-cases (should_stop conditions t.state)) [
        | inl e ↦ rw e refl
        | inr e ↦ rw e (
            chosen t.last (talk chat_stream execute is_set t)
              (stream_loop chat_stream execute is_set conditions fuel
                (talk chat_stream execute is_set t).0)
              (talk-GoesOn t) rest)
      ]
    where
      chosen :
          (last : LastCall) (d : Talk × Option End) (rest : Option (Talk × End))
          → GoesOn last d
          → IsKept d.0.last rest
          → IsKept last
              (elim d.1 as (λ _. Option (Talk × End)) [ none ↦ rest | some how ↦ some (d.0, how) ])
      chosen last (t, none) rest (same, _) h = subst (λ l. IsKept l rest) same h
      chosen last (t, some end) rest g h = ended-IsKept last t end g

  -- A reply that a stop condition ends, the step limit for one, leaves in the runner what the call before
  -- has left there: its messages, its status and its number of steps.
  pub stopped_keeps_last :
      (conditions : List StopCondition) (fuel : ℕ) (messages : List Message) (last : LastCall)
      (t : Talk)
      → stream chat_stream execute is_set conditions fuel messages last ≡ some (t, stopped)
      → t.last ≡ last
  unfolding stream
  stopped_keeps_last conditions fuel messages last t h =
      subst (IsKept last) h (stream_loop-IsKept conditions fuel _)
