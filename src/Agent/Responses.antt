-- ===== src/Agent/Responses.antt =====
-- Which messages have the responses to their tool calls (pigagent/core/llm/types.py), and how messages are
-- put together that have them.
use text.Mathlib.TextPositions.{eq_refl}
use pigugu_server.Common.{
  ◌≡◌, refl, sym, subst, String, Bool, true, false, none, some, List, [], ◌∷◌, ◌++◌, map, any, All,
  All-append, All-imp, str_eq, arith,
}
use pigugu_server.Context.Record.{ToolCall}
use pigugu_server.Agent.Messages.{Message, assistant_message, plain_message, calls_of}
use pigugu_server.Agent.Sanitize.{responded_ids, is_in}
use pigugu_server.Agent.SanitizeResults.{responded_ids-append}
use pigugu_server.Agent.Executor.{ToolResult, Injected}
use pigugu_server.Agent.Runner.{result_messages, all_result_messages}

-- the calls of the messages have their responses among the ids
abbrev pub AnsweredBy : List String → List Message → Type 0
AnsweredBy ids ms = All (λ m. All (λ c. is_in ids c.id ≡ true) (calls_of m.tool_calls)) ms

any-++_left {ℓ} :
    {A : Type ℓ} (p : A → Bool) (xs ys : List A) → any p xs ≡ true → any p (xs ++ ys) ≡ true
any-++_left p [] ys h = ground arith
any-++_left p (x ∷ xs) ys h = ground (arith, any-++_left p xs ys)

any-++_right {ℓ} :
    {A : Type ℓ} (p : A → Bool) (xs ys : List A) → any p ys ≡ true → any p (xs ++ ys) ≡ true
any-++_right p [] ys h = h
any-++_right p (x ∷ xs) ys h = ground (arith, any-++_right p xs ys h)

AnsweredBy-more :
    (ids more : List String) (ms : List Message) → AnsweredBy ids ms → AnsweredBy (ids ++ more) ms
AnsweredBy-more ids more ms h =
    All-imp (λ m. All (λ c. is_in ids c.id ≡ true) (calls_of m.tool_calls))
      (λ m. All (λ c. is_in (ids ++ more) c.id ≡ true) (calls_of m.tool_calls))
      (λ m k.
        All-imp (λ c. is_in ids c.id ≡ true) (λ c. is_in (ids ++ more) c.id ≡ true)
          (λ c e. any-++_left (λ i. str_eq i c.id) ids more e) (calls_of m.tool_calls) k)
      ms h

-- what a tool adds calls nothing
abbrev pub IsQuiet : List Message → Type 0
IsQuiet ms = All (λ m. m.tool_calls ≡ none) ms

quiet-AnsweredBy : (ids : List String) (ms : List Message) → IsQuiet ms → AnsweredBy ids ms
quiet-AnsweredBy ids ms h =
    All-imp (λ m. m.tool_calls ≡ none)
      (λ m. All (λ c. is_in ids c.id ≡ true) (calls_of m.tool_calls)) (λ m e. rw e tt) ms h

injected-IsQuiet : (is : List Injected) → IsQuiet (map (λ i. plain_message i.role i.content) is)
injected-IsQuiet [] = tt
injected-IsQuiet (i ∷ is) = (refl, injected-IsQuiet is)

result-IsQuiet : (r : ToolResult) → IsQuiet (result_messages r)
unfolding result_messages
result-IsQuiet r = (refl, injected-IsQuiet _)

results-IsQuiet : (rs : List ToolResult) → IsQuiet (all_result_messages rs)
unfolding all_result_messages
results-IsQuiet [] = tt
results-IsQuiet (r ∷ rs) =
    All-append (λ m. m.tool_calls ≡ none) (result_messages r) (all_result_messages rs)
      (result-IsQuiet r) (results-IsQuiet rs)

abbrev pub AllIn : List String → List ToolCall → Type 0
AllIn ids cs = All (λ c. is_in ids c.id ≡ true) cs

-- the results carry the ids of the calls
abbrev pub Carries : List ToolCall → List ToolResult → Type 0
Carries [] rs = Unit
Carries (c ∷ cs) [] = ⊥
Carries (c ∷ cs) (r ∷ rs) = (r.tool_call_id ≡ c.id) × Carries cs rs

abbrev pub IsNamed : List ToolCall → Type 0
IsNamed cs = All (λ c. str_eq c.id "" ≡ false) cs

result-responds :
    (r : ToolResult) (c : ToolCall)
    → r.tool_call_id ≡ c.id
    → str_eq c.id "" ≡ false
    → is_in (responded_ids (result_messages r)) c.id ≡ true
unfolding result_messages responded_ids
result-responds r c e named = rw (e, named) (rw (eq_refl c.id) refl)

results-respond :
    (cs : List ToolCall) (rs : List ToolResult)
    → Carries cs rs
    → IsNamed cs
    → All (λ c. is_in (responded_ids (all_result_messages rs)) c.id ≡ true) cs
unfolding all_result_messages
results-respond [] rs h n = tt
results-respond (c ∷ cs) [] h n = elim h [ ]
results-respond (c ∷ cs) (r ∷ rs) (e, h) (named, n) =
    subst (λ ids. AllIn ids (c ∷ cs))
      (sym (responded_ids-append (result_messages r) (all_result_messages rs)))
      (
        any-++_left (λ i. str_eq i c.id) (responded_ids (result_messages r))
            (responded_ids (all_result_messages rs)) (result-responds r c e named),
        All-imp (λ c. is_in (responded_ids (all_result_messages rs)) c.id ≡ true)
            (λ c.
              is_in (responded_ids (result_messages r) ++ responded_ids (all_result_messages rs))
                c.id
              ≡ true)
            (λ c k.
              any-++_right (λ i. str_eq i c.id) (responded_ids (result_messages r))
                (responded_ids (all_result_messages rs)) k)
            cs (results-respond cs rs h n),
      )

-- messages whose calls are answered among them
abbrev pub IsAnswered : List Message → Type 0
IsAnswered ms = AnsweredBy (responded_ids ms) ms

pub IsAnswered-append :
    (ms more : List Message)
    → IsAnswered ms
    → AnsweredBy (responded_ids ms ++ responded_ids more) more
    → IsAnswered (ms ++ more)
IsAnswered-append ms more h k =
    subst (λ ids. AnsweredBy ids (ms ++ more)) (sym (responded_ids-append ms more))
      (All-append
        (λ m.
          All (λ c. is_in (responded_ids ms ++ responded_ids more) c.id ≡ true)
            (calls_of m.tool_calls))
        ms more (AnsweredBy-more (responded_ids ms) (responded_ids more) ms h) k)

-- an assistant message with calls and the results of the calls
pub called-AnsweredBy :
    (ids : List String) (text : String) (calls : List ToolCall) (rs : List ToolResult)
    → Carries calls rs
    → IsNamed calls
    → let ms = assistant_message text false (some calls) ∷ all_result_messages rs in
      AnsweredBy (ids ++ responded_ids ms) ms
unfolding responded_ids
called-AnsweredBy ids text calls rs h n = (
  All-imp (λ c. is_in (responded_ids (all_result_messages rs)) c.id ≡ true)
      (λ c. is_in (ids ++ responded_ids (all_result_messages rs)) c.id ≡ true)
      (λ c k. any-++_right (λ i. str_eq i c.id) ids (responded_ids (all_result_messages rs)) k)
      calls (results-respond calls rs h n),
  quiet-AnsweredBy (ids ++ responded_ids (all_result_messages rs)) (all_result_messages rs)
      (results-IsQuiet rs),
)
