-- ===== src/Agent/SanitizeResults.antt =====
-- What is left of the tool calls after the sanitation.
use mathlib.Core.List.{append_assoc}
use pigugu_server.Common.{
  ◌≡◌, refl, ap, sym, ◌∙◌, String, Bool, true, false, none, some, List, [], ◌∷◌, ◌++◌, str_eq,
  if◌then◌else◌, select, All, All-append, All-imp, Bool-cases, inl, inr, arith,
}
use pigugu_server.Context.Record.{Role, is_assistant, ToolCall}
use pigugu_server.Agent.Messages.{Message, assistant_message, calls_of, text_of}
use pigugu_server.Agent.Sanitize.{
  is_tool, responded_ids, is_in, valid_calls, keep_valid, has_calls, clean, clean_all,
  validate_tool_calls,
}

select-All {ℓ} : {A : Type ℓ} (p : A → Bool) (xs : List A) → All (λ x. p x ≡ true) (select p xs)
select-All p [] = tt
select-All p (x ∷ xs) = elim (Bool-cases (p x)) [
  | inl e ↦ rw e (e, select-All p xs)
  | inr e ↦ rw e (select-All p xs)
]

select-id {ℓ} :
    {A : Type ℓ} (p : A → Bool) (xs : List A) → All (λ x. p x ≡ true) xs → select p xs ≡ xs
select-id p [] h = refl
select-id p (x ∷ xs) (a, h) = rw a (ap (λ ys. x ∷ ys) (select-id p xs h))

-- a message whose calls, if it has any, are all answered, and that the sanitation leaves as it is
abbrev pub IsClean : List String → Message → Type 0
IsClean ids m =
    (has_calls m ≡ true → All (λ c. is_in ids c.id ≡ true) (calls_of m.tool_calls))
    × (clean ids m ≡ m ∷ [])

assistant-IsClean :
    (ids : List String) (text : String) (partial : Bool) (c : ToolCall) (cs : List ToolCall)
    → All (λ c. is_in ids c.id ≡ true) (c ∷ cs)
    → IsClean ids (assistant_message text partial (some (c ∷ cs)))
unfolding clean keep_valid
assistant-IsClean ids text partial c cs h = (
  (λ _. h),
  ap (keep_valid (assistant_message text partial (some (c ∷ cs))))
      (select-id (λ c. is_in ids c.id) (c ∷ cs) h),
)

plain-IsClean :
    (ids : List String) (text : String) (partial : Bool)
    → IsClean ids (assistant_message text partial none)
unfolding clean
plain-IsClean ids text partial = ((λ _. tt), refl)

uncalled-IsClean : (ids : List String) (m : Message) → has_calls m ≡ false → IsClean ids m
unfolding clean
uncalled-IsClean ids m e = ((λ t. absurd (none_both (has_calls m) e t)), rw e refl)
  where
    none_both : (b : Bool) → b ≡ false → b ≡ true → ⊥
    none_both b e t = ground arith

keep_valid-IsClean :
    (ids : List String) (m : Message) (valid : List ToolCall)
    → All (λ c. is_in ids c.id ≡ true) valid
    → All (IsClean ids) (keep_valid m valid)
unfolding keep_valid
keep_valid-IsClean ids m (c ∷ valid) h = (assistant-IsClean ids m.content m.partial c valid h, tt)
keep_valid-IsClean ids m [] h = elim (Bool-cases (str_eq m.content "")) [
  | inl e ↦ rw e tt
  | inr e ↦ rw e (plain-IsClean ids m.content m.partial, tt)
]

clean-IsClean : (ids : List String) (m : Message) → All (IsClean ids) (clean ids m)
unfolding clean
clean-IsClean ids m = elim (Bool-cases (has_calls m)) [
  | inl e ↦ rw e (
      keep_valid-IsClean ids m (valid_calls ids (calls_of m.tool_calls))
        (select-All (λ c. is_in ids c.id) (calls_of m.tool_calls)))
  | inr e ↦ rw e (uncalled-IsClean ids m e, tt)
]

clean_all-IsClean : (ids : List String) (ms : List Message) → All (IsClean ids) (clean_all ids ms)
unfolding clean_all
clean_all-IsClean ids [] = tt
clean_all-IsClean ids (m ∷ ms) =
    All-append (IsClean ids) (clean ids m) (clean_all ids ms) (clean-IsClean ids m)
      (clean_all-IsClean ids ms)

clean_all-id :
    (ids : List String) (ms : List Message) → All (IsClean ids) ms → clean_all ids ms ≡ ms
unfolding clean_all
clean_all-id ids [] h = refl
clean_all-id ids (m ∷ ms) ((_, e), h) =
    ap (λ l. l ++ clean_all ids ms) e ∙ ap (λ l. m ∷ l) (clean_all-id ids ms h)

pub responded_ids-append :
    (xs ys : List Message) → responded_ids (xs ++ ys) ≡ responded_ids xs ++ responded_ids ys
unfolding responded_ids
responded_ids-append [] ys = refl
responded_ids-append (m ∷ xs) ys =
    ap (λ l. (if is_tool m.role then text_of m.tool_call_id else []) ++ l)
      (responded_ids-append xs ys)
    ∙ sym (
        append_assoc (if is_tool m.role then text_of m.tool_call_id else []) (responded_ids xs)
          (responded_ids ys))

has_calls-role : (m : Message) → has_calls m ≡ true → is_tool m.role ≡ false
has_calls-role m h = go (calls_of m.tool_calls) m.role h
  where
    by_role : (r : Role) → is_assistant r ≡ true → is_tool r ≡ false
    by_role r h = ground arith

    go :
        (cs : List ToolCall) (r : Role)
        → (elim cs as (λ _. Bool) [ [] ↦ false | _ ∷ _ ↦ is_assistant r ]) ≡ true
        → is_tool r ≡ false
    go [] r h = ground arith
    go (c ∷ cs) r h = by_role r h

responded_ids-keep_valid :
    (m : Message) (valid : List ToolCall) → responded_ids (keep_valid m valid) ≡ []
unfolding keep_valid responded_ids
responded_ids-keep_valid m (c ∷ valid) = refl
responded_ids-keep_valid m [] = elim (Bool-cases (str_eq m.content "")) [
  | inl e ↦ rw e refl
  | inr e ↦ rw e refl
]

no_response : (m : Message) → is_tool m.role ≡ false → responded_ids (m ∷ []) ≡ []
unfolding responded_ids
no_response m e = rw e refl

responded_ids-clean :
    (ids : List String) (m : Message) → responded_ids (clean ids m) ≡ responded_ids (m ∷ [])
unfolding clean
responded_ids-clean ids m = elim (Bool-cases (has_calls m)) [
  | inl e ↦ rw e (
      responded_ids-keep_valid m (valid_calls ids (calls_of m.tool_calls))
      ∙ sym (no_response m (has_calls-role m e)))
  | inr e ↦ rw e refl
]

responded_ids-clean_all :
    (ids : List String) (ms : List Message) → responded_ids (clean_all ids ms) ≡ responded_ids ms
unfolding clean_all
responded_ids-clean_all ids [] = refl
responded_ids-clean_all ids (m ∷ ms) =
    responded_ids-append (clean ids m) (clean_all ids ms)
    ∙ (ap (λ l. l ++ responded_ids (clean_all ids ms)) (responded_ids-clean ids m)
        ∙ (ap (λ l. responded_ids (m ∷ []) ++ l) (responded_ids-clean_all ids ms)
            ∙ sym (responded_ids-append (m ∷ []) ms)))

-- After the sanitation every tool call of an assistant message has its response among the messages, and
-- the sanitation of what is left changes nothing.
pub validate_tool_calls-IsClean :
    (ms : List Message)
    → let out = validate_tool_calls ms in
      All
        (λ m.
          has_calls m ≡ true
          → All (λ c. is_in (responded_ids out) c.id ≡ true) (calls_of m.tool_calls))
        out
      × (validate_tool_calls out ≡ out)
unfolding validate_tool_calls
validate_tool_calls-IsClean ms =
    let ids = responded_ids ms in
    let same = responded_ids-clean_all ids ms in
    let fine = clean_all-IsClean ids ms in
    rw same (
      All-imp (IsClean ids)
          (λ m. has_calls m ≡ true → All (λ c. is_in ids c.id ≡ true) (calls_of m.tool_calls))
          (λ m h. h.0) (clean_all ids ms) fine,
      clean_all-id ids (clean_all ids ms) fine,
    )
