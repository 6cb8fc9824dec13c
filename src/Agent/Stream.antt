-- ===== src/Agent/Stream.antt =====
-- The streamed loop: `AgentRunner.stream` and `_pull_filler_text` of pigagent/core/agent/runner.py. The
-- model's stream is a parameter, by the messages; `is_set step chunk` is whether the interrupt event is set
-- at a check: the one before a step for chunk 0, then the one at each chunk.
use Prim.Native.Char.{code}
use Prim.Native.String as Str
use pigugu_server.Common.{
  ℕ, String, Bool, true, ◌||◌, Option, none, some, List, [], ◌∷◌, ◌++◌, map, str_eq, if◌then◌else◌,
  any, ◌==◌,
}
use pigugu_server.Common.Text.{is_space}
use pigugu_server.Context.Record.{ToolCall}

-- text.startswith(part): what follows the part
unfoldable pub after_prefix : String → String → Option String
after_prefix Str.[] text = some text
after_prefix (Str.◌∷◌ c part) Str.[] = none
after_prefix (Str.◌∷◌ c part) (Str.◌∷◌ d text) =
    let rest = after_prefix part text in if code c == code d then rest else none

unfoldable pub skip_spaces : String → String
skip_spaces Str.[] = Str.[]
skip_spaces (Str.◌∷◌ c text) =
    let rest = skip_spaces text in if is_space (code c) then rest else Str.◌∷◌ c text

-- the text of a JSON string from behind its opening quote, without the escapes, and what follows it
unfoldable pub json_text : String → Option (String × String)
json_text Str.[] = none
json_text (Str.◌∷◌ c Str.[]) = if code c == 34 then some ("", "") else none
json_text (Str.◌∷◌ c (Str.◌∷◌ d text)) =
    let escaped = json_text text in
    let plain = json_text (Str.◌∷◌ d text) in
    if code c == 34
    then some ("", Str.◌∷◌ d text)
    else if code c == 92
    then (if code d == 10
        then none
        else elim escaped [ none ↦ none | some r ↦ some (Str.◌∷◌ d r.0, r.1) ])
    else elim plain [ none ↦ none | some r ↦ some (Str.◌∷◌ c r.0, r.1) ]

-- one of the two field names
abbrev pub after_name : String → Option String
after_name text = elim (after_prefix "\"filler_text\"" text) [
  | some rest ↦ some rest
  | none ↦ after_prefix "\"user_reply\"" text
]

abbrev pub after_colon : String → Option (String × String)
after_colon text = elim (after_prefix ":" (skip_spaces text)) [
  | none ↦ none
  | some rest ↦ elim (after_prefix "\"" (skip_spaces rest)) [
    | none ↦ none
    | some body ↦ json_text body
  ]
]

-- a match of the pattern at the head of a text
unfoldable pub match_filler : String → Option (String × String)
match_filler text = elim (after_name text) [ none ↦ none | some rest ↦ after_colon rest ]

-- the first match
unfoldable pub search_filler : String → Option (String × String)
search_filler Str.[] = match_filler Str.[]
search_filler (Str.◌∷◌ c text) =
    let later = search_filler text in
    elim (match_filler (Str.◌∷◌ c text)) [ some m ↦ some m | none ↦ later ]

-- the field is complete: a comma or a brace follows, or nothing yet
abbrev pub is_complete : String → Bool
is_complete Str.[] = true
is_complete (Str.◌∷◌ c rest) = code c == 44 || code c == 125

unfoldable pub pull_filler_text : ToolCall → Option String
pull_filler_text tc = elim (search_filler tc.arguments) [
  | none ↦ none
  | some m ↦ if is_complete m.1 then some m.0 else none
]

pub record Delta : Type 0 where
  pub content : String  -- "" for None
  pub tool_calls : List (ℕ × ToolCall)  -- with the index of each
  pub finish_reason : Option String

-- what the stream yields: a text, or the FlushSentinel
pub data Yield : Type 0 where
  text : String → Yield
  flush : Yield

-- the variables of a step
pub record Step : Type 0 where
  pub collected : String
  pub calls : List ToolCall
  pub replied : List ℕ
  pub stripped : String
  pub yields : List Yield

abbrev pub no_step : Step
no_step = record { collected = ""; calls = []; replied = []; stripped = ""; yields = [] }

-- the text without the reply that was spoken already
unfoldable pub strip_reply : String → String → String × String
strip_reply stripped content =
    if str_eq stripped "" then (content, stripped) else elim (after_prefix stripped content) [
      | some rest ↦ (rest, "")
      | none ↦ (content, stripped)
    ]

unfoldable pub take_content : Delta → Step → Step
unfolding strip_reply
take_content d s =
    if str_eq d.content ""
    then s
    else let (t, left) = strip_reply s.stripped d.content in
      record s {
        collected = Str.◌++◌ s.collected t;
        stripped = left;
        yields = s.yields ++ text t ∷ [];
      }

-- the filler text of a call is yielded once
unfoldable pub speak : ℕ → Option String → Step → Step
speak index none s = s
speak index (some t) s = if str_eq t "" || any (λ i. i == index) s.replied then s else record s {
  replied = index ∷ s.replied;
  stripped = t;
  yields = s.yields ++ text t ∷ flush ∷ [];
}

unfoldable pub speak_all : List (ℕ × ToolCall) → Step → Step
speak_all [] s = s
speak_all ((index, tc) ∷ calls) s = speak_all calls (speak index (pull_filler_text tc) s)

unfoldable pub take_calls : Delta → Step → Step
take_calls d s = elim d.tool_calls [
  | [] ↦ s
  | c ∷ cs ↦ speak_all (c ∷ cs) (record s { calls = map (λ x. x.1) (c ∷ cs) })
]

unfoldable pub take_delta : Delta → Step → Step
take_delta d s = take_calls d (take_content d s)
