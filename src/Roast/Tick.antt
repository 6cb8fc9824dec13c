-- ===== src/Roast/Tick.antt =====
-- One turn of a game: `GameMode.tick` of pigagent/roast/base.py, and the debate's own `tick`.
use pigugu_server.Common.{
  ◌+◌, String, Bool, true, false, Option, none, some, List, [], ◌∷◌, if◌then◌else◌, str_eq, is_some,
}
use pigugu_server.Context.Record.{ConversationRecord}
use pigugu_server.Roast.State.{Mode, roast_together, debate, Phase, active, closing, RoastState}
use pigugu_server.Roast.Storage.{Store, write, save}
use pigugu_server.Roast.Judging.{Verdict, direct, on_director_result}
use pigugu_server.Roast.Triggers.{Trigger, Template, triggers, update_state}

abbrev pub closing_prompt : String
closing_prompt =
    "THE GAME IS OVER. Wrap up now with a closing thought. Stay in character. Call mark_roast_complete when done."

abbrev pub is_phase_active : Phase → Bool
is_phase_active active = true
is_phase_active _ = false

abbrev pub is_closing : Phase → Bool
is_closing closing = true
is_closing _ = false

-- a text that is there and not empty
abbrev pub given : Option String → Option String
given none = none
given (some s) = if str_eq s "" then none else some s

abbrev pub keep_take : Option String → RoastState → RoastState
keep_take none s = s
keep_take (some t) s = record s { extra = record s.extra { best_take = t } }

-- the hint that the director injects
abbrev pub hint : Verdict → Option String
hint v = if v.inject then given v.prompt else none

-- a close sets a generic prompt, unless there is a hint or the mode has closed the game itself
abbrev pub or_closing : Bool → Bool → Option String → Option String
or_closing close hook_closed (some p) = some p
or_closing true false none = some closing_prompt
or_closing _ _ none = none

-- what the director's verdict makes of the turn: the state, the store and the prompt, if any
unfoldable pub directed : Mode → Verdict → RoastState → Store → RoastState × Store × Option String
unfolding on_director_result
directed mode v s st =
    let (s₁, st₁) = on_director_result mode v (keep_take (given v.best_take) s) st in
    (
      (if v.close then record s₁ { phase = closing } else s₁),
      st₁,
      or_closing v.close (is_closing s₁.phase) (hint v),
    )

-- The loop over the triggers. A trigger whose prompt cannot be rendered is passed over; `render` is
-- the prompt store, or `none` where there is none.
unfoldable pub fire : RoastState → Trigger → String → Store → RoastState × Store
unfolding write
fire s t prompt st = (
  (if t.affects_phase then record s { phase = closing } else s),
  write s.roast_instance_id prompt st,
)

unfoldable pub run_triggers :
    Option (Template → String)
    → List Trigger
    → List ConversationRecord
    → RoastState
    → Store
    → RoastState × Store × Option String
unfolding fire save
run_triggers render [] records s st = (s, save s st, none)
run_triggers none (t ∷ ts) records s st = run_triggers none ts records s st
run_triggers (some render) (t ∷ ts) records s st =
    let rest = run_triggers (some render) ts records s st in
    let prompt = render (t.prompt s) in
    let (s', st') = fire s t prompt st in
    if t.check s records then (s', save s' st', some prompt) else rest

-- the end of a turn: the director's prompt goes out at once, else the triggers are tried
unfoldable pub finish :
    Mode
    → Option (Template → String)
    → List ConversationRecord
    → RoastState × Store × Option String
    → RoastState × Store × Option String
unfolding run_triggers
finish mode render records (s, st, some prompt) =
    (s, save s (write s.roast_instance_id prompt st), some prompt)
finish mode render records (s, st, none) = run_triggers render (triggers mode) records s st

abbrev pub bump : RoastState → RoastState
bump s = record s { turn_count = s.turn_count + 1 }

-- GameMode.tick; `answer` is the director LLM's, and it is asked only if there is a prompt store
unfoldable pub base_tick :
    Mode
    → Option (Template → String)
    → Option Verdict
    → List ConversationRecord
    → RoastState
    → Store
    → RoastState × Store × Option String
base_tick mode render answer records s st =
    if is_phase_active s.phase
    then finish mode render records (directed mode (direct (is_some render) answer) (bump s) st)
    else (s, st, none)

-- `tick` of the game's mode: a debate counts the strong points first, in whatever phase
unfoldable pub tick :
    Mode
    → Option (Template → String)
    → Option Verdict
    → List ConversationRecord
    → RoastState
    → Store
    → RoastState × Store × Option String
tick roast_together render answer records s st = base_tick roast_together render answer records s st
tick debate render answer records s st =
    base_tick debate render answer records (update_state s records) st
