-- ===== src/Roast/Settle.antt =====
-- The end of a game by the agent: the tool mark_roast_complete of pigagent/tools/roast.py. The average score, which
-- is a fraction, is left out of the event. Each failure of Redis or PostgreSQL is caught.
use pigugu_server.Common.{
  ℕ, String, Bool, true, false, Option, none, some, List, [], ◌∷◌, if◌then◌else◌, str_eq,
}
use pigugu_server.Common.Dict
use pigugu_server.Common.Dict.{Dict}
use pigugu_server.Common.Text.{codes, strip, lower, codes_eq}
use pigugu_server.Roast.State.{
  Mode, roast_together, debate, Phase, active, closing, settled, RoastState,
}
use pigugu_server.Roast.Storage.{Store, is_up, load_active, save}
use pigugu_server.Roast.Score.{score_together, score_debate, DebateResult}

-- the event for the card of the App
pub data Settlement : Type 0 where
  roast_end :
      (sid roast headline source : String) (total rounds : ℕ) (best_quote : Option String)
      (best_rating reason : String) (started : ℕ)
      → Settlement
  debate_end :
      (sid roast headline source : String) (support : ℕ) (result : DebateResult) (rounds : ℕ)
      (reason : String) (started : ℕ)
      → Settlement

-- a row of roast_history
pub record SettledRow : Type 0 where
  pub user_id : String
  pub roast_id : String
  pub mode : Mode
  pub headline : String
  pub source : String
  pub turn_count : ℕ
  pub best_take : Option (List ℕ)
  pub interrupted : Bool
  pub started_at : ℕ

-- the stores of the sessions, the rows, and what was pushed, the latest first
pub record Ledger : Type 0 where
  pub store : Store
  pub rows : Dict SettledRow
  pub pushed : List (String × Settlement)

pub data Completion : Type 0 where
  no_active_user no_active_roast : Completion
  already_over : Phase → Completion
  completed_as : String → Completion

abbrev pub is_playing : Phase → Bool
is_playing active = true
is_playing closing = true
is_playing _ = false

abbrev pub or_none : String → Option String
or_none s = if str_eq s "" then none else some s

-- best_take, stripped, where it is neither empty nor "null"
unfoldable pub best_take_of : String → Option (List ℕ)
best_take_of take =
    let t = strip (codes take) in
    if codes_eq t [] then none else if codes_eq (lower t) (codes "null") then none else some t

unfoldable pub settlement : Mode → String → RoastState → Settlement
unfolding score_together score_debate
settlement roast_together reason s =
    let score = score_together s in
    roast_end s.roast_instance_id s.roast_id s.extra.headline s.extra.source score.total_score
      s.turn_count (or_none score.best_quote) score.best_rating reason s.started_at
settlement debate reason s =
    let score = score_debate s in
    debate_end s.roast_instance_id s.roast_id s.extra.headline s.extra.source
      score.final_user_support score.debate_result s.turn_count reason s.started_at

-- INSERT … ON CONFLICT (roast_instance_id) DO UPDATE SET turn_count, best_take, interrupted
unfoldable pub upsert_row : String → String → RoastState → Option SettledRow → SettledRow
unfolding best_take_of
upsert_row user reason s none = record {
  user_id = user;
  roast_id = s.roast_id;
  mode = s.mode;
  headline = s.extra.headline;
  source = s.extra.source;
  turn_count = s.turn_count;
  best_take = best_take_of s.extra.best_take;
  interrupted = str_eq reason "quit";
  started_at = s.started_at;
}
upsert_row user reason s (some r) = record r {
  turn_count = s.turn_count;
  best_take = best_take_of s.extra.best_take;
  interrupted = str_eq reason "quit";
}

unfoldable pub write_row : String → String → RoastState → Ledger → Ledger
unfolding upsert_row
write_row user reason s l =
    if is_up l.store.pg
    then record l {
      rows =
          Dict.put l.rows s.roast_instance_id
            (upsert_row user reason s (Dict.get l.rows s.roast_instance_id));
    }
    else l

unfoldable pub push_card : String → String → RoastState → Ledger → Ledger
unfolding settlement
push_card user reason s l =
    let pushed = record l { pushed = (user, settlement s.mode reason s) ∷ l.pushed } in
    if str_eq reason "completed" then (if is_up l.store.redis then pushed else l) else l

abbrev pub settle_state : RoastState → RoastState
settle_state s = record s { phase = settled; extra = record s.extra { settled_flag = true } }

-- the writes of a settlement: the state, the row, the card
unfoldable pub settle_roast : String → String → RoastState → Ledger → Ledger
unfolding save write_row push_card
settle_roast user reason s l =
    let s' = settle_state s in
    push_card user reason s' (write_row user reason s' (record l { store = save s' l.store }))

unfoldable pub complete : String → String → Option RoastState → Ledger → Ledger × Completion
unfolding settle_roast
complete user reason none l = (l, no_active_roast)
complete user reason (some s) l =
    if is_playing s.phase
    then (settle_roast user reason s l, completed_as reason)
    else (l, already_over s.phase)

unfoldable pub mark_roast_complete : String → String → Ledger → Ledger × Completion
unfolding complete
mark_roast_complete user reason l =
    if str_eq user ""
    then (l, no_active_user)
    else complete user reason (load_active user l.store) l
