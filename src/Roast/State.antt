-- ===== src/Roast/State.antt =====
-- A session's state: pigagent/roast/types.py and the class RoastState of pigagent/roast/state.py, with
-- its form in Redis.
use pigugu_server.Common.{
  ℕ, String, Bool, false, Option, none, some, List, [], if◌then◌else◌, str_eq,
}
use pigugu_server.Common.Int.{ℤ}

pub data Mode : Type 0 where
  roast_together debate : Mode

pub data Phase : Type 0 where
  active closing settled closed : Phase

-- str(mode), str(phase)
unfoldable pub mode_name : Mode → String
mode_name roast_together = "roast_together"
mode_name debate = "debate"

unfoldable pub phase_name : Phase → String
phase_name active = "active"
phase_name closing = "closing"
phase_name settled = "settled"
phase_name closed = "closed"

-- Mode(text), Phase(text); `none` is a ValueError
unfoldable pub read_mode : String → Option Mode
read_mode s =
    if str_eq s "roast_together"
    then some roast_together
    else if str_eq s "debate"
    then some debate
    else none

unfoldable pub read_phase : String → Option Phase
read_phase s =
    if str_eq s "active"
    then some active
    else if str_eq s "closing"
    then some closing
    else if str_eq s "settled"
    then some settled
    else if str_eq s "closed"
    then some closed
    else none

-- an entry of extra["scores"]
pub record RoundScore : Type 0 where
  pub round : ℕ
  pub score : ℕ
  pub rating : String
  pub quote : Option String

-- an entry of extra["debate_history"]
pub record DebateTurn : Type 0 where
  pub turn : ℕ
  pub length : ℕ
  pub has_data : Bool

-- An entry of extra["support_history"]; a support is in hundredths of a percent.
pub record Support : Type 0 where
  pub round : ℕ
  pub user : ℕ
  pub opponent : ℕ
  pub shift : ℤ

-- The keys of `extra` that the modes read or write; an absent key is its default.
pub record Extra : Type 0 where
  pub best_take : String
  pub settled_flag : Bool
  pub scores : List RoundScore
  pub strong_points : ℕ
  pub debate_history : List DebateTurn
  pub support_history : List Support
  pub ko : Bool
  pub headline : String
  pub source : String

abbrev pub no_extra : Extra
no_extra = record {
  best_take = "";
  settled_flag = false;
  scores = [];
  strong_points = 0;
  debate_history = [];
  support_history = [];
  ko = false;
  headline = "";
  source = "";
}

pub record RoastState : Type 0 where
  pub user_id : String
  pub persona_id : ℕ
  pub roast_id : String
  pub mode : Mode
  pub roast_instance_id : String
  pub phase : Phase
  pub turn_count : ℕ
  pub started_at : ℕ
  pub extra : Extra

-- what `to_dict` builds and Redis keeps
pub record Saved : Type 0 where
  pub roast_instance_id : String
  pub user_id : String
  pub persona_id : ℕ
  pub roast_id : String
  pub mode : String
  pub phase : String
  pub turn_count : ℕ
  pub started_at : ℕ
  pub extra : Extra

unfoldable pub to_dict : RoastState → Saved
to_dict s = record {
  roast_instance_id = s.roast_instance_id;
  user_id = s.user_id;
  persona_id = s.persona_id;
  roast_id = s.roast_id;
  mode = mode_name s.mode;
  phase = phase_name s.phase;
  turn_count = s.turn_count;
  started_at = s.started_at;
  extra = s.extra;
}

abbrev pub rebuild : Saved → Option Mode → Option Phase → Option RoastState
rebuild d (some m) (some p) = some (record {
  user_id = d.user_id;
  persona_id = d.persona_id;
  roast_id = d.roast_id;
  mode = m;
  roast_instance_id = d.roast_instance_id;
  phase = p;
  turn_count = d.turn_count;
  started_at = d.started_at;
  extra = d.extra;
})
rebuild d _ _ = none

unfoldable pub from_dict : Saved → Option RoastState
from_dict d = rebuild d (read_mode d.mode) (read_phase d.phase)
