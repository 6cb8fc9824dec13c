-- ===== src/Roast/Storage.antt =====
-- Where a session is kept: the active session of each user and the pending prompt of each session in
-- Redis, the history in PostgreSQL (pigagent/roast/state.py, pigagent/roast/pending.py). Every failure
-- of Redis or PostgreSQL is caught and logged by the code; the expiry of keys after a day is left out.
use pigugu_server.Common.{
  ℕ, String, Bool, true, false, Option, none, some, List, if◌then◌else◌, str_eq,
}
use pigugu_server.Common.Dict
use pigugu_server.Common.Dict.{Dict}
use pigugu_server.Common.Int.{ℤ}
use pigugu_server.Roast.State.{
  Mode, Phase, active, closed, Extra, no_extra, RoastState, Saved, to_dict, from_dict,
}

-- the client that is passed around: none, one whose calls raise, or one that works
pub data Link : Type 0 where
  absent down up : Link

abbrev pub is_up : Link → Bool
is_up up = true
is_up _ = false

abbrev pub is_absent : Link → Bool
is_absent absent = true
is_absent _ = false

-- an event published for the user's App
pub data Event : Type 0 where
  roast_score :
      (user sid roast : String) (round score : ℕ) (rating : String) (quote : Option String) → Event
  debate_judge :
      (user sid roast : String) (round support against : ℕ) (shift : ℤ) (comment : String) → Event

-- a row of roast_states
pub record HistoryRow : Type 0 where
  pub user_id : String
  pub persona_id : ℕ
  pub roast_id : String
  pub mode : Mode
  pub phase : Phase
  pub turn_count : ℕ
  pub extra : Extra

pub record Store : Type 0 where
  pub redis : Link
  pub pg : Link
  pub sessions : Dict Saved
  pub pending : Dict String
  pub published : List Event
  pub history : Dict HistoryRow

unfoldable pub save_active : RoastState → Store → Store
unfolding to_dict
save_active s st =
    if is_up st.redis
    then record st { sessions = Dict.put st.sessions s.user_id (to_dict s) }
    else st

abbrev pub read_back : Option Saved → Option RoastState
read_back none = none
read_back (some d) = from_dict d

unfoldable pub load_active : String → Store → Option RoastState
load_active user st = if is_up st.redis then read_back (Dict.get st.sessions user) else none

unfoldable pub delete_active : String → Store → Store
delete_active user st =
    if is_up st.redis then record st { sessions = Dict.pop st.sessions user } else st

abbrev pub row_of : RoastState → HistoryRow
row_of s = record {
  user_id = s.user_id;
  persona_id = s.persona_id;
  roast_id = s.roast_id;
  mode = s.mode;
  phase = s.phase;
  turn_count = s.turn_count;
  extra = s.extra;
}

-- ON CONFLICT (roast_instance_id) DO UPDATE SET phase, turn_count, extra
abbrev pub upsert : RoastState → Option HistoryRow → HistoryRow
upsert s none = row_of s
upsert s (some r) = record r { phase = s.phase; turn_count = s.turn_count; extra = s.extra }

unfoldable pub save_history : RoastState → Store → Store
save_history s st =
    if is_up st.pg
    then record st {
      history =
          Dict.put st.history s.roast_instance_id
            (upsert s (Dict.get st.history s.roast_instance_id));
    }
    else st

unfoldable pub save : RoastState → Store → Store
unfolding save_active save_history
save s st = save_history s (save_active s st)

-- `close` marks the session closed, which its caller sees too
unfoldable pub close : RoastState → Store → RoastState × Store
unfolding delete_active save_history
close s st =
    let s' : RoastState = record s { phase = closed } in
    (s', delete_active s.user_id (save_history s' st))

abbrev pub is_closed : Phase → Bool
is_closed closed = true
is_closed _ = false

-- the part of `start` that ends the session before
unfoldable pub close_previous : String → Option RoastState → Store → Store
unfolding delete_active save_history
close_previous user none st = st
close_previous user (some prev) st =
    if is_closed prev.phase
    then st
    else delete_active user (save_history (record prev { phase = closed }) st)

abbrev pub or_no_extra : Option Extra → Extra
or_no_extra none = no_extra
or_no_extra (some e) = e

-- `sid` is the fresh UUID and `now` the time
unfoldable pub start :
    String
    → ℕ
    → String
    → Mode
    → Option Extra
    → (sid : String) (now : ℕ) → Store
    → RoastState × Store
unfolding close_previous save_active load_active
start user persona roast mode extra sid now st =
    let s : RoastState = record {
      user_id = user;
      persona_id = persona;
      roast_id = roast;
      mode = mode;
      roast_instance_id = sid;
      phase = active;
      turn_count = 0;
      started_at = now;
      extra = or_no_extra extra;
    } in
    (s, save_active s (close_previous user (load_active user st) st))

-- pending.write
unfoldable pub write : String → String → Store → Store
write sid prompt st =
    if is_up st.redis then record st { pending = Dict.put st.pending sid prompt } else st

abbrev pub take_prompt : String → Option String → Store → Option String × Store
take_prompt sid none st = (none, st)
take_prompt sid (some p) st =
    if str_eq p "" then (none, st) else (some p, record st { pending = Dict.pop st.pending sid })

-- pending.consume
unfoldable pub consume : String → Store → Option String × Store
consume sid st = if is_up st.redis then take_prompt sid (Dict.get st.pending sid) st else (none, st)
