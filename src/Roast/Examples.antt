-- ===== src/Roast/Examples.antt =====
-- Games under way, and the theorems about the roast games at them.
use pigugu_server.Common.{◌≡◌, refl, String, true, false, none, some, [], ◌∷◌, arith}
use pigugu_server.Common.Int.{pos}
use pigugu_server.Context.Record.{ConversationRecord, user, system}
use pigugu_server.Roast.State.{
  roast_together, debate, active, closed, RoastState, no_extra, to_dict,
}
use pigugu_server.Roast.Storage.{up, Store, start, load_active}
use pigugu_server.Roast.Judging.{Verdict, no_verdict, direct}
use pigugu_server.Roast.Triggers.{Template}
use pigugu_server.Roast.Tick.{tick}
use pigugu_server.Roast.Sessions.{load_active-start}
use pigugu_server.Roast.Turns.{IsOngoing, tick-IsOngoing}
use pigugu_server.Roast.Endings.{eighth_turn_phase}

abbrev a_game : RoastState
a_game = record {
  user_id = "u1";
  persona_id = 4;
  roast_id = "r1";
  mode = debate;
  roast_instance_id = "s1";
  phase = active;
  turn_count = 7;
  started_at = 100;
  extra = record no_extra { strong_points = 3 };
}

abbrev a_together : RoastState
a_together = record a_game { mode = roast_together }

abbrev a_closed_game : RoastState
a_closed_game = record a_game { phase = closed }

abbrev live : Store
live = record { redis = up; pg = up; sessions = []; pending = []; published = []; history = [] }

abbrev live_with_game : Store
live_with_game = record live { sessions = ("u1", to_dict a_game) ∷ [] }

abbrev a_turn : ConversationRecord
a_turn = record {
  turn_number = pos 3;
  role = user;
  content = "no";
  created_at = 5;
  roast_instance_id = some "s1";
  tool_calls = none;
  tool_call_id = none;
  name = none;
  partial = false;
}

abbrev an_old_body : ConversationRecord
an_old_body = record a_turn {
  role = system;
  content = "[Game Background]\nold";
  roast_instance_id = some "s0";
}

abbrev a_template : Template → String
a_template t = "wrap up"

abbrev a_knock_out : Verdict
a_knock_out = record no_verdict { user_support = some 8000; inject = true; prompt = some "push" }

load_active-start_example :
    let (s, st') = start "u1" 4 "r2" debate none "s2" 200 live in
    (load_active "u1" st' ≡ some s) × (s.phase ≡ active) × (s.turn_count ≡ 0) × (s.mode ≡ debate)
load_active-start_example = load_active-start "u1" 4 "r2" debate none "s2" 200 live refl

tick-IsOngoing_example :
    let s' = (tick debate (some a_template) (some a_knock_out) (a_turn ∷ []) a_game live).0 in
    (s'.turn_count ≡ 8) × (s'.mode ≡ debate) × (s'.roast_instance_id ≡ "s1") × IsOngoing s'.phase
tick-IsOngoing_example =
    tick-IsOngoing debate (some a_template) (some a_knock_out) (a_turn ∷ []) a_game live refl

eighth_turn_phase_example :
    (tick roast_together
      (some a_template)
      (some a_knock_out)
      (a_turn ∷ [])
      (record a_together { turn_count = 99 })
      live).0.phase
    ≡ active
unfolding direct
eighth_turn_phase_example =
    eighth_turn_phase a_template (some a_knock_out) (a_turn ∷ [])
      (record a_together { turn_count = 99 }) live refl (omega arith)

abbrev a_scored_game : RoastState
a_scored_game = record a_together {
  extra = record no_extra {
    scores = (record { round = 1; score = 9; rating = "fire"; quote = some "ha" }) ∷ [];
  };
}
