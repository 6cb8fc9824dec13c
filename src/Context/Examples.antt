-- ===== src/Context/Examples.antt =====
-- Tests and concrete inputs of the conversation context.
use pigugu_server.Common.{
  ℕ, ◌+◌, ◌<◌, ◌≡◌, refl, String, true, false, Option, none, some, List, [], ◌∷◌, arith, All,
  select,
}
use pigugu_server.Common.Int.{pos, negsuc}
use pigugu_server.Context.Record.{ConversationRecord, user, is_after}
use pigugu_server.Context.Memory.{Summary, empty_memory, no_summary, is_real, get_last_turn_number}
use pigugu_server.Context.Storage.{Redis, Pg, flush_one, redis_read_summaries, latest}
use pigugu_server.Context.Assignment.{is_active_game}
use pigugu_server.Context.Recording.{Session, NewTurn, add_turn, new_record}
use pigugu_server.Context.Assembly.{strip_label}
use pigugu_server.Context.View.{assemble}
use pigugu_server.Context.Compression.{
  Model, Config, Stores, should_compress, should_compress_l4, get_virtual,
}
use pigugu_server.Context.Scenarios.{wants_l4, in_game_after, anchor_of, latest_rid, run_compressor}
use pigugu_server.Context.Numbering.{Rise, add_turn-Rise}
use pigugu_server.Context.Recovery.{cold, recovered_counter_collides}
use pigugu_server.Context.Lost.{old_history, anchor_in, uncompressed_history_lost}

abbrev turn : ℕ → String → Option String → ConversationRecord
turn n content rid = record {
  turn_number = pos n;
  role = user;
  content = content;
  created_at = 100;
  roast_instance_id = rid;
  tool_calls = none;
  tool_call_id = none;
  name = none;
  partial = false;
}

abbrev no_redis : Redis
no_redis = record {
  is_up = false;
  turns = [];
  summaries = none;
  game_state = [];
  compressing = false;
}

abbrev no_pg : Pg
no_pg = record { is_up = false; conversations = []; facts = []; profile = ""; summary_rows = [] }

abbrev hello : NewTurn
hello = record {
  role = user;
  content = "hello";
  tool_calls = none;
  tool_call_id = none;
  name = none;
  partial = false;
  roast_instance_id = none;
}

abbrev two_turns : Session
two_turns = record {
  mem = record empty_memory { turns = turn 4 "a" none ∷ turn 7 "b" none ∷ [] };
  redis = no_redis;
  pg = no_pg;
  tasks = [];
}

add_turn-Rise_example :
    let (n, s') = add_turn 130 hello two_turns in
    Rise 0 s'.mem.turns n × (get_last_turn_number s'.mem ≡ n) × (0 < 7 → n ≡ 7 + 1)
add_turn-Rise_example = add_turn-Rise 130 hello two_turns 7 (omega arith, (omega arith, refl))

-- a database with three turns
abbrev three_rows : Pg
three_rows = record {
  is_up = true;
  conversations = (1, turn 1 "a" none) ∷ (2, turn 2 "b" none) ∷ (3, turn 3 "c" none) ∷ [];
  facts = [];
  profile = "likes tea";
  summary_rows = [];
}

recovered_counter_collides_example :
    let s = (assemble 2 120 (cold no_redis three_rows)).1 in
    let (n, s') = add_turn 130 hello s in
    (n ≡ 2 + 1) × (flush_one n (new_record 130 hello s) s.pg ≡ three_rows)
recovered_counter_collides_example =
    recovered_counter_collides 2 120 no_redis three_rows refl refl (unfold latest in refl)
      (refl, (refl, (refl, tt))) (omega arith) (omega arith) 130 hello

-- a Redis with a summary and two turns after it
abbrev warm_redis : Redis
warm_redis = record {
  is_up = true;
  turns = turn 8 "c" none ∷ turn 9 "d" none ∷ [];
  summaries =
      some
        (record no_summary { end_turn = 7; l3_session = "they talked"; l2_profile = "likes tea" });
  game_state = [];
  compressing = false;
}

abbrev resumed : Session
resumed = record { mem = empty_memory; redis = warm_redis; pg = no_pg; tasks = [] }

-- a model that always answers
abbrev a_model : Model
a_model = record {
  facts = λ ms. some (("likes tea", "food") ∷ []);
  compress = λ ms. some "summary";
  merge = λ old ms. some "merged";
  roast = λ old ms. some "history";
  profile = λ fs old. some "a tea drinker";
  tokens = λ ms. 300;
  text_tokens = λ t. 10;
}

abbrev a_config : Config
a_config = record { token_cap = 200; max_turns = 100; roast_threshold = 1000 }

-- a game that has a history, with its prompt and two turns
abbrev game_records : List ConversationRecord
game_records =
    record (turn 0 "[Game history]\nthey argued" none) { turn_number = negsuc 0 }
    ∷ turn 8 "the rules" (some "g")
    ∷ turn 9 "hi" (some "g")
    ∷ turn 10 "ho" (some "g")
    ∷ []

abbrev game_stores : Stores
game_stores = record { mem = empty_memory; redis = warm_redis; pg = three_rows }

game_waits :
    wants_l4 a_model a_config
      (old_history game_records)
      (select
        (in_game_after (anchor_in "g" game_records warm_redis).turn "g")
        (select is_real game_records))
      game_records
    ≡ false
unfolding wants_l4 should_compress_l4 anchor_of get_virtual strip_label redis_read_summaries
game_waits = refl

uncompressed_history_lost_example :
    (d : Summary) × (redis_read_summaries
        (run_compressor a_model a_config game_records "" game_stores).redis
      ≡ some d)
    × (d.l4_roast ≡ "")
    × (d.roast_id ≡ "g")
    × All (λ r. is_after d.end_turn r.turn_number ≡ false) (select is_real game_records)
unfolding should_compress is_active_game latest_rid
uncompressed_history_lost_example =
    uncompressed_history_lost a_model a_config game_records "" game_stores "g" 10 refl refl refl
      refl (omega arith, (omega arith, (omega arith, refl))) game_waits
