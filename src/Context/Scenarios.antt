-- ===== src/Context/Scenarios.antt =====
-- The run of a compression: ContextCompressor.run with its two scenarios, _run_free_chat and _run_roast, of
-- pigagent/context/compression/compressor.py, and the tasks of a session. The calls of the model that run at
-- the same time do not share state, so they stand one after another.
use mathlib.Core.List.{reverse}
use pigugu_server.Common.{
  ℕ, max, ltb, String, Bool, true, false, not, ◌&&◌, ◌||◌, Option, none, some, List, [], ◌∷◌,
  if◌then◌else◌, ◌==◌, str_eq, find, map, select, length,
}
use pigugu_server.Common.Int.{negsuc, pos_part}
use pigugu_server.Context.Record.{ConversationRecord}
use pigugu_server.Context.Memory.{Memory, Summary, summary_of, is_real}
use pigugu_server.Context.Storage.{redis_read_summaries, redis_push_turn, flush_one}
use pigugu_server.Context.Assignment.{has_id, is_active_game}
use pigugu_server.Context.Assembly.{prompt_text, prompt_number}
use pigugu_server.Context.Recording.{
  Session, Task, push_redis, flush_pg, rewarm, compress, hot_window, rewarm_redis,
}
use pigugu_server.Context.View.{to_message}
use pigugu_server.Context.Compression.{
  Model, Config, extract_facts, compress_l3, compress_roast, should_compress, should_compress_l4,
  is_given, get_virtual, stripped_or, is_profile, last_of, Stores, mark_compressing, write_l2,
  persist_summaries, rebuild_memory,
}

abbrev pub chat_summary : ℕ → String → String → Summary
chat_summary end_turn l2 l3 = record {
  end_turn = end_turn;
  l2_profile = l2;
  l3_session = l3;
  l4_roast = "";
  roast_id = "";
  roast_prompt = "";
  roast_prompt_turn = 0;
}

-- the summary goes to the stores, and the mark is taken away
unfoldable pub finish_compression : Summary → Stores → Stores
unfolding rebuild_memory persist_summaries mark_compressing
finish_compression d s = mark_compressing false (rebuild_memory d (persist_summaries d s))

-- the records without the profile
abbrev pub without_profile : List ConversationRecord → List ConversationRecord
without_profile rs = select (λ r. not (is_profile r)) rs

-- the body of _run_free_chat, where there are turns
unfoldable pub free_chat : Model → String → List ConversationRecord → Stores → Stores
unfolding finish_compression
free_chat llm existing rs s =
    let real = select is_real rs in
    let old = stripped_or existing (get_virtual (negsuc 1) rs) in
    let facts = extract_facts llm (map to_message (without_profile rs)) in
    let l3 = compress_l3 llm old (map to_message real) in
    let (l2, s') = write_l2 llm facts s in finish_compression (chat_summary (last_of real) l2 l3) s'

unfoldable pub run_free_chat : Model → String → List ConversationRecord → Stores → Stores
unfolding free_chat mark_compressing
run_free_chat llm existing rs s = elim (select is_real rs) [
  | [] ↦ mark_compressing false (mark_compressing true s)
  | r ∷ real ↦ free_chat llm existing rs (mark_compressing true s)
]

abbrev pub id_of : ConversationRecord → String
id_of r = elim r.roast_instance_id [ none ↦ "" | some i ↦ i ]

-- the id of the last turn that has one
unfoldable pub latest_rid : List ConversationRecord → Option String
latest_rid real = elim (find (λ r. is_given r.roast_instance_id) (reverse real)) [
  | none ↦ none
  | some r ↦ some (id_of r)
]

-- the turn of the prompt and its text
pub record Anchor : Type 0 where
  pub turn : ℕ
  pub text : String

-- the game's first turn, or the prompt that the last summary remembers, if that is earlier
unfoldable pub anchor_of : String → List ConversationRecord → Summary → Anchor
anchor_of rid real stored =
    let first = find (has_id rid) real in
    let turn = prompt_number first in
    if str_eq stored.roast_id rid
      && (ltb 0 stored.roast_prompt_turn && (turn == 0 || ltb stored.roast_prompt_turn turn))
    then record { turn = stored.roast_prompt_turn; text = stored.roast_prompt }
    else record { turn = turn; text = prompt_text first }

abbrev pub before : ℕ → ConversationRecord → Bool
before n r = ltb (pos_part r.turn_number) n

abbrev pub in_game_after : ℕ → String → ConversationRecord → Bool
in_game_after n rid r = ltb n (pos_part r.turn_number) && has_id rid r

-- a first summary of a game waits for 20 turns
unfoldable pub wants_l4 :
    Model → Config → String → List ConversationRecord → List ConversationRecord → Bool
wants_l4 llm cfg existing [] rs = false
wants_l4 llm cfg existing (r ∷ l4_real) rs =
    if str_eq existing "" && ltb (length (r ∷ l4_real)) 20
    then false
    else should_compress_l4 llm cfg rs

abbrev pub game_summary : ℕ → String → String → String → String → Anchor → Summary
game_summary end_turn l2 l3 l4 rid a = record {
  end_turn = end_turn;
  l2_profile = l2;
  l3_session = l3;
  l4_roast = l4;
  roast_id = rid;
  roast_prompt = a.text;
  roast_prompt_turn = a.turn;
}

-- the game's history: where it is not compressed, the result of the empty task is no text
unfoldable pub game_history :
    Model → Config → List ConversationRecord → List ConversationRecord → String
unfolding wants_l4
game_history llm cfg l4_real rs =
    let old = stripped_or "" (get_virtual (negsuc 0) rs) in
    if wants_l4 llm cfg old l4_real rs then compress_roast llm old (map to_message l4_real) else ""

-- the session's summary and the facts: without turns before the prompt nothing is asked of the model
unfoldable pub before_game :
    Model
    → String
    → List ConversationRecord
    → List ConversationRecord
    → List (String × String) × String
before_game llm old [] rs = ([], old)
before_game llm old (r ∷ l3_real) rs = (
  extract_facts llm (map to_message (without_profile rs)),
  compress_l3 llm old (map to_message (r ∷ l3_real)),
)

-- the body of _run_roast, for a game
unfoldable pub game_run :
    Model → Config → String → List ConversationRecord → String → Stores → Stores
unfolding finish_compression anchor_of game_history before_game
game_run llm cfg existing rs rid s =
    let real = select is_real rs in
    let a = anchor_of rid real (summary_of (redis_read_summaries s.redis)) in
    let old = stripped_or existing (get_virtual (negsuc 1) rs) in
    let (facts, l3) = before_game llm old (select (before a.turn) real) rs in
    let l4 = game_history llm cfg (select (in_game_after a.turn rid) real) rs in
    let (l2, s') = write_l2 llm facts s in
    finish_compression (game_summary (max (last_of real) a.turn) l2 l3 l4 rid a) s'

unfoldable pub run_roast : Model → Config → String → List ConversationRecord → Stores → Stores
unfolding game_run latest_rid mark_compressing
run_roast llm cfg existing rs s = elim (latest_rid (select is_real rs)) [
  | none ↦ mark_compressing false (mark_compressing true s)
  | some rid ↦ game_run llm cfg existing rs rid (mark_compressing true s)
]

-- ContextCompressor.run
unfoldable pub run_compressor : Model → Config → List ConversationRecord → String → Stores → Stores
unfolding run_free_chat run_roast
run_compressor llm cfg rs existing s =
    let game = run_roast llm cfg existing rs s in
    let chat = run_free_chat llm existing rs s in
    if should_compress llm cfg existing (select is_real rs)
    then if is_active_game rs then game else chat
    else s

-- a task of the session runs. `own` is the memory of the compressor, which is another object than the
-- manager's (`self._mem = MemoryStore()` in both)
unfoldable pub run_task : Model → Config → Task → Session × Memory → Session × Memory
unfolding run_compressor rewarm_redis
run_task llm cfg (push_redis t) (s, own) =
    (record s { redis = redis_push_turn hot_window t s.redis }, own)
run_task llm cfg (flush_pg n t) (s, own) = (record s { pg = flush_one n t s.pg }, own)
run_task llm cfg (rewarm d ts) (s, own) = (record s { redis = rewarm_redis d ts s.redis }, own)
run_task llm cfg (compress rs text) (s, own) =
    let after = run_compressor llm cfg rs text (record { mem = own; redis = s.redis; pg = s.pg }) in
    (record s { redis = after.redis; pg = after.pg }, after.mem)
