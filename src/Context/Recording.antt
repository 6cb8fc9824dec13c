-- ===== src/Context/Recording.antt =====
-- The recording of a turn: ContextManager.add_turn of pigagent/context/manager.py. It runs under the lock of
-- the session; the writes to Redis and PostgreSQL are tasks that run later.
use pigugu_server.Common.{ℕ, ◌+◌, String, Bool, Option, List, [], ◌∷◌, ◌++◌, if◌then◌else◌, ◌==◌}
use pigugu_server.Common.Int.{pos}
use pigugu_server.Context.Record.{Role, ToolCall, ConversationRecord}
use pigugu_server.Context.Memory.{Memory, Summary, push_turn, get_hot_turns, get_last_turn_number}
use pigugu_server.Context.Storage.{
  Redis, Pg, redis_hot_turns, redis_last_turn_number, redis_push_turn, redis_write_summaries,
  recover_turn_counter,
}
use pigugu_server.Context.Assignment.{assign_roast_instance_id}

-- a task that waits to run
pub data Task : Type 0 where
  push_redis : ConversationRecord → Task
  flush_pg : ℕ → ConversationRecord → Task
  rewarm : Summary → List ConversationRecord → Task
  compress : List ConversationRecord → String → Task

-- the state of one session: the manager with its stores
pub record Session : Type 0 where
  pub mem : Memory
  pub redis : Redis
  pub pg : Pg
  pub tasks : List Task

-- CONTEXT_HOT_WINDOW_SIZE, at its default
abbrev pub hot_window : ℕ
hot_window = 150

-- what a caller of add_turn gives
pub record NewTurn : Type 0 where
  pub role : Role
  pub content : String
  pub tool_calls : Option (List ToolCall)
  pub tool_call_id : Option String
  pub name : Option String
  pub partial : Bool
  pub roast_instance_id : Option String

-- memory first, then Redis, then PostgreSQL
unfoldable pub resolve_turn_number : Session → ℕ
resolve_turn_number s =
    let in_memory = get_last_turn_number s.mem in
    let in_redis = redis_last_turn_number s.redis in
    let in_pg = recover_turn_counter s.pg in
    if in_memory == 0 then if in_redis == 0 then in_pg else in_redis else in_memory

abbrev pub record_of : ℕ → ℕ → NewTurn → ConversationRecord
record_of n now t = record {
  turn_number = pos n;
  role = t.role;
  content = t.content;
  created_at = now;
  roast_instance_id = t.roast_instance_id;
  tool_calls = t.tool_calls;
  tool_call_id = t.tool_call_id;
  name = t.name;
  partial = t.partial;
}

abbrev pub or_else : List ConversationRecord → List ConversationRecord → List ConversationRecord
or_else [] ys = ys
or_else (x ∷ xs) ys = x ∷ xs

-- the recent turns that decide the game of a new one
unfoldable pub recent_history : Session → List ConversationRecord
recent_history s = or_else (get_hot_turns 20 s.mem) (redis_hot_turns 20 0 s.redis)

-- the record of the turn
unfoldable pub new_record : ℕ → NewTurn → Session → ConversationRecord
unfolding recent_history resolve_turn_number
new_record now t s =
    assign_roast_instance_id (recent_history s) (record_of (resolve_turn_number s + 1) now t)

-- the tasks that a turn leaves
abbrev pub turn_tasks : ℕ → ConversationRecord → Session → List Task
turn_tasks n r s =
    (if s.redis.is_up then push_redis r ∷ [] else [])
    ++ (if s.pg.is_up then flush_pg n r ∷ [] else [])

-- the turn's number, and the session after it
unfoldable pub add_turn : ℕ → NewTurn → Session → ℕ × Session
unfolding new_record
add_turn now t s =
    let n = resolve_turn_number s + 1 in
    let r = new_record now t s in
    (n, record s { mem = push_turn r s.mem; tasks = s.tasks ++ turn_tasks n r s })

-- _rewarm_redis
unfoldable pub push_all : List ConversationRecord → Redis → Redis
push_all [] r = r
push_all (t ∷ ts) r = push_all ts (redis_push_turn hot_window t r)

unfoldable pub rewarm_redis : Summary → List ConversationRecord → Redis → Redis
unfolding push_all
rewarm_redis d ts r = push_all ts (redis_write_summaries d r)
