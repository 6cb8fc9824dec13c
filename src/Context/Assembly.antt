-- ===== src/Context/Assembly.antt =====
-- The assembly of the context: ContextManager.assemble of pigagent/context/manager.py, with
-- WorkingContext.to_records and to_messages of pigagent/context/schema.py. The clock is an argument; the size
-- of the window is CONTEXT_HOT_WINDOW_SIZE. The token budget, which only counts, is not modelled here.
use Prim.Native.Char.{code}
use Prim.Native.String.{◌++◌ as str_append}
use pigugu_server.Common.{
  ℕ, String, Bool, ◌&&◌, Option, none, some, List, [], ◌∷◌, ◌++◌, if◌then◌else◌, ◌==◌, str_eq, find,
}
use pigugu_server.Common.Dict.{Dict}
use pigugu_server.Common.Int.{ℤ, pos, negsuc, pos_part}
use pigugu_server.Context.Record.{system, ConversationRecord}
use pigugu_server.Context.Memory.{
  Memory, Summary, summary_of, get_hot_turns, write_summaries, write_game_state, load_all, is_real,
}
use pigugu_server.Context.Storage.{
  Pg, redis_hot_turns, redis_read_summaries, redis_read_game_state, read_latest_summary,
  read_profile, recover_turns,
}
use pigugu_server.Context.Assignment.{has_id, given_id, current_roast_instance_id}
use pigugu_server.Context.Recording.{Session, Task, rewarm}

-- the summary and the records that were found, with the session
pub record Loaded : Type 0 where
  pub summary : Option Summary
  pub records : List ConversationRecord
  pub session : Session

-- L1: the memory
unfoldable pub from_memory : ℕ → Session → Loaded
from_memory window s = record {
  summary = s.mem.summaries;
  records = get_hot_turns window s.mem;
  session = s;
}

abbrev pub keep_summary : Option Summary → Session → Session
keep_summary none s = s
keep_summary (some d) s = record s { mem = write_summaries d s.mem }

-- the records, and the memory filled with them unless there are none
abbrev pub fill : Option Summary → List ConversationRecord → List Task → Session → Loaded
fill d [] ts s = record { summary = d; records = []; session = s }
fill d (r ∷ rs) ts s = record {
  summary = d;
  records = r ∷ rs;
  session = record s { mem = load_all (r ∷ rs) d s.mem; tasks = s.tasks ++ ts };
}

-- L2: Redis, where there are no records; its summary only where the memory has neither
unfoldable pub from_redis : ℕ → Loaded → Loaded
from_redis window l = elim l.records [
  | r ∷ rs ↦ l
  | [] ↦ elim l.summary [
    | some d ↦ fill (some d) (redis_hot_turns window d.end_turn l.session.redis) [] l.session
    | none ↦
        let d = redis_read_summaries l.session.redis in
        fill d (redis_hot_turns window (summary_of d).end_turn l.session.redis) []
          (keep_summary d l.session)
  ]
]

abbrev pub profile_summary : String → Option Summary → Option Summary
profile_summary text old =
    if str_eq text ""
    then old
    else some (record {
      end_turn = 0;
      l2_profile = text;
      l3_session = "";
      l4_roast = "";
      roast_id = "";
      roast_prompt = "";
      roast_prompt_turn = 0;
    })

-- the summary in PostgreSQL, else the profile alone
unfoldable pub pg_summary : Pg → Option Summary → Option Summary
pg_summary p old = elim (read_latest_summary p) [
  | some d ↦ some d
  | none ↦ profile_summary (read_profile p) old
]

-- L3: PostgreSQL, where memory and Redis have no records
unfoldable pub from_pg : ℕ → Loaded → Loaded
unfolding pg_summary
from_pg window l = elim l.records [
  | r ∷ rs ↦ l
  | [] ↦
      let d = pg_summary l.session.pg l.summary in
      let rs = recover_turns (summary_of d).end_turn window l.session.pg in
      if l.session.pg.is_up then fill d rs (rewarm (summary_of d) rs ∷ []) l.session else l
]

abbrev pub virtual_record : ℤ → ℕ → String → Option String → ConversationRecord
virtual_record n now content rid = record {
  turn_number = n;
  role = system;
  content = content;
  created_at = now;
  roast_instance_id = rid;
  tool_calls = none;
  tool_call_id = none;
  name = none;
  partial = Bool.false;
}

-- a layer of the summary as a record, unless it is empty
abbrev pub layer : ℤ → String → ℕ → String → Option String → List ConversationRecord
layer n title now text rid =
    if str_eq text "" then [] else virtual_record n now (str_append title text) rid ∷ []

unfoldable pub layers : ℕ → Summary → List ConversationRecord
layers now d =
    layer (negsuc 2) "[L2 Profile]\n" now d.l2_profile none
    ++ layer (negsuc 1) "[L3 Session]\n" now d.l3_session none
    ++ layer (negsuc 0) "[Game history]\n" now d.l4_roast (some d.roast_id)

-- _rebuild_records_with_summary
unfoldable pub rebuild_records : ℕ → Summary → List ConversationRecord → List ConversationRecord
unfolding layers
rebuild_records now d rs = layers now d ++ rs

-- the summary becomes records at the head of the list, and the memory forgets it
unfoldable pub use_up : ℕ → Loaded → Loaded
unfolding rebuild_records load_all
use_up now l =
    let rs = rebuild_records now (summary_of l.summary) l.records in
    record {
      summary = none;
      records = rs;
      session = record (l.session) { mem = load_all rs none l.session.mem };
    }

-- a summary with a session text is used once
unfoldable pub consume_summary : ℕ → Loaded → Loaded
consume_summary now l = if str_eq (summary_of l.summary).l3_session "" then l else use_up now l

-- the three sources, in their order
unfoldable pub load_layers : ℕ → Session → Loaded
unfolding from_memory from_redis from_pg
load_layers window s = from_pg window (from_redis window (from_memory window s))

-- what follows the first line break
unfoldable pub after_newline : String → Option String
after_newline String.[] = none
after_newline (String.◌∷◌ c s) = if code c == 10 then some s else after_newline s

unfoldable pub strip_label : String → String
unfolding after_newline
strip_label s = elim (after_newline s) [ none ↦ s | some rest ↦ rest ]

pub record RoastContext : Type 0 where
  pub roast_instance_id : String
  pub prompt : String
  pub prompt_turn : ℕ
  pub summary : String

abbrev pub is_minus_one : ℤ → Bool
is_minus_one (negsuc n) = n == 0
is_minus_one (pos n) = Bool.false

abbrev pub is_game_summary : String → ConversationRecord → Bool
is_game_summary rid r = is_minus_one r.turn_number && has_id rid r

abbrev pub is_game_turn : String → ConversationRecord → Bool
is_game_turn rid r = is_real r && has_id rid r

abbrev pub summary_text : Option ConversationRecord → String
summary_text none = ""
summary_text (some r) = strip_label r.content

abbrev pub prompt_text : Option ConversationRecord → String
prompt_text none = ""
prompt_text (some r) = r.content

abbrev pub prompt_number : Option ConversationRecord → ℕ
prompt_number none = 0
prompt_number (some r) = pos_part r.turn_number

abbrev pub or_text : String → String → String
or_text a b = if str_eq a "" then b else a

-- _load_roast_context, over the records in memory, with the summary's fields as fallbacks
unfoldable pub load_roast_context : String → Summary → Memory → RoastContext
load_roast_context rid d m =
    let rs = get_hot_turns 9999 m in
    let first = find (is_game_turn rid) rs in
    record {
      roast_instance_id = rid;
      summary = or_text (summary_text (find (is_game_summary rid) rs)) d.l4_roast;
      prompt = or_text (prompt_text first) d.roast_prompt;
      prompt_turn = if prompt_number first == 0 then d.roast_prompt_turn else prompt_number first;
    }

pub record WorkingContext : Type 0 where
  pub raw_records : List ConversationRecord
  pub summary : String
  pub summary_end_turn : ℕ
  pub game_state : Dict String
  pub turn_count : ℤ
  pub profile : String
  pub roast : Option RoastContext

-- the game state in memory, else the one in Redis, which is kept
unfoldable pub load_game_state : Session → Dict String × Session
load_game_state s = elim s.mem.game_state [
  | g ∷ gs ↦ (g ∷ gs, s)
  | [] ↦ elim (redis_read_game_state s.redis) [
    | [] ↦ ([], s)
    | g ∷ gs ↦ (g ∷ gs, record s { mem = write_game_state (g ∷ gs) s.mem })
  ]
]

abbrev pub first_turn : List ConversationRecord → ℤ
first_turn [] = pos 0
first_turn (r ∷ rs) = r.turn_number

-- the game of the last record, with the summary that was read before it was used up
unfoldable pub load_roast : Summary → Loaded → Option RoastContext
unfolding load_roast_context
load_roast d l = elim (given_id (current_roast_instance_id l.records)) [
  | none ↦ none
  | some rid ↦ some (load_roast_context rid d l.session.mem)
]

unfoldable pub working_context : Summary → Dict String → Loaded → WorkingContext
unfolding load_roast
working_context read g l =
    let left = summary_of l.summary in
    record {
      raw_records = l.records;
      summary = left.l3_session;
      summary_end_turn = if str_eq left.l3_session "" then 0 else left.end_turn;
      game_state = g;
      turn_count = first_turn l.records;
      profile = left.l2_profile;
      roast = load_roast read l;
    }
