-- ===== src/Context/Storage.antt =====
-- The stores behind the memory: RedisStorage of pigagent/context/storage/redis.py and PgStorage of
-- pigagent/context/storage/pg.py, for one user. A store that has no client and one whose calls fail read
-- alike: `is_up` is false. The expiry of the keys after seven days is not modelled.
use pigugu_server.Common.{
  ℕ, ◌*◌, max, String, Bool, Option, none, some, List, [], ◌∷◌, ◌++◌, if◌then◌else◌, str_eq, ltb,
  leb, ◌==◌, any, map, select, take_last, take,
}
use pigugu_server.Common.Dict.{Dict}
use pigugu_server.Common.Int.{pos, pos_part}
use pigugu_server.Context.Record.{ConversationRecord, is_after}
use pigugu_server.Context.Memory.{Summary}

pub record Redis : Type 0 where
  pub is_up : Bool
  pub turns : List ConversationRecord
  pub summaries : Option Summary
  pub game_state : Dict String
  pub compressing : Bool

-- RedisStorage.get_hot_turns: it reads at most three times the number of turns
unfoldable pub redis_hot_turns : ℕ → ℕ → Redis → List ConversationRecord
redis_hot_turns n after_anchor r =
    let raw = take_last (max (n * 3) 30) r.turns in
    let records =
      if after_anchor == 0 then raw else select (λ t. is_after after_anchor t.turn_number) raw in
    if r.is_up then take_last n records else []

-- the number in the first of the records, or 0
abbrev pub first_number : List ConversationRecord → ℕ
first_number [] = 0
first_number (t ∷ ts) = pos_part t.turn_number

unfoldable pub redis_last_turn_number : Redis → ℕ
unfolding redis_hot_turns
redis_last_turn_number r = first_number (redis_hot_turns 1 0 r)

-- RedisStorage.push_turn: RPUSH and LTRIM to the window
unfoldable pub redis_push_turn : ℕ → ConversationRecord → Redis → Redis
redis_push_turn window t r =
    if r.is_up then record r { turns = take_last window (r.turns ++ t ∷ []) } else r

unfoldable pub redis_read_summaries : Redis → Option Summary
redis_read_summaries r = if r.is_up then r.summaries else none

unfoldable pub redis_write_summaries : Summary → Redis → Redis
redis_write_summaries d r = if r.is_up then record r { summaries = some d } else r

unfoldable pub redis_read_game_state : Redis → Dict String
redis_read_game_state r = if r.is_up then r.game_state else []

unfoldable pub redis_set_compressing : Bool → Redis → Redis
redis_set_compressing b r = if r.is_up then record r { compressing = b } else r

-- a row of agent_conversations: its number with the record
abbrev pub Row : Type 0
Row = ℕ × ConversationRecord

pub record Pg : Type 0 where
  pub is_up : Bool
  -- in the order of the key
  pub conversations : List Row
  -- facts, the latest first
  pub facts : List (String × String)
  pub profile : String
  pub summary_rows : List Summary

-- INSERT ... ON CONFLICT (user_id, turn_number) DO NOTHING
unfoldable pub insert_row : Row → List Row → List Row
insert_row w [] = w ∷ []
insert_row w (x ∷ xs) =
    let rest = insert_row w xs in
    if ltb w.0 x.0 then w ∷ x ∷ xs else if w.0 == x.0 then x ∷ xs else x ∷ rest

unfoldable pub flush_one : ℕ → ConversationRecord → Pg → Pg
unfolding insert_row
flush_one n t p =
    if p.is_up then record p { conversations = insert_row (n, t) p.conversations } else p

-- COALESCE(MAX(turn_number), 0)
unfoldable pub max_number : List Row → ℕ
max_number [] = 0
max_number (x ∷ xs) = max x.0 (max_number xs)

unfoldable pub recover_turn_counter : Pg → ℕ
unfolding max_number
recover_turn_counter p = if p.is_up then max_number p.conversations else 0

-- SELECT ... WHERE turn_number > after ORDER BY turn_number LIMIT limit
unfoldable pub recover_turns : ℕ → ℕ → Pg → List ConversationRecord
recover_turns after_turn limit p =
    if p.is_up
    then map (λ (w : Row). record (w.1) { turn_number = pos (w.0) })
        (take limit (select (λ (w : Row). ltb after_turn w.0) p.conversations))
    else []

abbrev pub is_fact : String → String × String → Bool
is_fact f g = str_eq g.0 f

-- INSERT ... ON CONFLICT (user_id, fact) DO NOTHING, for each fact
unfoldable pub insert_facts :
    List (String × String) → List (String × String) → List (String × String)
insert_facts [] old = old
insert_facts (f ∷ fs) old = insert_facts fs (if any (is_fact f.0) old then old else f ∷ old)

unfoldable pub persist_facts : List (String × String) → Pg → Pg
unfolding insert_facts
persist_facts fs p = if p.is_up then record p { facts = insert_facts fs p.facts } else p

unfoldable pub read_new_facts : Pg → List (String × String)
read_new_facts p = if p.is_up then p.facts else []

unfoldable pub read_profile : Pg → String
read_profile p = if p.is_up then p.profile else ""

unfoldable pub upsert_profile : String → Pg → Pg
upsert_profile t p = if p.is_up then record p { profile = t } else p

abbrev pub has_end_turn : ℕ → Summary → Bool
has_end_turn n d = d.end_turn == n

-- INSERT ... ON CONFLICT (user_id, end_turn) DO NOTHING
unfoldable pub write_summary_row : Summary → Pg → Pg
write_summary_row d p =
    if p.is_up
    then if any (has_end_turn d.end_turn) p.summary_rows
      then p
      else record p { summary_rows = d ∷ p.summary_rows }
    else p

abbrev pub later_of : Summary → Option Summary → Option Summary
later_of d none = some d
later_of d (some e) = if leb e.end_turn d.end_turn then some d else some e

-- ORDER BY end_turn DESC LIMIT 1
unfoldable pub latest : List Summary → Option Summary
latest [] = none
latest (d ∷ ds) = later_of d (latest ds)

unfoldable pub read_latest_summary : Pg → Option Summary
unfolding latest
read_latest_summary p = if p.is_up then latest p.summary_rows else none
