-- ===== src/Context/Memory.antt =====
-- The store in memory of one session: pigagent/context/storage/memory.py. The summaries are one record, and
-- `none` stands for the empty dict.
use mathlib.Core.List.{◌++◌, reverse}
use pigugu_server.Common.{
  ℕ, String, Bool, not, Option, none, some, List, [], ◌∷◌, find, select, take_last,
}
use pigugu_server.Common.Dict.{Dict}
use pigugu_server.Common.Int.{pos_part}
use pigugu_server.Context.Record.{ConversationRecord, is_after}

-- the layers that a compression writes, with the turn that they reach to
pub record Summary : Type 0 where
  pub end_turn : ℕ
  pub l2_profile : String
  pub l3_session : String
  pub l4_roast : String
  pub roast_id : String
  pub roast_prompt : String
  pub roast_prompt_turn : ℕ

-- what `data.get(...)` reads where the dict is empty
abbrev pub no_summary : Summary
no_summary = record {
  end_turn = 0;
  l2_profile = "";
  l3_session = "";
  l4_roast = "";
  roast_id = "";
  roast_prompt = "";
  roast_prompt_turn = 0;
}

abbrev pub summary_of : Option Summary → Summary
summary_of none = no_summary
summary_of (some d) = d

pub record Memory : Type 0 where
  pub turns : List ConversationRecord
  pub summaries : Option Summary
  pub game_state : Dict String
  pub compressing_flag : Bool

abbrev pub empty_memory : Memory
empty_memory = record {
  turns = [];
  summaries = none;
  game_state = [];
  compressing_flag = Bool.false;
}

-- a turn of the conversation: the summaries in the list have numbers of 0 and below
abbrev pub is_real : ConversationRecord → Bool
is_real r = is_after 0 r.turn_number

abbrev pub is_virtual : ConversationRecord → Bool
is_virtual r = not (is_real r)

unfoldable pub push_turn : ConversationRecord → Memory → Memory
push_turn r m = record m { turns = m.turns ++ r ∷ [] }

-- the summaries in the list, and the last `n` turns after the anchor
unfoldable pub hot_turns : ℕ → ℕ → List ConversationRecord → List ConversationRecord
hot_turns n after_anchor rs =
    select is_virtual rs ++ take_last n (select (λ r. is_after after_anchor r.turn_number) rs)

abbrev pub get_hot_turns : ℕ → Memory → List ConversationRecord
get_hot_turns n m = hot_turns n 0 m.turns

abbrev pub number_of : Option ConversationRecord → ℕ
number_of none = 0
number_of (some r) = pos_part r.turn_number

-- the number of the last turn, or 0
unfoldable pub get_last_turn_number : Memory → ℕ
get_last_turn_number m = number_of (find is_real (reverse m.turns))

unfoldable pub set_compressing : Bool → Memory → Memory
set_compressing b m = record m { compressing_flag = b }

unfoldable pub write_summaries : Summary → Memory → Memory
write_summaries d m = record m { summaries = some d }

unfoldable pub write_game_state : Dict String → Memory → Memory
write_game_state g m = record m { game_state = g }

unfoldable pub load_all : List ConversationRecord → Option Summary → Memory → Memory
load_all rs d m = record m { turns = rs; summaries = d }
