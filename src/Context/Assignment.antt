-- ===== src/Context/Assignment.antt =====
-- Which game a turn belongs to: RoastState of pigagent/context/roast.py. Times are in seconds, rounded down.
use mathlib.Core.List.{reverse}
use pigugu_server.Common.{
  ℕ, ◌+◌, String, Bool, true, false, Option, none, some, List, [], ◌∷◌, if◌then◌else◌, str_eq, ltb,
  find, is_some,
}
use pigugu_server.Context.Record.{ConversationRecord}

-- _STALE_SECONDS
abbrev pub stale_seconds : ℕ
stale_seconds = 86400

-- an id that is there and not empty
abbrev pub given_id : Option String → Option String
given_id none = none
given_id (some s) = if str_eq s "" then none else some s

abbrev pub last_id : List ConversationRecord → Option String
last_id [] = none
last_id (r ∷ rs) = r.roast_instance_id

-- the id of the last record
unfoldable pub current_roast_instance_id : List ConversationRecord → Option String
current_roast_instance_id rs = last_id (reverse rs)

-- bool(records) and records[-1].roast_instance_id is not None
unfoldable pub is_active_game : List ConversationRecord → Bool
unfolding current_roast_instance_id
is_active_game rs = is_some (current_roast_instance_id rs)

abbrev pub has_id : String → ConversationRecord → Bool
has_id rid r = elim r.roast_instance_id [ none ↦ false | some i ↦ str_eq i rid ]

-- (ts - r.created_at) > _STALE_SECONDS
abbrev pub is_late : ℕ → ConversationRecord → Bool
is_late ts r = ltb (r.created_at + stale_seconds) ts

abbrev pub stale_since : ℕ → Option ConversationRecord → Bool
stale_since ts none = true
stale_since ts (some r) = is_late ts r

-- the game began more than a day before: its first record is that old
unfoldable pub is_stale : List ConversationRecord → ℕ → Bool
unfolding current_roast_instance_id
is_stale history ts = elim (given_id (current_roast_instance_id history)) [
  | none ↦ true
  | some rid ↦ stale_since ts (find (has_id rid) history)
]

-- the id that a turn gets: its own, or that of the game that goes on, unless it is stale
unfoldable pub assigned_id : List ConversationRecord → ConversationRecord → Option String
unfolding is_stale
assigned_id history current = elim (given_id current.roast_instance_id) [
  | some rid ↦ some rid
  | none ↦ elim (given_id (current_roast_instance_id history)) [
    | none ↦ none
    | some prev ↦ if is_stale history current.created_at then none else some prev
  ]
]

unfoldable pub assign_roast_instance_id :
    List ConversationRecord → ConversationRecord → ConversationRecord
unfolding assigned_id
assign_roast_instance_id history current = record current {
  roast_instance_id = assigned_id history current;
}
