-- ===== src/Agent/Interrupts.antt =====
-- The interrupt events: `InterruptManager` of pigagent/core/agent/interrupt.py, and the entry and the exit
-- of a guarded run (`_run_guarded` of pigagent/core/agent/runner.py). An event is an object: a task holds
-- it by its address also after the manager has forgotten it. Each call is one step, for the manager's lock.
use pigugu_server.Common.{
  ℕ, ◌+◌, String, Bool, true, false, Option, none, some, List, [], ◌∷◌, map, select, if◌then◌else◌,
  ltb, ◌==◌,
}
use pigugu_server.Common.Dict
use pigugu_server.Common.Dict.{Dict}

-- the event objects by their addresses, and the manager's two dicts
pub record Manager : Type 0 where
  pub flags : ℕ → Bool
  pub next : ℕ
  pub events : Dict ℕ
  pub creation_times : Dict ℕ

unfoldable pub set : ℕ → (ℕ → Bool) → ℕ → Bool
set e flags x = if x == e then true else flags x

unfoldable pub unset : ℕ → (ℕ → Bool) → ℕ → Bool
unset e flags x = if x == e then false else flags x

abbrev pub event_of : String → Manager → Option ℕ
event_of key m = Dict.get m.events key

-- event.set()
unfoldable pub set_event : ℕ → Manager → Manager
unfolding set
set_event e m = record m { flags = set e m.flags }

-- del self._events[key]; self._creation_times.pop(key, None)
unfoldable pub forget : String → Manager → Manager
forget key m = record m {
  events = Dict.pop m.events key;
  creation_times = Dict.pop m.creation_times key;
}

-- asyncio.Event(), stored under a key
unfoldable pub store_new : String → ℕ → Manager → Manager
unfolding unset
store_new key now m = record m {
  flags = unset m.next m.flags;
  next = m.next + 1;
  events = Dict.put m.events key m.next;
  creation_times = Dict.put m.creation_times key now;
}

-- an old event is set, and then replaced
unfoldable pub replace_old : String → Option ℕ → Manager → Manager
replace_old key none m = m
replace_old key (some old) m = forget key (if m.flags old then m else set_event old m)

-- InterruptManager.create: the new event and the manager
unfoldable pub create : String → ℕ → Manager → ℕ × Manager
create key now m = let m' = replace_old key (event_of key m) m in (m'.next, store_new key now m')

unfoldable pub trigger_found : String → ℕ → Option ℕ → Manager → Manager
trigger_found key now (some e) m = set_event e m
trigger_found key now none m = let (e, m') = create key now m in set_event e m'

-- InterruptManager.trigger
unfoldable pub trigger : String → ℕ → Manager → Manager
trigger key now m = trigger_found key now (event_of key m) m

abbrev pub flag_of : Manager → Option ℕ → Bool
flag_of m none = false
flag_of m (some e) = m.flags e

-- InterruptManager.is_set
unfoldable pub is_set : String → Manager → Bool
is_set key m = flag_of m (event_of key m)

unfoldable pub cleanup_found : String → Bool → Option ℕ → Manager → Manager
cleanup_found key trigger_event none m = m
cleanup_found key trigger_event (some e) m = forget key (if trigger_event then set_event e m else m)

-- InterruptManager.cleanup
unfoldable pub cleanup : String → Bool → Manager → Manager
cleanup key trigger_event m = cleanup_found key trigger_event (event_of key m) m

-- one round of _auto_cleanup
unfoldable pub cleanup_all : List String → Manager → Manager
cleanup_all [] m = m
cleanup_all (key ∷ keys) m = cleanup_all keys (cleanup key false m)

abbrev pub is_expired : ℕ → ℕ → String × ℕ → Bool
is_expired now max_age (key, created) = ltb (created + max_age) now

unfoldable pub auto_cleanup : ℕ → ℕ → Manager → Manager
auto_cleanup now max_age m =
    cleanup_all (map (λ x. x.0) (select (is_expired now max_age) m.creation_times)) m

-- InterruptManager.get_all_keys and get_interrupted_keys
abbrev pub get_all_keys : Manager → List String
get_all_keys m = map (λ x. x.0) m.events

abbrev pub get_interrupted_keys : Manager → List String
get_interrupted_keys m = map (λ x. x.0) (select (λ x. m.flags x.1) m.events)

unfoldable pub enter_found : String → ℕ → Option ℕ → Manager → ℕ × Manager
enter_found key now (some e) m = (e, m)
enter_found key now none m = create key now m

-- the entry of a guarded run: the event of its key, or a new one
unfoldable pub enter : String → ℕ → Manager → ℕ × Manager
enter key now m = enter_found key now (event_of key m) m

-- the exit of a guarded run, in its `finally`
unfoldable pub leave : String → Manager → Manager
leave key m = cleanup key false m
