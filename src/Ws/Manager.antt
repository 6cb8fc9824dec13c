-- ===== src/Ws/Manager.antt =====
-- `WebSocketManager` of api/modules/ws/manager.py for one process. A socket is a number, and `alive` says
-- whether a send to it works; a text is its code points. The listener's connection to Redis is left out:
-- what is published arrives, at this process as at others, as a call of the delivery.
use pigugu_server.Common.{ℕ, Bool, Option, none, some, List, [], ◌∷◌, ◌++◌, if◌then◌else◌}
use pigugu_server.Common.Text.{codes_eq, is_prefix}

abbrev pub Text : Type 0
Text = List ℕ

-- CONNECTION_KEY_SEP
abbrev pub separator : ℕ
separator = 58

unfoldable pub make_key : Text → Text → Text
make_key user_id app_device_id = user_id ++ separator ∷ app_device_id

-- self._connections, a dict
abbrev pub Connections : Type 0
Connections = List (Text × ℕ)

unfoldable pub get : Connections → Text → Option ℕ
get [] key = none
get ((k, ws) ∷ cs) key = let rest = get cs key in if codes_eq k key then some ws else rest

unfoldable pub put : Connections → Text → ℕ → Connections
put [] key ws = (key, ws) ∷ []
put ((k, old) ∷ cs) key ws =
    let rest = put cs key ws in if codes_eq k key then (k, ws) ∷ cs else (k, old) ∷ rest

unfoldable pub pop : Connections → Text → Connections
pop [] key = []
pop ((k, ws) ∷ cs) key = let rest = pop cs key in if codes_eq k key then rest else (k, ws) ∷ rest

-- connect, once the socket is accepted
unfoldable pub connect : Text → Text → ℕ → Connections → Connections
connect user device ws cs = put cs (make_key user device) ws

unfoldable pub disconnect : Text → Text → Connections → Connections
disconnect user device cs = pop cs (make_key user device)

-- the prefix of the keys of a user
abbrev pub user_prefix : Text → Text
user_prefix user = user ++ separator ∷ []

-- The listener's loop for a user's channel, over a copy of the connections: the sockets that get the
-- message, and the connections that are left.
unfoldable pub send_matching : Text → (ℕ → Bool) → Connections → Connections → List ℕ × Connections
send_matching start alive [] cs = ([], cs)
send_matching start alive ((key, ws) ∷ copy) cs =
    let kept = send_matching start alive copy cs in
    let dropped = send_matching start alive copy (pop cs key) in
    if is_prefix start key then (if alive ws then (ws ∷ kept.0, kept.1) else dropped) else kept

unfoldable pub on_user_message : Text → (ℕ → Bool) → Connections → List ℕ × Connections
on_user_message user alive cs = send_matching (user_prefix user) alive cs cs

-- a send to one socket, whose entry goes if it fails: what the listener does for the channel of a key, and
-- what `broadcast` does before it publishes
unfoldable pub send_to : (ℕ → Bool) → Text → Option ℕ → Connections → Option ℕ × Connections
send_to alive key none cs = (none, cs)
send_to alive key (some ws) cs = if alive ws then (some ws, cs) else (none, pop cs key)

unfoldable pub on_app_message : Text → (ℕ → Bool) → Connections → Option ℕ × Connections
on_app_message key alive cs = send_to alive key (get cs key) cs

pub data Route : Type 0 where
  local : (ws : ℕ) → Route
  published : (key : Text) → Route

abbrev pub route_of : Text → Option ℕ → Route
route_of key none = published key
route_of key (some ws) = local ws

-- broadcast: to the local socket, or by Redis to the other processes
unfoldable pub broadcast : Text → (ℕ → Bool) → Connections → Route × Connections
broadcast key alive cs = let (sent, cs') = on_app_message key alive cs in (route_of key sent, cs')
