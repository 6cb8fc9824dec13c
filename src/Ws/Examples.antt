-- ===== src/Ws/Examples.antt =====
-- Two connections, and the theorems about the manager at them.
use pigugu_server.Common.{ℕ, ◌≡◌, refl, Bool, true, ◌&&◌, List, [], ◌∷◌, map, select}
use pigugu_server.Common.Text.{codes_eq}
use pigugu_server.Ws.Manager.{on_user_message}
use pigugu_server.Ws.Delivery.{Connection, entry, message_reaches_user}

abbrev some_connections : List Connection
some_connections =
    (record { user = 97 ∷ []; device = 49 ∷ []; ws = 1 })
    ∷ (record { user = 98 ∷ []; device = 49 ∷ []; ws = 2 })
    ∷ []

abbrev all_alive : ℕ → Bool
all_alive ws = true

message_reaches_user_example :
    (on_user_message (98 ∷ []) all_alive (map entry some_connections)).0
    ≡ map (λ c. c.ws) (select (λ c. codes_eq (98 ∷ []) c.user && all_alive c.ws) some_connections)
message_reaches_user_example =
    message_reaches_user (98 ∷ []) all_alive some_connections (refl, tt)
      ((refl, tt), ((refl, tt), tt))
