-- ===== src/Ws/Delivery.antt =====
-- Whom a message reaches.
use pigugu_server.Common.{
  ℕ, ◌≡◌, refl, ap, Bool, false, ◌&&◌, List, [], ◌∷◌, map, select, All, Bool-cases, inl, inr, arith,
  ◌==◌,
}
use pigugu_server.Common.Text.{codes_eq, is_prefix}
use pigugu_server.Ws.Manager.{
  Text, make_key, Connections, pop, user_prefix, send_matching, on_user_message,
}

-- a text without the separator, as a UUID
abbrev pub IsPlain : Text → Type 0
IsPlain t = All (λ c. (c == 58) ≡ false) t

-- the keys with a user's prefix are the user's
prefix-make_key :
    (u v d : Text) → IsPlain u → IsPlain v → is_prefix (user_prefix u) (make_key v d) ≡ codes_eq u v
unfolding is_prefix make_key codes_eq
prefix-make_key [] [] d h k = refl
prefix-make_key [] (y ∷ v) d h (a, k) = ground arith
prefix-make_key (x ∷ u) [] d (a, h) k = rw a refl
prefix-make_key (x ∷ u) (y ∷ v) d (a, h) (b, k) = rw (prefix-make_key u v d h k) refl

-- a connection by its user, its device and its socket
pub record Connection : Type 0 where
  pub user : Text
  pub device : Text
  pub ws : ℕ

abbrev pub entry : Connection → Text × ℕ
entry c = (make_key c.user c.device, c.ws)

sent_matching :
    (u : Text) (alive : ℕ → Bool) (cs : List Connection) (all : Connections)
    → IsPlain u
    → All (λ c. IsPlain c.user) cs
    → (send_matching (user_prefix u) alive (map entry cs) all).0
      ≡ map (λ c. c.ws) (select (λ c. codes_eq u c.user && alive c.ws) cs)
unfolding send_matching
sent_matching u alive [] all h k = refl
sent_matching u alive (c ∷ cs) all h (p, k) =
    rw (prefix-make_key u c.user c.device h p) (elim (Bool-cases (codes_eq u c.user)) [
      | inr e ↦ rw e (sent_matching u alive cs all h k)
      | inl e ↦ rw e (elim (Bool-cases (alive c.ws)) [
        | inl a ↦ rw a (ap (λ l. c.ws ∷ l) (sent_matching u alive cs all h k))
        | inr a ↦ rw a (sent_matching u alive cs (pop all (make_key c.user c.device)) h k)
      ])
    ])

-- A message for a user goes to the sockets of the connections of this user that work, in their order, and
-- to no others, where no user's id contains the separator.
pub message_reaches_user :
    (u : Text) (alive : ℕ → Bool) (cs : List Connection)
    → IsPlain u
    → All (λ c. IsPlain c.user) cs
    → (on_user_message u alive (map entry cs)).0
      ≡ map (λ c. c.ws) (select (λ c. codes_eq u c.user && alive c.ws) cs)
unfolding on_user_message
message_reaches_user u alive cs h k = sent_matching u alive cs (map entry cs) h k
