-- ===== src/Binding/Provisioning.antt =====
-- The sessions that precede the binding of a device: `create_provisioning_session` and `issue_mqtt_credentials` of
-- api/modules/device/service.py. The cloud's calls for a certificate are one parameter (none where one of them fails).
-- An error takes the writes of its request back.
use pigugu_server.Common.{
  ℕ, ◌+◌, ◌-◌, String, Bool, true, false, ◌&&◌, Option, none, some, List, [], ◌∷◌, if◌then◌else◌,
  ltb, leb, ◌==◌, str_eq, find, select, any, length, map, take,
}
use pigugu_server.Binding.Service.{
  Session, SessionStatus, session_created, verifying, expired, cancelled, session_bound,
}

unfoldable pub update_session : ℕ → (Session → Session) → List Session → List Session
update_session i f [] = []
update_session i f (s ∷ ss) = (if s.id == i then f s else s) ∷ update_session i f ss

-- create_provisioning_session

abbrev pub is_pending : SessionStatus → Bool
is_pending session_created = true
is_pending verifying = true
is_pending _ = false

abbrev pub is_open : ℕ → Session → Bool
is_open user s = s.user_id == user && is_pending s.status

-- ORDER BY expires_at ASC
unfoldable pub insert_by_expiry : Session → List Session → List Session
insert_by_expiry s [] = s ∷ []
insert_by_expiry s (t ∷ ts) =
    let rest = insert_by_expiry s ts in
    if leb s.expires_at t.expires_at then s ∷ t ∷ ts else t ∷ rest

unfoldable pub by_expiry : List Session → List Session
unfolding insert_by_expiry
by_expiry [] = []
by_expiry (s ∷ ss) = insert_by_expiry s (by_expiry ss)

-- active_sessions[:-4], where there are at least five
unfoldable pub to_cancel : List Session → List Session
to_cancel ss = if leb 5 (length ss) then take (length ss - 4) ss else []

abbrev pub is_listed : ℕ → List ℕ → Bool
is_listed i js = any (λ j. j == i) js

unfoldable pub cancel_all : List ℕ → List Session → List Session
cancel_all ids [] = []
cancel_all ids (s ∷ ss) =
    (if is_listed s.id ids then record s { status = cancelled } else s) ∷ cancel_all ids ss

abbrev pub new_session : ℕ → ℕ → String → ℕ → Session
new_session id user nonce now = record {
  id = id;
  user_id = user;
  hardware_id = none;
  status = session_created;
  challenge_nonce = nonce;
  request_id = none;
  expires_at = now + 1800;
  failure_code = none;
  certificate_arn = none;
}

unfoldable pub create_provisioning_session : ℕ → ℕ → String → ℕ → List Session → List Session
unfolding by_expiry to_cancel cancel_all
create_provisioning_session id user nonce now ss =
    let active_sessions = by_expiry (select (is_open user) ss) in
    new_session id user nonce now ∷ cancel_all (map (λ s. s.id) (to_cancel active_sessions)) ss

-- issue_mqtt_credentials

pub record Certificate : Type 0 where
  pub arn : String
  pub pem : String
  pub private_key : String

pub record Credentials : Type 0 where
  pub client_cert : String
  pub client_key : String

-- an entry of Redis under provision:cert, until it expires
pub record Cached : Type 0 where
  pub session : ℕ
  pub creds : Credentials
  pub until : ℕ

pub record CredentialStore : Type 0 where
  pub sessions : List Session
  pub cache : List Cached

pub data CredentialError : Type 0 where
  hardware_id_empty session_not_found session_expired iot_creation_failed : CredentialError
  invalid_state : SessionStatus → CredentialError

pub data Issue : Type 0 where
  refused : CredentialError → Issue
  issued : Credentials → Issue

abbrev pub is_over : SessionStatus → Bool
is_over expired = true
is_over session_bound = true
is_over cancelled = true
is_over _ = false

abbrev pub cached_for : ℕ → ℕ → List Cached → Option Cached
cached_for now i cache = find (λ c. c.session == i && ltb now c.until) cache

abbrev pub credentials : Certificate → Credentials
credentials cert = record { client_cert = cert.pem; client_key = cert.private_key }

-- the certificate of the cloud, or its failure
unfoldable pub issue_new :
    ℕ → ℕ → String → Option Certificate → CredentialStore → CredentialStore × Issue
unfolding update_session
issue_new now i hw none st = (st, refused iot_creation_failed)
issue_new now i hw (some cert) st = (
  record {
    sessions =
        update_session i (λ s. record s { hardware_id = some hw; certificate_arn = some cert.arn })
          st.sessions;
    cache = record { session = i; creds = credentials cert; until = now + 1800 } ∷ st.cache;
  },
  issued (credentials cert),
)

unfoldable pub issue_open :
    ℕ → ℕ → String → Option Certificate → Option Cached → CredentialStore → CredentialStore × Issue
unfolding issue_new update_session
issue_open now i hw cert (some c) st = (
  record st { sessions = update_session i (λ s. record s { hardware_id = some hw }) st.sessions },
  issued c.creds,
)
issue_open now i hw cert none st = issue_new now i hw cert st

unfoldable pub issue_for :
    ℕ → ℕ → String → Option Certificate → Option Session → CredentialStore → CredentialStore × Issue
unfolding issue_open
issue_for now i hw cert none st = (st, refused session_not_found)
issue_for now i hw cert (some s) st =
    if ltb s.expires_at now
    then (st, refused session_expired)
    else if is_over s.status
    then (st, refused (invalid_state s.status))
    else issue_open now i hw cert (cached_for now i st.cache) st

abbrev pub is_session : ℕ → ℕ → Session → Bool
is_session i user s = s.id == i && s.user_id == user

unfoldable pub issue_mqtt_credentials :
    (String → String)
    → (String → Option Certificate)
    → ℕ
    → ℕ
    → ℕ
    → String
    → CredentialStore
    → CredentialStore × Issue
unfolding issue_for
issue_mqtt_credentials normal iot now i user hardware st =
    let hw = normal hardware in
    if str_eq hw ""
    then (st, refused hardware_id_empty)
    else issue_for now i hw (iot hw) (find (is_session i user) st.sessions) st
