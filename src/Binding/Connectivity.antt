-- ===== src/Binding/Connectivity.antt =====
-- The verification of a session and of a device: `verify_connectivity` and `connectivity_check` of
-- api/modules/device/service.py. The answers to their pings are parameters.
use pigugu_server.Common.{
  ℕ, String, Bool, false, Option, none, some, List, if◌then◌else◌, ltb, str_eq, find, is_some,
}
use pigugu_server.Models.{Device}
use pigugu_server.Ota.Jobs.{truthy}
use pigugu_server.Binding.Service.{is_owned, Session, verifying, verified, failed, expired}
use pigugu_server.Binding.Provisioning.{update_session, is_session}

-- an answer to a ping
pub record Pong : Type 0 where
  pub nonce : Option String
  pub rtt_ms : Option ℕ

pub data VerifyError : Type 0 where
  verify_not_found verify_expired hardware_id_required verify_timeout : VerifyError
  device_missing device_unreachable : VerifyError

pub data Verification : Type 0 where
  is_reached : Option ℕ → Verification
  is_not_reached : VerifyError → Verification

abbrev pub answers : String → Option Pong → Bool
answers nonce none = false
answers nonce (some p) = elim p.nonce [ none ↦ false | some n ↦ str_eq n nonce ]

abbrev pub rtt_of : Option Pong → Option ℕ
rtt_of none = none
rtt_of (some p) = p.rtt_ms

abbrev pub given_or : Option String → Option String → Option String
given_or given old = if truthy given then given else old

-- the two attempts, and the state that they leave
unfoldable pub try_twice : ℕ → Option Pong → Option Pong → Session → Session × Verification
try_twice request first second s =
    let asked = record s { request_id = some request; status = verifying } in
    if answers s.challenge_nonce first
    then (record asked { status = verified }, is_reached (rtt_of first))
    else if answers s.challenge_nonce second
    then (record asked { status = verified }, is_reached (rtt_of second))
    else (
      record asked { status = failed; failure_code = some "PROVISION_VERIFY_TIMEOUT" },
      is_not_reached verify_timeout,
    )

unfoldable pub verify_session :
    ℕ → ℕ → Option Pong → Option Pong → Option String → Session → Session × Verification
unfolding try_twice
verify_session now request first second hardware s =
    let s' = record s { hardware_id = given_or hardware s.hardware_id } in
    if ltb s.expires_at now
    then (record s { status = expired }, is_not_reached verify_expired)
    else if truthy s'.hardware_id
    then try_twice request first second s'
    else (s', is_not_reached hardware_id_required)

unfoldable pub verify_for :
    ℕ
    → ℕ
    → Option Pong
    → Option Pong
    → ℕ
    → Option String
    → Option Session
    → List Session
    → List Session × Verification
unfolding verify_session update_session
verify_for now request first second i hardware none ss = (ss, is_not_reached verify_not_found)
verify_for now request first second i hardware (some s) ss = (
  update_session i (λ t. (verify_session now request first second hardware t).0) ss,
  (verify_session now request first second hardware s).1,
)

unfoldable pub verify_connectivity :
    ℕ
    → ℕ
    → Option Pong
    → Option Pong
    → ℕ
    → ℕ
    → Option String
    → List Session
    → List Session × Verification
unfolding verify_for
verify_connectivity now request first second i user hardware ss =
    verify_for now request first second i hardware (find (is_session i user) ss) ss

abbrev pub reached_by : Option Pong → Verification
reached_by none = is_not_reached device_unreachable
reached_by (some p) = is_reached p.rtt_ms

-- a device of the user is asked once
unfoldable pub connectivity_check : ℕ → ℕ → Option Pong → List Device → Verification
connectivity_check user id pong ds =
    if is_some (find (is_owned user id) ds) then reached_by pong else is_not_reached device_missing
