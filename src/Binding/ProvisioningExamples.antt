-- ===== src/Binding/ProvisioningExamples.antt =====
-- A session, its device and a message of it, and the theorems about the provisioning and the loudness at them.
use pigugu_server.Common.{
  ◌≤◌, ◌≡◌, refl, ◌⊎◌, String, true, Option, none, some, [], ◌∷◌, arith, count, any, find, str_eq,
}
use pigugu_server.Models.{Db}
use pigugu_server.Binding.Service.{Session, verifying, cancelled, verified, insert_device}
use pigugu_server.Binding.Provisioning.{
  CredentialStore, Certificate, is_open, create_provisioning_session, issue_mqtt_credentials,
  issue_for, issue_open, issue_new, issued, refused, invalid_state, is_session,
}
use pigugu_server.Binding.Connectivity.{
  Pong, verify_connectivity, verify_for, verify_session, try_twice, answers, is_reached,
}
use pigugu_server.Binding.Registration.{handle_register, register_for, register_device, registered}
use pigugu_server.Binding.Speaker.{
  DeviceMessage, volume_changed, mailbox_after, handle_message, handle_by, handle_volume_changed,
  remember_volume, get_device_volume, fresh_or, remembered_volume, volume_or_unknown, empty_mailbox,
}
use pigugu_server.Binding.Levels.{carries, never_invented, change_remembered}
use pigugu_server.Binding.FiveOpen.{create_keeps_five}
use pigugu_server.Binding.Credentials.{issued_again}
use pigugu_server.Binding.Verification.{verified_answers, closed_session_verifies}
use pigugu_server.Binding.Registered.{registered_once}

abbrev unchanged : String → String
unchanged t = t

abbrev a_change : DeviceMessage
a_change = record {
  kind = volume_changed;
  hw_id = "hw";
  request_id = none;
  value = some 40;
  speaker_volume = none;
  ts = some 5;
}

never_invented_example : any (carries "hw" 40) ((5, a_change) ∷ []) ≡ true
unfolding mailbox_after handle_message handle_by handle_volume_changed remember_volume
    get_device_volume fresh_or remembered_volume volume_or_unknown
never_invented_example = never_invented unchanged 9 "hw" "r" ((5, a_change) ∷ []) 40 refl

change_remembered_example :
    get_device_volume unchanged 9 "hw" "r" (handle_message 5 a_change empty_mailbox).0
    ≡ record { volume = some 40; stale = true; synced_at = some 5 }
change_remembered_example =
    change_remembered unchanged 5 9 40 "hw" "r" a_change empty_mailbox refl refl refl refl
      (omega arith)

abbrev a_waiting_session : Session
a_waiting_session = record {
  id = 1;
  user_id = 7;
  hardware_id = none;
  status = verifying;
  challenge_nonce = "n";
  request_id = none;
  expires_at = 1800;
  failure_code = none;
  certificate_arn = none;
}

abbrev a_cancelled_session : Session
a_cancelled_session = record a_waiting_session { status = cancelled }

abbrev a_certificate : Certificate
a_certificate = record { arn = "a"; pem = "p"; private_key = "k" }

abbrev a_cloud : String → Option Certificate
a_cloud hw = some a_certificate

abbrev no_cloud : String → Option Certificate
no_cloud hw = none

abbrev a_store : CredentialStore
a_store = record { sessions = a_waiting_session ∷ []; cache = [] }

abbrev a_closed_store : CredentialStore
a_closed_store = record { sessions = a_cancelled_session ∷ []; cache = [] }

abbrev a_pong : Pong
a_pong = record { nonce = some "n"; rtt_ms = some 40 }

abbrev no_rows : Db
no_rows = record { devices = []; jobs = []; firmwares = [] }

create_keeps_five_example :
    count (is_open 7) (create_provisioning_session 2 7 "m" 5 (a_waiting_session ∷ [])) ≤ 5
create_keeps_five_example = create_keeps_five 2 7 5 "m" (a_waiting_session ∷ [])

issued_again_example :
    let st = (issue_mqtt_credentials unchanged a_cloud 10 1 7 "hw" a_store).0 in
    ((issue_mqtt_credentials unchanged no_cloud 20 1 7 "other" st).1
      ≡ issued (record { client_cert = "p"; client_key = "k" }))
    × ((issue_mqtt_credentials unchanged no_cloud 20 1 7 "other" st).0.cache ≡ st.cache)
unfolding issue_mqtt_credentials issue_for issue_open issue_new
issued_again_example =
    issued_again unchanged a_cloud no_cloud 10 20 1 7 "hw" "other" a_store a_waiting_session
      (record { client_cert = "p"; client_key = "k" }) refl refl refl (omega arith) (omega arith)
      refl

verified_answers_example :
    (s : Session) × (find (is_session 1 7) (a_waiting_session ∷ []) ≡ some s)
    × (10 ≤ s.expires_at)
    × ((answers s.challenge_nonce none ≡ true) ⊎ (answers s.challenge_nonce (some a_pong) ≡ true))
unfolding verify_connectivity verify_for verify_session try_twice
verified_answers_example =
    verified_answers 10 5 none (some a_pong) 1 7 (some "hw") (a_waiting_session ∷ []) (some 40) refl

closed_session_verifies_example :
    let r =
      verify_connectivity 10 5 (some a_pong) none 1 7 (some "hw") (a_cancelled_session ∷ []) in
    ((issue_mqtt_credentials unchanged a_cloud 10 1 7 "hw" a_closed_store).1
      ≡ refused (invalid_state cancelled))
    × (r.1 ≡ is_reached (some 40))
    × ((t : Session) × (find (is_session 1 7) r.0 ≡ some t) × (t.status ≡ verified))
closed_session_verifies_example =
    closed_session_verifies unchanged a_cloud 10 5 1 7 a_pong none "hw" a_closed_store
      a_cancelled_session refl (omega arith) refl refl refl refl

registered_once_example :
    let r =
      handle_register unchanged
        (λ a b. str_eq a b)
        9
        3
        "Pigugu"
        1
        "hw"
        no_rows
        (a_waiting_session ∷ []) in
    handle_register unchanged (λ a b. str_eq a b) 10 4 "Pigugu" 1 "hw" r.0 r.1 ≡ (r.0, r.1, [])
unfolding handle_register register_for register_device registered insert_device
registered_once_example =
    registered_once unchanged (λ a b. str_eq a b) 9 10 3 4 "Pigugu" "Pigugu" 1 "hw" "hw" no_rows
      (a_waiting_session ∷ []) a_waiting_session refl refl
