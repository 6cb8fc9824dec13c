-- ===== src/Binding/Registration.antt =====
-- The messages of a device that is being provisioned: `_handle_online` with a session and `_handle_register` of
-- api/modules/device/iot.py. The name that a device gets from its hardware id is an argument, and so are the fresh
-- ids. A push is what the App gets.
use pigugu_server.Common.{
  ℕ, String, Bool, true, false, not, ◌&&◌, Option, none, some, List, [], ◌∷◌, if◌then◌else◌, ltb,
  ◌==◌, find, any,
}
use pigugu_server.Models.{Device, Db, bound, is_bound, is_current}
use pigugu_server.Ota.Tables.{amend_device}
use pigugu_server.Binding.Service.{
  Session, SessionStatus, session_created, verifying, expired, Result, done, raised,
  one_active_violated, certificate, new_device, insert_device, has_active, is_active_of,
  close_session,
}
use pigugu_server.Binding.Provisioning.{update_session}

pub data Push : Type 0 where
  pushed_online : String → Push
  pushed_verifying pushed_bound : Push
  pushed_error : String → Push

abbrev pub is_created : SessionStatus → Bool
is_created session_created = true
is_created _ = false

abbrev pub is_verifying : SessionStatus → Bool
is_verifying verifying = true
is_verifying _ = false

-- a device came online with a session that was created
unfoldable pub online_for :
    ℕ → ℕ → String → Option Session → List Session → List Session × List Push
unfolding update_session
online_for now request hw none ss = (ss, [])
online_for now request hw (some s) ss =
    if is_created s.status
    then (if ltb s.expires_at now
        then (
          update_session s.id (λ t. record t { status = expired }) ss,
          pushed_error "PROVISION_SESSION_EXPIRED" ∷ [],
        )
        else (
          update_session s.id
              (λ t. record t {
                status = verifying;
                hardware_id = some hw;
                request_id = some request;
              })
              ss,
          pushed_online hw ∷ pushed_verifying ∷ [],
        ))
    else (ss, [])

unfoldable pub handle_online :
    (String → String) → ℕ → ℕ → ℕ → String → List Session → List Session × List Push
unfolding online_for
handle_online normal now request i hardware ss =
    online_for now request (normal hardware) (find (λ s. s.id == i) ss) ss

-- a row of a released device; the index on active devices holds for an update too
unfoldable pub take_over : String → String → Session → Device → Db → Db × Result
take_over name hw s d db =
    let taken =
      amend_device d.id
        (λ d. record d {
          user_id = s.user_id;
          device_name = name;
          binding_status = bound;
          certificate_arn = certificate s.certificate_arn d.certificate_arn;
          thing_name = some hw;
        })
        db in
    if is_current d.active_state
      && any (λ e. is_active_of s.user_id e && not (e.id == d.id)) db.devices
    then (db, raised one_active_violated)
    else (taken, done)

-- none stands for a device of another user
unfoldable pub register_device :
    ℕ → ℕ → String → String → Session → Option Device → Db → Option (Db × Result)
unfolding take_over insert_device
register_device id now name hw s none db =
    some (
      insert_device (new_device id now s.user_id name hw hw s (has_active s.user_id db.devices)) db)
register_device id now name hw s (some d) db =
    if is_bound d.binding_status
    then (if d.user_id == s.user_id then some (db, done) else none)
    else some (take_over name hw s d db)

unfoldable pub registered :
    Session → Option (Db × Result) → Db → List Session → Db × List Session × List Push
unfolding update_session
registered s none db ss = (db, ss, pushed_error "DEVICE_ALREADY_BOUND" ∷ [])
registered s (some (db', done)) db ss =
    (db', update_session s.id close_session ss, pushed_bound ∷ [])
registered s (some (db', raised e)) db ss = (db, ss, pushed_error "" ∷ [])

unfoldable pub register_for :
    (String → String → Bool)
    → ℕ
    → ℕ
    → String
    → String
    → Option Session
    → Db
    → List Session
    → Db × List Session × List Push
unfolding register_device registered
register_for ilike id now name hw none db ss = (db, ss, [])
register_for ilike id now name hw (some s) db ss =
    if is_verifying s.status
    then registered s
        (register_device id now name hw s (find (λ d. ilike d.hardware_id hw) db.devices) db) db ss
    else (db, ss, [])

unfoldable pub handle_register :
    (String → String)
    → (String → String → Bool)
    → ℕ
    → ℕ
    → String
    → ℕ
    → String
    → Db
    → List Session
    → Db × List Session × List Push
unfolding register_for
handle_register normal ilike id now name i hardware db ss =
    register_for ilike id now name (normal hardware) (find (λ s. s.id == i) ss) db ss
