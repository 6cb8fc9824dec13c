-- ===== src/Binding/Service.antt =====
-- `bind_device`, `unbind_device`, `set_active_device` and `rename_device` of
-- api/modules/device/service.py. Whether a device is online is a parameter, and so are `normal`, which is
-- `strip().lower()`, `trimmed`, which is `strip()`, and the comparison `ilike` of PostgreSQL; the calls of
-- the cloud, whose failures are caught, are left out. An error takes the writes of its request back.
use pigugu_server.Common.{
  ℕ, String, Bool, true, false, not, ◌&&◌, Option, none, some, List, [], ◌∷◌, if◌then◌else◌, ltb,
  ◌==◌, find, select, any, is_some,
}
use pigugu_server.Models.{
  superseded, Job, active, standby, bound, unbound, is_bound, is_current, is_active, Device, Db,
}
use pigugu_server.Ota.Tables.{first_by, amend_device, amend_devices}
use pigugu_server.Ota.Jobs.{truthy}

-- the status texts of a provisioning session (api/models/device_provisioning_session.py)
pub data SessionStatus : Type 0 where
  session_created verifying verified failed expired cancelled session_bound : SessionStatus

pub record Session : Type 0 where
  pub id : ℕ
  pub user_id : ℕ
  pub hardware_id : Option String
  pub status : SessionStatus
  pub challenge_nonce : String
  pub request_id : Option ℕ
  pub expires_at : ℕ
  pub failure_code : Option String
  pub certificate_arn : Option String

-- the errors, and the violation of the index uq_devices_one_active_per_user
pub data DeviceError : Type 0 where
  device_not_found session_not_verified already_bound one_active_violated : DeviceError

pub data Result : Type 0 where
  done : Result
  raised : DeviceError → Result

abbrev pub is_owned : ℕ → ℕ → Device → Bool
is_owned user id d = d.id == id && d.user_id == user

abbrev pub is_active_of : ℕ → Device → Bool
is_active_of user d = d.user_id == user && is_current d.active_state

-- UPDATE devices SET active_state = 'standby' WHERE user_id = user AND id != id
unfoldable pub set_standby : ℕ → ℕ → List Device → List Device
set_standby user id [] = []
set_standby user id (d ∷ ds) =
    (if d.user_id == user && not (d.id == id) then record d { active_state = standby } else d)
    ∷ set_standby user id ds

abbrev pub activate : Device → Device
activate d = record d { active_state = active }

unfoldable pub set_found : ℕ → Db → Db → Option Device → Db × Result
set_found id before db none = (before, raised device_not_found)
set_found id before db (some d) = (amend_device id activate db, done)

unfoldable pub set_active_device : ℕ → ℕ → Db → Db × Result
unfolding set_standby set_found
set_active_device user id db =
    let devices = set_standby user id db.devices in
    set_found id db (record db { devices = devices }) (find (is_owned user id) devices)

-- d.created_at, latest first
abbrev pub later_created : Device → Device → Bool
later_created a b = ltb b.created_at a.created_at

abbrev pub is_candidate : (String → Bool) → ℕ → ℕ → Device → Bool
is_candidate online user id d =
    d.user_id == user && is_bound d.binding_status && not (d.id == id) && online d.hardware_id

-- another device of the user that is online becomes active
unfoldable pub promote : Option Device → List Device → List Device
promote none ds = ds
promote (some d) ds = amend_devices d.id activate ds

-- UPDATE … SET status = 'superseded', status_detail = 'unbound', finished_at = now
abbrev pub supersede : ℕ → Job → Job
supersede now j = record j {
  status = superseded;
  status_detail = some "unbound";
  finished_at = some now;
  updated_at = now;
}

-- the device's jobs become historical
unfoldable pub close_jobs : ℕ → ℕ → List Job → List Job
close_jobs now id [] = []
close_jobs now id (j ∷ js) =
    (if j.device_id == id && is_active j.status then supersede now j else j) ∷ close_jobs now id js

abbrev pub release : Device → Device
release d = record d { binding_status = unbound; active_state = standby }

unfoldable pub unbind_found : (String → Bool) → ℕ → ℕ → ℕ → Option Device → Db → Db × Result
unfolding promote close_jobs
unbind_found online now user id none db = (db, raised device_not_found)
unbind_found online now user id (some d) db =
    let released = amend_devices id release db.devices in
    let devices =
      (if is_current d.active_state
        then promote (first_by later_created (select (is_candidate online user id) released))
            released
        else released) in
    (record db { devices = devices; jobs = close_jobs now id db.jobs }, done)

unfoldable pub unbind_device : (String → Bool) → ℕ → ℕ → ℕ → Db → Db × Result
unfolding unbind_found
unbind_device online now user id db =
    unbind_found online now user id (find (is_owned user id) db.devices) db

abbrev pub is_verified : SessionStatus → Bool
is_verified verified = true
is_verified _ = false

abbrev pub certificate : Option String → Option String → Option String
certificate given old = if truthy given then given else old

abbrev pub bind_own : String → String → Session → Device → Device
bind_own name thing s d = record d {
  device_name = name;
  binding_status = bound;
  certificate_arn = certificate s.certificate_arn d.certificate_arn;
  thing_name = some thing;
}

-- a row of another device of the user
abbrev pub is_other : ℕ → ℕ → Device → Bool
is_other user id d = d.user_id == user && not (d.id == id)

abbrev pub bind_released : ℕ → String → String → Session → Bool → Device → Device
bind_released user name thing s has_devices d = record (bind_own name thing s d) {
  user_id = user;
  active_state = (if has_devices then standby else active);
}

abbrev pub new_device : ℕ → ℕ → ℕ → String → String → String → Session → Bool → Device
new_device id now user name hardware thing s has_active = record {
  id = id;
  user_id = user;
  device_name = name;
  hardware_id = hardware;
  active_state = (if has_active then standby else active);
  binding_status = bound;
  certificate_arn = s.certificate_arn;
  thing_name = some thing;
  current_firmware_version = none;
  current_firmware_sha = none;
  last_firmware_report_at = none;
  created_at = now;
}

-- INSERT, with the index on the active devices of a user
unfoldable pub insert_device : Device → Db → Db × Result
insert_device d db =
    if is_current d.active_state && any (is_active_of d.user_id) db.devices
    then (db, raised one_active_violated)
    else (record db { devices = d ∷ db.devices }, done)

abbrev pub has_active : ℕ → List Device → Bool
has_active user ds = any (λ d. is_active_of user d && is_bound d.binding_status) ds

unfoldable pub bind_to :
    ℕ → ℕ → ℕ → String → String → String → Session → Option Device → Db → Db × Result
unfolding insert_device
bind_to id now user name hardware thing s none db =
    insert_device (new_device id now user name hardware thing s (has_active user db.devices)) db
bind_to id now user name hardware thing s (some d) db =
    if d.user_id == user
    then (amend_device d.id (bind_own name thing s) db, done)
    else if is_bound d.binding_status
    then (db, raised already_bound)
    else (
      amend_device d.id (bind_released user name thing s (any (is_other user d.id) db.devices)) db,
      done,
    )

unfoldable pub bind_by :
    (String → String)
    → (String → String)
    → (String → String → Bool)
    → ℕ
    → ℕ
    → ℕ
    → String
    → String
    → Option Session
    → Db
    → Db × Result
unfolding bind_to
bind_by normal trimmed ilike id now user name hardware none db = (db, raised session_not_verified)
bind_by normal trimmed ilike id now user name hardware (some s) db =
    if is_verified s.status
    then bind_to id now user name (trimmed hardware) (normal hardware) s
        (find (λ d. ilike d.hardware_id (normal hardware)) db.devices) db
    else (db, raised session_not_verified)

abbrev pub close_session : Session → Session
close_session s = record s { status = session_bound }

-- the session is bound with the device
unfoldable pub amend_sessions : ℕ → List Session → List Session
amend_sessions i [] = []
amend_sessions i (s ∷ ss) = (if s.id == i then close_session s else s) ∷ amend_sessions i ss

abbrev pub after_bind : ℕ → Result → List Session → List Session
after_bind i done ss = amend_sessions i ss
after_bind i (raised e) ss = ss

-- bind_device; `id` is the fresh UUID of a new device
unfoldable pub bind_device :
    (String → String)
    → (String → String)
    → (String → String → Bool)
    → ℕ
    → ℕ
    → (user session : ℕ) → (name hardware : String) → List Session
    → Db
    → Db × List Session × Result
bind_device normal trimmed ilike id now user session name hardware sessions db =
    let (db', r) =
      bind_by normal trimmed ilike id now user name hardware
        (find (λ s. s.id == session && s.user_id == user) sessions) db in
    (db', after_bind session r sessions, r)

unfoldable pub rename_device : ℕ → ℕ → String → Db → Db × Result
rename_device user id name db =
    if is_some (find (is_owned user id) db.devices)
    then (amend_device id (λ d. record d { device_name = name }) db, done)
    else (db, raised device_not_found)
