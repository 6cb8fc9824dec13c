-- ===== src/Binding/Examples.antt =====
-- A user with a device that he has unbound, and the theorems about his devices at it.
use pigugu_server.Common.{◌≡◌, ◌≤◌, refl, String, Bool, false, none, some, [], ◌∷◌, arith, count}
use pigugu_server.Models.{Device, Db, standby, unbound}
use pigugu_server.Ota.Tables as Tables
use pigugu_server.Ota.Tables.{amend_devices, first_by, choose}
use pigugu_server.Binding.Service.{
  Session, verified, is_active_of, set_active_device, set_found, set_standby, unbind_device,
  unbind_found,
}
use pigugu_server.Binding.Active.{set_active_one}
use pigugu_server.Binding.Unbinding.{IsKeyed, unbind_device_keeps_one}

abbrev a_released_device : Device
a_released_device = record {
  id = 1;
  user_id = 7;
  device_name = "pig";
  hardware_id = "aa";
  active_state = standby;
  binding_status = unbound;
  certificate_arn = none;
  thing_name = none;
  current_firmware_version = none;
  current_firmware_sha = none;
  last_firmware_report_at = none;
  created_at = 0;
}

abbrev a_db : Db
a_db = record { devices = a_released_device ∷ []; jobs = []; firmwares = [] }

abbrev a_session : Session
a_session = record {
  id = 3;
  user_id = 7;
  hardware_id = some "hw";
  status = verified;
  challenge_nonce = "nonce";
  request_id = none;
  expires_at = 1800;
  failure_code = none;
  certificate_arn = none;
}

abbrev same_text : String → String
same_text s = s

abbrev no_device : String → Bool
no_device s = false

keyed : IsKeyed a_db.devices
keyed i = ground arith

set_active_one_example : count (is_active_of 7) (set_active_device 7 1 a_db).0.devices ≡ 1
unfolding set_active_device set_found set_standby
set_active_one_example = set_active_one 7 1 a_db (omega arith) refl

unbind_device_keeps_one_example :
    (count (is_active_of 7) (unbind_device no_device 9 7 1 a_db).0.devices ≤ 1)
    × (count (Tables.is_active_of 1) (unbind_device no_device 9 7 1 a_db).0.jobs ≡ 0)
unfolding unbind_device unbind_found
unbind_device_keeps_one_example =
    unbind_device_keeps_one no_device 9 7 1 a_db keyed (omega arith) refl
