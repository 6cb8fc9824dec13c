-- ===== src/Ota/Reports.antt =====
-- The device's report and the timeout sweep of api/modules/device/ota.py, and the message that the
-- App gets when an upgrade ends.
use pigugu_server.Common.{
  ℕ, ◌+◌, String, Bool, true, false, not, ◌&&◌, Option, none, some, List, [], ◌∷◌, map, length, ltb,
  ◌==◌, if◌then◌else◌, find, select, str_eq,
}
use pigugu_server.Common.Int.{ℤ, clamp_percent}
use pigugu_server.Models.{
  Status, downloading, installing, rebooting, succeeded, failed, rolled_back, Job, Firmware, Device,
  Db,
}
use pigugu_server.Ota.Tables.{find_active_job, get_firmware_version, amend_job, amend_device}
use pigugu_server.Ota.Jobs.{truthy, is_device_aware, terminate, advance}

-- what a report of success writes of the device
unfoldable pub note_version : ℕ → Option String → Device → Device
note_version now version device = record device {
  current_firmware_version = version;
  last_firmware_report_at = some now;
}

abbrev pub differs : Option String → Option String → Bool
differs none none = false
differs (some a) (some b) = not (str_eq a b)
differs _ _ = true

abbrev pub firmware_name : Option Firmware → Option String → Option String
firmware_name none old = old
firmware_name (some fw) old = some fw.version

-- the version that a device runs after its job has succeeded
unfoldable pub version_after : Option String → Option Firmware → Option String → Option String
version_after version fw old = if truthy version then version else firmware_name fw old

-- a late report, when the device's job is already closed
unfoldable pub late_report : ℕ → Device → Option Status → Option String → Db → Db
unfolding note_version
late_report now device (some succeeded) version db =
    if truthy version && differs device.current_firmware_version version
    then amend_device device.id (note_version now version) db
    else db
late_report now device _ version db = db

abbrev pub reported_pct : Option ℤ → ℕ → ℕ
reported_pct none old = old
reported_pct (some p) old = clamp_percent p

-- what a report makes of the job; `none` is a state that the service does not know
unfoldable pub report_job : ℕ → Option Status → Option String → Option ℤ → Job → Job
unfolding terminate advance
report_job now (some succeeded) version progress job = terminate now succeeded none job
report_job now (some failed) version progress job = terminate now failed version job
report_job now (some rolled_back) version progress job = terminate now rolled_back version job
report_job now (some downloading) version progress job =
    advance now downloading (reported_pct progress job.progress_pct) job
report_job now (some installing) version progress job = advance now installing job.progress_pct job
report_job now (some rebooting) version progress job = advance now rebooting job.progress_pct job
report_job now _ version progress job = job

-- what a report makes of the device
unfoldable pub report_device : ℕ → Option Status → Option String → Option Firmware → Device → Device
unfolding version_after
report_device now (some succeeded) version fw device = record device {
  current_firmware_version = version_after version fw device.current_firmware_version;
  last_firmware_report_at = some now;
}
report_device now _ version fw device = device

unfoldable pub report_active :
    ℕ → Device → Option Job → Option Status → Option String → Option ℤ → Db → Db × Option Job
unfolding late_report report_job report_device
report_active now device none state version progress db =
    (late_report now device state version db, none)
report_active now device (some job) state version progress db =
    let fw = get_firmware_version db job.firmware_version_id false in
    (
      amend_device device.id (report_device now state version fw)
          (amend_job job.id (report_job now state version progress) db),
      some (report_job now state version progress job),
    )

unfoldable pub report_known :
    ℕ → Option Device → Option Status → Option String → Option ℤ → Db → Db × Option Job
unfolding report_active
report_known now none state version progress db = (db, none)
report_known now (some device) state version progress db =
    report_active now device (find_active_job db device.id) state version progress db

-- `normal` is `hw_id.strip().lower()` and `ilike` the comparison of PostgreSQL. `state` is one of the
-- texts of the status constants, or `none` for any other and for an absent one.
unfoldable pub apply_ota_report :
    (String → String)
    → (String → String → Bool)
    → ℕ
    → String
    → Option Status
    → Option String
    → Option ℤ
    → Db
    → Db × Option Job
unfolding report_known
apply_ota_report normal ilike now hw_id state version progress db =
    report_known now (find (λ d. ilike d.hardware_id (normal hw_id)) db.devices) state version
      progress db

-- The jobs that a device knows of and that have not moved for longer than the timeout.
abbrev pub is_stuck : ℕ → ℕ → Job → Bool
is_stuck now timeout j = is_device_aware j.status && ltb (j.updated_at + timeout) now

abbrev pub time_out : ℕ → Job → Job
time_out now j = terminate now failed (some "timeout") j

unfoldable pub sweep_rows : ℕ → ℕ → List Job → List Job
unfolding terminate
sweep_rows now timeout [] = []
sweep_rows now timeout (j ∷ js) =
    (if is_stuck now timeout j then time_out now j else j) ∷ sweep_rows now timeout js

-- one call of `push_job_terminal`
pub record Push : Type 0 where
  pub device_id : ℕ
  pub status : Status
  pub detail : Option String

abbrev pub push_of : Job → Push
push_of j = record { device_id = j.device_id; status = j.status; detail = j.status_detail }

-- the tables after the sweep, the pushes that it sends, and the number that it returns
unfoldable pub sweep_timed_out_jobs : ℕ → ℕ → Db → Db × List Push × ℕ
unfolding sweep_rows terminate
sweep_timed_out_jobs now timeout db =
    let stuck = select (is_stuck now timeout) db.jobs in
    (
      record db { jobs = sweep_rows now timeout db.jobs },
      map (λ j. push_of (time_out now j)) stuck,
      length stuck,
    )

pub data Notice : Type 0 where
  updated : Notice
  no_response : Notice
  upgrade_failed : Notice
  rolled_back_notice : Notice

abbrev pub is_timeout : Option String → Bool
is_timeout none = false
is_timeout (some s) = str_eq s "timeout"

-- the text of a push, by its meaning
unfoldable pub notice_of : Status → Option String → Option Notice
notice_of succeeded detail = some updated
notice_of failed detail = if is_timeout detail then some no_response else some upgrade_failed
notice_of rolled_back detail = some rolled_back_notice
notice_of _ detail = none

abbrev pub deliver : Option Notice → Option Device → Option (ℕ × Notice)
deliver none _ = none
deliver (some n) none = none
deliver (some n) (some d) = some (d.user_id, n)

-- who is told what; a device that is gone tells nobody
unfoldable pub push_job_terminal : Push → Db → Option (ℕ × Notice)
unfolding notice_of
push_job_terminal p db =
    deliver (notice_of p.status p.detail) (find (λ d. d.id == p.device_id) db.devices)
