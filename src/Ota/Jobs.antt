-- ===== src/Ota/Jobs.antt =====
-- The life of an upgrade job in api/modules/device/ota.py: the device's check, the App's trigger, the
-- device's report, and the timeout sweep. Each takes the time `now` and returns the new tables.
use pigugu_server.Common.{
  ℕ, String, Bool, true, false, not, ◌&&◌, ◌||◌, Option, none, some, ◌==◌, if◌then◌else◌, str_eq,
}
use pigugu_server.Models.{
  Status, notified, downloading, installing, rebooting, succeeded, superseded, is_active, Job,
  Firmware, Device, Db,
}
use pigugu_server.Ota.Semver.{version_lt}
use pigugu_server.Ota.Tables.{find_active_job, get_firmware_version, amend_job, amend_device}

-- Python's truth of an optional text, and `a or b`
abbrev pub truthy : Option String → Bool
truthy none = false
truthy (some s) = not (str_eq s "")

abbrev pub or_else : Option String → Option String → Option String
or_else a b = if truthy a then a else b

-- DEVICE_AWARE_STATUSES
abbrev pub is_device_aware : Status → Bool
is_device_aware notified = true
is_device_aware downloading = true
is_device_aware installing = true
is_device_aware rebooting = true
is_device_aware _ = false

-- `_terminate`, on the job's row; a flushed change stamps `updated_at`
unfoldable pub terminate : ℕ → Status → Option String → Job → Job
terminate now status detail job = record job {
  status = status;
  status_detail = if truthy detail then detail else job.status_detail;
  finished_at = some now;
  updated_at = now;
  push_needed = is_active job.status || job.push_needed;
}

abbrev pub same_status : Status → Status → Bool
same_status notified notified = true
same_status downloading downloading = true
same_status installing installing = true
same_status rebooting rebooting = true
same_status _ _ = false

-- `job.status = …`, flushed: an assignment that changes nothing writes nothing
unfoldable pub advance : ℕ → Status → ℕ → Job → Job
advance now status pct job =
    if same_status job.status status && job.progress_pct == pct
    then job
    else record job { status = status; progress_pct = pct; updated_at = now }

-- the response dict of a check
pub record Offer : Type 0 where
  pub version : String
  pub url : String
  pub sha256 : String
  pub signature : String
  pub force : Bool

pub record Check : Type 0 where
  pub firmware : Option Offer
  pub push_job : Option Job

abbrev pub no_offer : Check
no_offer = record { firmware = none; push_job = none }

-- what a check writes of the device
unfoldable pub report_version : ℕ → Option String → Option String → Device → Device
report_version now version git device =
    if truthy version || truthy git
    then record device {
      current_firmware_version = version;
      current_firmware_sha = git;
      last_firmware_report_at = some now;
    }
    else device

-- `current is not None and not version_lt(current, fw.version)`
unfoldable pub is_on_target : Option String → String → Bool
is_on_target none target = false
is_on_target (some current) target = not (version_lt (some current) (some target))

-- The end of `process_check`, from the S3 call on; a call that raises gives `none`.
unfoldable pub offer_firmware : ℕ → Option String → Firmware → Job → Db → Db × Check
unfolding advance
offer_firmware now none fw job db = (db, no_offer)
offer_firmware now (some url) fw job db = (
  amend_job job.id (λ r. advance now notified r.progress_pct r) db,
  record {
    firmware = some (record {
      version = fw.version;
      url = url;
      sha256 = fw.sha256;
      signature = fw.signature;
      force = job.force;
    });
    push_job = none;
  },
)

-- The part of `process_check` that has found the job, the version that the request stands for, and
-- the firmware, if it is still there.
unfoldable pub check_job :
    (String → Option String) → ℕ → Option String → Job → Option Firmware → Db → Db × Check
unfolding terminate offer_firmware is_on_target
check_job presign now current job none db =
    (amend_job job.id (terminate now superseded (some "firmware_version_missing")) db, no_offer)
check_job presign now current job (some fw) db =
    if not job.force && is_on_target current fw.version
    then (if is_device_aware job.status
        then (
          amend_job job.id (terminate now succeeded (some "confirmed_by_check")) db,
          record {
            firmware = none;
            push_job = some (terminate now succeeded (some "confirmed_by_check") job);
          },
        )
        else (amend_job job.id (terminate now superseded (some "already_on_target")) db, no_offer))
    else offer_firmware now (presign fw.file_key) fw job db

unfoldable pub check_active :
    (String → Option String) → ℕ → Option String → Option Job → Db → Db × Check
unfolding check_job
check_active presign now current none db = (db, no_offer)
check_active presign now current (some job) db =
    check_job presign now current job (get_firmware_version db job.firmware_version_id false) db

-- `presign` is core.aws.get_s3_presigned_url
unfoldable pub process_check :
    (String → Option String) → ℕ → Device → Option String → Option String → Db → Db × Check
unfolding check_active report_version
process_check presign now device version git db =
    let device' = report_version now version git device in
    let db' = amend_device device.id (report_version now version git) db in
    check_active presign now (or_else version device'.current_firmware_version)
      (find_active_job db' device.id) db'
