-- ===== src/Ota/Progress.antt =====
-- What a device's reports and its repeated checks make of its active job: apply_ota_report and process_check
-- of api/modules/device/ota.py.
use pigugu_server.Common.{
  ℕ, ◌≡◌, refl, subst, String, Bool, false, Option, none, some, arith, find, min,
}
use pigugu_server.Common.Int.{ℤ, pos, negsuc, clamp_percent}
use pigugu_server.Models.{
  Status, requested, superseded, notified, downloading, installing, rebooting, succeeded, failed,
  rolled_back, Job, Firmware, Device, Db,
}
use pigugu_server.Ota.Tables.{find_active_job, amend_job, get_firmware_version}
use pigugu_server.Ota.Jobs.{advance, Check}
use pigugu_server.Ota.Reports.{
  report_job, report_active, report_known, report_device, apply_ota_report, reported_pct,
}
use pigugu_server.Ota.Rows.{amend_jobs_same}
use pigugu_server.Ota.Invariant.{IsSound}
use pigugu_server.Ota.CheckResults.{closed_gone, find_active_job-amend_device}
use pigugu_server.Ota.Advanced.{IsAdvanced, advance-IsAdvanced}

-- a reported progress, cut to 0 … 100; without one the old stays
abbrev pub progress_after : Option ℤ → ℕ → ℕ
progress_after none old = old
progress_after (some (pos n)) old = min n 100
progress_after (some (negsuc n)) old = 0

-- what is to be found of an active job after a report of a state
abbrev pub IsReported : Option Status → Option ℤ → Job → Option Job → Type 0
IsReported (some succeeded) progress j o = o ≡ none
IsReported (some failed) progress j o = o ≡ none
IsReported (some rolled_back) progress j o = o ≡ none
IsReported (some downloading) progress j o =
    IsAdvanced downloading (progress_after progress j.progress_pct) j o
IsReported (some installing) progress j o = IsAdvanced installing j.progress_pct j o
IsReported (some rebooting) progress j o = IsAdvanced rebooting j.progress_pct j o
IsReported _ progress j o = o ≡ some j

progress_after-pct :
    (progress : Option ℤ) (old : ℕ) → reported_pct progress old ≡ progress_after progress old
unfolding clamp_percent
progress_after-pct none old = refl
progress_after-pct (some (pos n)) old = refl
progress_after-pct (some (negsuc n)) old = omega arith

report_job-IsReported :
    (now : ℕ) (state : Option Status) (version : Option String) (progress : Option ℤ) (d : ℕ)
    (j : Job) (db : Db)
    → IsSound db.jobs
    → find_active_job db d ≡ some j
    → IsReported state progress j
        (find_active_job (amend_job j.id (report_job now state version progress) db) d)
unfolding report_job
report_job-IsReported now (some succeeded) version progress d j db s e =
    closed_gone now succeeded none d j db refl s e
report_job-IsReported now (some failed) version progress d j db s e =
    closed_gone now failed version d j db refl s e
report_job-IsReported now (some rolled_back) version progress d j db s e =
    closed_gone now rolled_back version d j db refl s e
report_job-IsReported now (some downloading) version progress d j db s e =
    subst
      (λ n. IsAdvanced downloading n j (
        find_active_job
          (amend_job j.id (λ r. advance now downloading (reported_pct progress r.progress_pct) r)
            db)
          d))
      (progress_after-pct progress j.progress_pct)
      (advance-IsAdvanced now downloading (λ r. reported_pct progress r.progress_pct) db d j refl
        (λ r. refl) s.distinct e)
report_job-IsReported now (some installing) version progress d j db s e =
    advance-IsAdvanced now installing (λ r. r.progress_pct) db d j refl (λ r. refl) s.distinct e
report_job-IsReported now (some rebooting) version progress d j db s e =
    advance-IsAdvanced now rebooting (λ r. r.progress_pct) db d j refl (λ r. refl) s.distinct e
report_job-IsReported now (some requested) version progress d j db s e = rw amend_jobs_same e
report_job-IsReported now (some notified) version progress d j db s e = rw amend_jobs_same e
report_job-IsReported now (some superseded) version progress d j db s e = rw amend_jobs_same e
report_job-IsReported now none version progress d j db s e = rw amend_jobs_same e

-- In a sound table, where the device of a report is found, and its active job: after a report of success,
-- failure or rollback the device has no active job; after one of downloading, installing or rebooting its active
-- job is the same one, with that status, also where the job was further on, and with the progress it had, which
-- only downloading replaces by the reported one, cut to 0 to 100; any other state leaves the active job as it is.
pub apply_ota_report-IsReported :
    (normal : String → String) (ilike : String → String → Bool) (now : ℕ) (hw_id : String)
    (state : Option Status) (version : Option String) (progress : Option ℤ) (db : Db)
    (device : Device) (j : Job)
    → IsSound db.jobs
    → find (λ d. ilike d.hardware_id (normal hw_id)) db.devices ≡ some device
    → find_active_job db device.id ≡ some j
    → IsReported state progress j (
        find_active_job
          (apply_ota_report normal ilike now hw_id state version progress db).0
          device.id)
unfolding apply_ota_report report_known report_active
apply_ota_report-IsReported normal ilike now hw_id state version progress db device j s known e =
    rw (known, e)
      (rw
        (find_active_job-amend_device device.id
          (report_device now state version (get_firmware_version db j.firmware_version_id false))
          (amend_job j.id (report_job now state version progress) db) device.id)
        (report_job-IsReported now state version progress device.id j db s e))

-- the answer that offers a firmware for a job
abbrev offer_of : Job → Firmware → String → Check
offer_of j fw url = record {
  firmware = some (record {
    version = fw.version;
    url = url;
    sha256 = fw.sha256;
    signature = fw.signature;
    force = j.force;
  });
  push_job = none;
}
