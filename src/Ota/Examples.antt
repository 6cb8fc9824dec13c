-- ===== src/Ota/Examples.antt =====
-- A device with an upgrade under way, and the theorems about the service at it.
use pigugu_server.Common.{◌≡◌, refl, String, false, Option, none, some, [], ◌∷◌, arith, inr, str_eq}
use pigugu_server.Common.Int.{pos}
use pigugu_server.Models.{
  requested, failed, downloading, succeeded, notified, released, bound, active, Job, Firmware,
  Device, Db,
}
use pigugu_server.Ota.Semver.{parse_semver, version_lt}
use pigugu_server.Ota.Tables.{find_active_job, get_firmware_version}
use pigugu_server.Ota.Jobs.{process_check, Offer, is_on_target, check_job}
use pigugu_server.Ota.Create.{trigger_upgrade}
use pigugu_server.Ota.Reports.{apply_ota_report, sweep_timed_out_jobs}
use pigugu_server.Ota.Invariant.{IsSound}
use pigugu_server.Ota.OneActive.{process_check-IsSound, apply_ota_report-IsSound, sweep-IsSound}
use pigugu_server.Ota.Advanced.{IsAdvanced}
use pigugu_server.Ota.Progress.{apply_ota_report-IsReported}
use pigugu_server.Ota.Stale.{stale_check_reopens}
use pigugu_server.Ota.Due.{IsDue, offer-IsDue}
use pigugu_server.Ota.Reach.{Step, check, trigger, Reach, here, next, Reach-IsSound}
use mathlib.Core.List.{Memᴰ}

abbrev pig : Device
pig = record {
  id = 1;
  user_id = 7;
  device_name = "pig";
  hardware_id = "aa";
  active_state = active;
  binding_status = bound;
  certificate_arn = none;
  thing_name = none;
  current_firmware_version = some "1.0.0";
  current_firmware_sha = none;
  last_firmware_report_at = none;
  created_at = 0;
}

abbrev build : Firmware
build = record {
  id = 5;
  board_target = "lichuang-dev";
  version = "1.1.0";
  git_sha = none;
  file_key = "fw/1.1.0";
  size_bytes = 10;
  sha256 = "5a";
  signature = "sig";
  release_notes = none;
  visibility = released;
  released_by = none;
  released_at = some 3;
  created_at = 2;
}

abbrev upgrade : Job
upgrade = record {
  id = 9;
  device_id = 1;
  firmware_version_id = 5;
  force = false;
  requested_by = none;
  status = downloading;
  progress_pct = 40;
  status_detail = none;
  requested_at = 10;
  updated_at = 12;
  finished_at = none;
  push_needed = false;
}

abbrev db : Db
db = record { devices = pig ∷ []; jobs = upgrade ∷ []; firmwares = build ∷ [] }

abbrev presign : String → Option String
presign key = some "https://s3"

abbrev same : String → String
same s = s

parse_semver_runs : parse_semver " 1.12.3-rc1" ≡ some (record { major = 1; minor = 12; patch = 3 })
unfolding parse_semver
parse_semver_runs = refl

db-IsSound : IsSound db.jobs
db-IsSound = record { one_active = λ d. ground arith; distinct = (tt, tt) }

process_check-IsSound_example : IsSound (process_check presign 20 pig (some "1.0.0") none db).0.jobs
process_check-IsSound_example =
    process_check-IsSound presign 20 pig (some "1.0.0") none db db-IsSound

apply_ota_report-IsSound_example :
    IsSound (apply_ota_report same str_eq 20 "aa" (some succeeded) none none db).0.jobs
apply_ota_report-IsSound_example =
    apply_ota_report-IsSound 20 same str_eq "aa" (some succeeded) none none db db-IsSound

sweep-IsSound_example : IsSound (sweep_timed_out_jobs 5000 1800 db).0.jobs
sweep-IsSound_example = sweep-IsSound 5000 1800 db db-IsSound

found : find_active_job db pig.id ≡ some upgrade
unfolding find_active_job
found = refl

abbrev offered : Offer
offered = record {
  version = "1.1.0";
  url = "https://s3";
  sha256 = "5a";
  signature = "sig";
  force = false;
}

offer-IsDue_example : IsDue db 1 (some "1.0.9") offered
offer-IsDue_example =
    offer-IsDue presign 20 pig (some "1.0.9") none db offered
      (unfold process_check find_active_job get_firmware_version version_lt in refl)

-- a job that waits gives way to a new one
abbrev waiting : Db
waiting = record db { jobs = record upgrade { status = requested } ∷ [] }

waiting-IsSound : IsSound waiting.jobs
waiting-IsSound = record { one_active = λ d. ground arith; distinct = (tt, tt) }

-- the job waits; the App asks for another; the device is at the target when it checks
abbrev asked : Db
asked = (trigger_upgrade "lichuang-dev" 11 30 [] pig none false none waiting).0

asked-Step : Step waiting asked
asked-Step =
    trigger "lichuang-dev" 11 30 [] pig none false none ((λ e. omega arith), tt) waiting-IsSound
      refl

abbrev checked : Db
checked = (process_check presign 40 pig (some "1.1.0") none asked).0

checked-Reach : Reach waiting checked
checked-Reach = next (next here asked-Step) (check presign 40 pig (some "1.1.0") none refl)

Reach-IsSound_example : IsSound checked.jobs
Reach-IsSound_example = Reach-IsSound waiting-IsSound checked-Reach

apply_ota_report-IsReported_example : IsAdvanced downloading 100 upgrade (
    find_active_job
      (apply_ota_report same str_eq 20 "aa" (some downloading) none (some (pos 900)) db).0
      1)
apply_ota_report-IsReported_example =
    apply_ota_report-IsReported same str_eq 20 "aa" (some downloading) none (some (pos 900)) db pig
      upgrade db-IsSound refl found

stale_check_reopens_example :
    let swept = (sweep_timed_out_jobs 5000 1800 db).0 in
    let written = (check_job presign 5001 (some "1.0.9") upgrade (some build) swept).0 in
    (r : Job) × Memᴰ r swept.jobs
    × (r.status ≡ failed)
    × (r.finished_at ≡ some 5000)
    × Memᴰ (record r { status = notified; updated_at = 5001 }) written.jobs
stale_check_reopens_example =
    stale_check_reopens presign 5000 1800 5001 (some "1.0.9") db upgrade build "https://s3"
      (Memᴰ.head refl) refl refl refl (inr (unfold is_on_target version_lt in refl))
