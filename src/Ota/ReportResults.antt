-- ===== src/Ota/ReportResults.antt =====
-- What the device's reports and the timeout sweep make of the jobs, and who is told.
use pigugu_server.Common.{
  ℕ, ◌≡◌, refl, subst, String, Bool, true, false, Option, none, some, List, [], ◌∷◌, arith, All,
  find,
}
use pigugu_server.Common.Int.{ℤ}
use pigugu_server.Models.{Status, succeeded, failed, rolled_back, is_active, Job, Device, Db}
use pigugu_server.Ota.Tables.{find_active_job, amend_job}
use pigugu_server.Ota.Reports.{report_job, report_active, report_known, apply_ota_report}
use pigugu_server.Ota.Rows.{found_at}
use pigugu_server.Ota.Invariant.{IsSound}
use pigugu_server.Ota.CheckResults.{closed_gone, find_active_job-amend_device}

-- the states of a report that end a job
abbrev pub ends_job : Status → Bool
ends_job succeeded = true
ends_job failed = true
ends_job rolled_back = true
ends_job _ = false

-- `find_active_job` returns an active job with no push waiting.
found_fresh :
    (db : Db) (d : ℕ) (j : Job)
    → find_active_job db d ≡ some j
    → (is_active j.status ≡ true) × (j.push_needed ≡ false)
found_fresh db d j e =
    let (r, u, act, is_j) = found_at (λ r. Unit {0}) db d j (all_unit db.jobs) e in
    (
      subst (λ (x : Job). is_active x.status ≡ true) is_j (ground arith),
      subst (λ (x : Job). x.push_needed ≡ false) is_j refl,
    )
  where
    all_unit : (js : List Job) → All (λ r. Unit {0}) js
    all_unit [] = tt
    all_unit (j ∷ js) = (tt, all_unit js)

-- what becomes of an active job on a report that ends it
module _ (now : ℕ) (version : Option String) (progress : Option ℤ) where
  report_job-ends :
      (st : Status) (j : Job)
      → ends_job st ≡ true
      → is_active j.status ≡ true
      → let r = report_job now (some st) version progress j in
        (r.status ≡ st) × (r.finished_at ≡ some now) × (r.push_needed ≡ true)
  unfolding report_job
  report_job-ends st j ends act = ground arith

  report_job-gone :
      (st : Status) (d : ℕ) (j : Job) (db : Db)
      → ends_job st ≡ true
      → IsSound db.jobs
      → find_active_job db d ≡ some j
      → find_active_job (amend_job j.id (report_job now (some st) version progress) db) d ≡ none
  unfolding report_job
  report_job-gone succeeded d j db h s e = closed_gone now succeeded none d j db refl s e
  report_job-gone failed d j db h s e = closed_gone now failed version d j db refl s e
  report_job-gone rolled_back d j db h s e = closed_gone now rolled_back version d j db refl s e
  report_job-gone _ d j db h s e = cc

  -- In a sound table, a report of success, failure or rollback from a device that is found and has an
  -- active job returns that job with the reported status, stamped with the time and marked for a push,
  -- and leaves the device with no active job.
  pub report_ends :
      (normal : String → String) (ilike : String → String → Bool) (hw_id : String) (device : Device)
      (st : Status) (db : Db) (j : Job)
      → IsSound db.jobs
      → find (λ d. ilike d.hardware_id (normal hw_id)) db.devices ≡ some device
      → find_active_job db device.id ≡ some j
      → ends_job st ≡ true
      → let (db', out) = apply_ota_report normal ilike now hw_id (some st) version progress db in
        (r : Job) × (out ≡ some r)
        × (r.id ≡ j.id)
        × (r.status ≡ st)
        × (r.finished_at ≡ some now)
        × (r.push_needed ≡ true)
        × (find_active_job db' device.id ≡ none)
  unfolding apply_ota_report
  report_ends normal ilike hw_id device st db j s at e ends =
      let done = report_job-ends st j ends (found_fresh db device.id j e).0 in
      (
        report_job now (some st) version progress j,
        rw (at, report_known, e, report_active),
        unfold report_job in ground arith,
        done.0,
        done.1,
        done.2,
        rw (at, report_known, e, report_active)
            (rw find_active_job-amend_device (report_job-gone st device.id j db ends s e)),
      )
