-- ===== src/Ota/OneActive.antt =====
-- A check, a report and a sweep keep at most one active job for each device.
use pigugu_server.Common.{
  ℕ, ◌≤◌, ◌≡◌, ◌≢◌, refl, String, Bool, ◌&&◌, not, Option, none, some, List, [], ◌∷◌, arith, find,
  Bool-cases, Option-cases, inl, inr, count, All,
}
use pigugu_server.Common.Int.{ℤ}
use pigugu_server.Models.{
  Status, notified, downloading, installing, rebooting, succeeded, failed, rolled_back, superseded,
  Job, Firmware, Device, Db,
}
use pigugu_server.Ota.Tables.{is_active_of, find_active_job, amend_jobs, amend_device}
use pigugu_server.Ota.Jobs.{
  offer_firmware, check_job, check_active, process_check, or_else, report_version, is_device_aware,
  is_on_target,
}
use pigugu_server.Ota.Reports.{
  report_job, report_active, report_known, apply_ota_report, late_report, sweep_rows,
  sweep_timed_out_jobs, is_stuck, reported_pct,
}
use pigugu_server.Ota.Rows.{Distinct, amend_jobs_same}
use pigugu_server.Ota.Invariant.{IsSound, terminate-IsSound, advance-IsSound}

module _ (presign : String → Option String) (now : ℕ) where
  offer_firmware-IsSound :
      (url : Option String) (fw : Firmware) (d : ℕ) (j : Job) (db : Db)
      → find_active_job db d ≡ some j
      → IsSound db.jobs
      → IsSound (offer_firmware now url fw j db).0.jobs
  unfolding offer_firmware
  offer_firmware-IsSound none fw d j db e s = s
  offer_firmware-IsSound (some url) fw d j db e s =
      advance-IsSound now notified (λ r. r.progress_pct) d j db e s

  check_job-IsSound :
      (current : Option String) (j : Job) (d : ℕ) (fw : Option Firmware) (db : Db)
      → find_active_job db d ≡ some j
      → IsSound db.jobs
      → IsSound (check_job presign now current j fw db).0.jobs
  unfolding check_job
  check_job-IsSound current j d none db e s =
      terminate-IsSound now superseded (some "firmware_version_missing") j.id db.jobs refl s
  check_job-IsSound current j d (some fw) db e s =
      elim (Bool-cases (not j.force && is_on_target current fw.version)) [
        | inl on ↦ elim (Bool-cases (is_device_aware j.status)) [
          | inl aware ↦
              rw (on, aware)
                (terminate-IsSound now succeeded (some "confirmed_by_check") j.id db.jobs refl s)
          | inr not_aware ↦
              rw (on, not_aware)
                (terminate-IsSound now superseded (some "already_on_target") j.id db.jobs refl s)
        ]
        | inr off ↦ rw off (offer_firmware-IsSound (presign fw.file_key) fw d j db e s)
      ]

  check_active-IsSound :
      (current : Option String) (d : ℕ) (db : Db)
      → IsSound db.jobs
      → IsSound (check_active presign now current (find_active_job db d) db).0.jobs
  unfolding check_active
  check_active-IsSound current d db s = elim (Option-cases (find_active_job db d)) [
    | inl e ↦ rw (e, check_active) s
    | inr e ↦ rw (e.1, check_active) (check_job-IsSound current e.0 d _ db e.1 s)
  ]

  pub process_check-IsSound :
      (device : Device) (version git : Option String) (db : Db)
      → IsSound db.jobs
      → IsSound (process_check presign now device version git db).0.jobs
  unfolding process_check
  process_check-IsSound device version git db s =
      check_active-IsSound
        (or_else version (report_version now version git device).current_firmware_version) device.id
        (amend_device device.id (report_version now version git) db) s

module _ (now : ℕ) where
  sweep_rows-count :
      (timeout d : ℕ) (js : List Job)
      → count (is_active_of d) (sweep_rows now timeout js) ≤ count (is_active_of d) js
  unfolding sweep_rows
  sweep_rows-count timeout d [] = omega arith
  sweep_rows-count timeout d (j ∷ js) = ground (arith, sweep_rows-count timeout d js)

  sweep_rows-ids :
      (timeout i : ℕ) (js : List Job)
      → All (λ r. r.id ≢ i) js
      → All (λ r. r.id ≢ i) (sweep_rows now timeout js)
  unfolding sweep_rows
  sweep_rows-ids timeout i [] h = tt
  sweep_rows-ids timeout i (j ∷ js) h = (ground (arith, h.0), sweep_rows-ids timeout i js h.1)

  sweep_rows-Distinct :
      (timeout : ℕ) (js : List Job) → Distinct js → Distinct (sweep_rows now timeout js)
  unfolding sweep_rows
  sweep_rows-Distinct timeout [] h = tt
  sweep_rows-Distinct timeout (j ∷ js) h = (
    elim (Bool-cases (is_stuck now timeout j)) [
      | inl e ↦ rw e (sweep_rows-ids timeout j.id js h.0)
      | inr e ↦ rw e (sweep_rows-ids timeout j.id js h.0)
    ],
    sweep_rows-Distinct timeout js h.1,
  )

  pub sweep-IsSound :
      (timeout : ℕ) (db : Db)
      → IsSound db.jobs
      → IsSound (sweep_timed_out_jobs now timeout db).0.jobs
  unfolding sweep_timed_out_jobs
  sweep-IsSound timeout db s = record {
    one_active = λ d. omega (arith, sweep_rows-count timeout d db.jobs, s.one_active d);
    distinct = sweep_rows-Distinct timeout db.jobs s.distinct;
  }

  report_job-IsSound :
      (state : Option Status) (version : Option String) (progress : Option ℤ) (d : ℕ) (j : Job)
      (db : Db)
      → find_active_job db d ≡ some j
      → IsSound db.jobs
      → IsSound (amend_jobs j.id (report_job now state version progress) db.jobs)
  unfolding report_job
  report_job-IsSound (some succeeded) version progress d j db e s =
      terminate-IsSound now succeeded none j.id db.jobs refl s
  report_job-IsSound (some failed) version progress d j db e s =
      terminate-IsSound now failed version j.id db.jobs refl s
  report_job-IsSound (some rolled_back) version progress d j db e s =
      terminate-IsSound now rolled_back version j.id db.jobs refl s
  report_job-IsSound (some downloading) version progress d j db e s =
      advance-IsSound now downloading (λ r. reported_pct progress r.progress_pct) d j db e s
  report_job-IsSound (some installing) version progress d j db e s =
      advance-IsSound now installing (λ r. r.progress_pct) d j db e s
  report_job-IsSound (some rebooting) version progress d j db e s =
      advance-IsSound now rebooting (λ r. r.progress_pct) d j db e s
  report_job-IsSound _ version progress d j db e s = rw amend_jobs_same s

  pub apply_ota_report-IsSound :
      (normal : String → String) (ilike : String → String → Bool) (hw_id : String)
      (state : Option Status) (version : Option String) (progress : Option ℤ) (db : Db)
      → IsSound db.jobs
      → IsSound (apply_ota_report normal ilike now hw_id state version progress db).0.jobs
  unfolding apply_ota_report
  apply_ota_report-IsSound normal ilike hw_id state version progress db s =
      known (find (λ d. ilike d.hardware_id (normal hw_id)) db.devices)
    where
      late : (device : Device) → (late_report now device state version db).jobs ≡ db.jobs
      late device = ground arith

      known : (o : Option Device) → IsSound (report_known now o state version progress db).0.jobs
      known none = s
      known (some device) = elim (Option-cases (find_active_job db device.id)) [
        | inl e ↦ rw (e, report_active) (rw (late device) s)
        | inr e ↦
            rw (e.1, report_active)
              (report_job-IsSound state version progress device.id e.0 db e.1 s)
      ]
