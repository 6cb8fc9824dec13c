-- ===== src/Ota/CheckResults.antt =====
-- What a device check answers, and what it makes of the device's job.
use pigugu_server.Common.{
  ℕ, suc, ◌≤◌, ◌≡◌, refl, subst, ap, ◌∙◌, String, true, false, Option, none, some, arith,
  if◌then◌else◌, Bool-cases, inl, inr, count,
}
use pigugu_server.Models.{Status, succeeded, superseded, is_active, Job, Firmware, Device, Db}
use pigugu_server.Ota.Semver.{parse_semver, parsed_lt, version_lt}
use pigugu_server.Ota.Tables.{
  is_active_of, find_active_job, get_firmware_version, amend_jobs, amend_job, amend_device,
}
use pigugu_server.Ota.Jobs.{
  truthy, terminate, check_job, check_active, process_check, or_else, report_version,
  is_device_aware, is_on_target,
}
use pigugu_server.Ota.Rows.{All-closed, found_at, find_active_job-none}
use pigugu_server.Ota.Invariant.{IsSound}

-- When the job that was found is closed, the device has no active job left.
pub closed_gone :
    (now : ℕ) (st : Status) (detail : Option String) (d : ℕ) (j : Job) (db : Db)
    → is_active st ≡ false
    → IsSound db.jobs
    → find_active_job db d ≡ some j
    → find_active_job (amend_job j.id (terminate now st detail) db) d ≡ none
closed_gone now st detail d j db closed s e =
    let (r, falls, act, is_j) =
      found_at
        (λ r.
          is_active_of d r ≡ true
          → r.id ≡ j.id
          → suc (count (is_active_of d) (amend_jobs j.id (terminate now st detail) db.jobs))
            ≤ count (is_active_of d) db.jobs)
        db d j
        (All-closed d j.id (terminate now st detail) db.jobs
          (λ r. unfold terminate in ground arith))
        e in
    find_active_job-none (amend_job j.id (terminate now st detail) db) d
      (omega (arith, falls act (ap (λ (x : Job). x.id) is_j), s.one_active d))

-- Writing to a device leaves the jobs and the firmwares as they are.
pub find_active_job-amend_device :
    (i : ℕ) (f : Device → Device) (db : Db) (d : ℕ)
    → find_active_job (amend_device i f db) d ≡ find_active_job db d
unfolding find_active_job
find_active_job-amend_device i f db d = refl

get_firmware_version-amend_device :
    (i : ℕ) (f : Device → Device) (db : Db) (n : ℕ)
    → get_firmware_version (amend_device i f db) n false ≡ get_firmware_version db n false
unfolding get_firmware_version
get_firmware_version-amend_device i f db n = refl

-- the version that a check stands for
abbrev pub version_of : ℕ → Device → Option String → Option String → Option String
version_of now device version git =
    or_else version (report_version now version git device).current_firmware_version

module _ (presign : String → Option String) (now : ℕ) (device : Device)
    (version git : Option String) (db : Db) (j : Job) (fw : Firmware) (sound : IsSound db.jobs)
    (found : find_active_job db device.id ≡ some j)
    (there : get_firmware_version db j.firmware_version_id false ≡ some fw) where
  -- The state of a check that has found a job whose firmware is there.
  pub check_reaches :
      process_check presign now device version git db
      ≡ check_job presign now
          (version_of now device version git)
          j
          (some fw)
          (amend_device device.id (report_version now version git) db)
  unfolding process_check
  check_reaches =
      rw
        (
          find_active_job-amend_device device.id (report_version now version git) db device.id,
          found,
          check_active,
        )
        (rw (
          get_firmware_version-amend_device device.id (report_version now version git) db
              j.firmware_version_id,
          there,
        ))

  -- In a sound table, when a device checks whose active job was found and is not forced, whose firmware
  -- is there, and the version that the check stands for is on the target, then nothing is offered, the
  -- device has no active job left, and the job is closed as succeeded and handed to the caller for a
  -- push exactly if the device knew of it.
  pub check_on_target :
      j.force ≡ false
      → is_on_target (version_of now device version git) fw.version ≡ true
      → let (db', answer) = process_check presign now device version git db in
        (answer.firmware ≡ none)
        × (answer.push_job ≡ (
            if is_device_aware j.status
            then some (terminate now succeeded (some "confirmed_by_check") j)
            else none))
        × (find_active_job db' device.id ≡ none)
  check_on_target unforced on =
      let after = amend_device device.id (report_version now version git) db in
      let found' =
        find_active_job-amend_device device.id (report_version now version git) db device.id
        ∙ found in
      rw check_reaches (elim (Bool-cases (is_device_aware j.status)) [
        | inl aware ↦
            unfold check_job in
            rw (unforced, on, aware)
              (
                refl,
                refl,
                closed_gone now succeeded (some "confirmed_by_check") device.id j after refl sound
                    found',
              )
        | inr waiting ↦
            unfold check_job in
            rw (unforced, on, waiting)
              (
                refl,
                refl,
                closed_gone now superseded (some "already_on_target") device.id j after refl sound
                    found',
              )
      ])

-- An unreadable version counts as being on the target.
is_on_target-unreadable :
    (v target : String) → parse_semver v ≡ none → is_on_target (some v) target ≡ true
unfolding is_on_target version_lt parsed_lt
is_on_target-unreadable v target h = rw h

-- In a sound table, when a device reports a text that is not empty and no version number, and its
-- active job, which it knew of and which is not forced, and the job's firmware are found, then the job
-- is handed over for a push as succeeded, and the device has no active job left.
pub unreadable_version_succeeds :
    (presign : String → Option String) (now : ℕ) (device : Device) (v : String)
    (git : Option String) (db : Db) (j : Job) (fw : Firmware)
    → IsSound db.jobs
    → find_active_job db device.id ≡ some j
    → get_firmware_version db j.firmware_version_id false ≡ some fw
    → j.force ≡ false
    → is_device_aware j.status ≡ true
    → truthy (some v) ≡ true
    → parse_semver v ≡ none
    → let (db', answer) = process_check presign now device (some v) git db in
      (answer.push_job ≡ some (terminate now succeeded (some "confirmed_by_check") j))
      × (find_active_job db' device.id ≡ none)
unreadable_version_succeeds presign now device v git db j fw sound found there unforced aware real
      bad =
    let r =
      check_on_target presign now device (some v) git db j fw sound found there unforced
        (rw real (is_on_target-unreadable v fw.version bad)) in
    (
      subst
          (λ b.
            (process_check presign now device (some v) git db).1.push_job
            ≡ (if b then some (terminate now succeeded (some "confirmed_by_check") j) else none))
          aware r.1,
      r.2,
    )
