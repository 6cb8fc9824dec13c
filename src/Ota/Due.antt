-- ===== src/Ota/Due.antt =====
-- A check offers a firmware only if it is due.
use pigugu_server.Common.{
  ℕ, ◌≡◌, refl, String, true, false, ◌&&◌, not, Option, none, some, arith, Bool-cases, ◌⊎◌, inl,
  inr,
}
use pigugu_server.Models.{Job, Firmware, Device, Db}
use pigugu_server.Ota.Tables.{find_active_job, get_firmware_version, amend_device}
use pigugu_server.Ota.Jobs.{
  Offer, offer_firmware, check_job, check_active, process_check, report_version, is_device_aware,
  is_on_target,
}
use pigugu_server.Ota.CheckResults.{find_active_job-amend_device, version_of}

-- Why a device is offered a firmware: it is the one of its active job, and the job is forced or the
-- device is below the target.
pub record IsDue (db : Db) (d : ℕ) (current : Option String) (offer : Offer) : Type 0 where
  pub job : Job
  pub firmware : Firmware
  pub is_job : find_active_job db d ≡ some job
  pub is_firmware : get_firmware_version db job.firmware_version_id false ≡ some firmware
  pub is_version : offer.version ≡ firmware.version
  pub is_sha256 : offer.sha256 ≡ firmware.sha256
  pub is_signature : offer.signature ≡ firmware.signature
  pub due : (job.force ≡ true) ⊎ (is_on_target current firmware.version ≡ false)

module _ (presign : String → Option String) (now : ℕ) (current : Option String) (db after : Db)
    (d : ℕ) (offer : Offer) where
  offer_firmware-IsDue :
      (j : Job) (fw : Firmware) (url : Option String)
      → find_active_job db d ≡ some j
      → get_firmware_version db j.firmware_version_id false ≡ some fw
      → (j.force ≡ true) ⊎ (is_on_target current fw.version ≡ false)
      → (offer_firmware now url fw j after).1.firmware ≡ some offer
      → IsDue db d current offer
  unfolding offer_firmware
  offer_firmware-IsDue j fw none e q due h = cc
  offer_firmware-IsDue j fw (some url) e q due h = record {
    job = j;
    firmware = fw;
    is_job = e;
    is_firmware = q;
    is_version = ground arith;
    is_sha256 = ground arith;
    is_signature = ground arith;
    due = due;
  }

  check_job-IsDue :
      (j : Job) (o : Option Firmware)
      → find_active_job db d ≡ some j
      → get_firmware_version db j.firmware_version_id false ≡ o
      → (check_job presign now current j o after).1.firmware ≡ some offer
      → IsDue db d current offer
  unfolding check_job
  check_job-IsDue j none e q h = cc
  check_job-IsDue j (some fw) e q h =
      elim (Bool-cases (not j.force && is_on_target current fw.version)) [
        | inl on ↦ elim (Bool-cases (is_device_aware j.status)) [
          | inl aware ↦ absurd (let x : none ≡ some offer = rw (on, aware) at h in cc x)
          | inr waiting ↦ absurd (let x : none ≡ some offer = rw (on, waiting) at h in cc x)
        ]
        | inr off ↦ offer_firmware-IsDue j fw (presign fw.file_key) e q (ground arith) (rw off at h)
      ]

  check_active-IsDue :
      (o : Option Job)
      → find_active_job db d ≡ o
      → after.firmwares ≡ db.firmwares
      → (check_active presign now current o after).1.firmware ≡ some offer
      → IsDue db d current offer
  unfolding check_active
  check_active-IsDue none e q h = cc
  check_active-IsDue (some j) e q h =
      check_job-IsDue j (get_firmware_version after j.firmware_version_id false) e
        (unfold get_firmware_version in rw q) h

-- Whatever the tables, when a check offers a firmware, then the device has an active job, the version,
-- hash and signature are those of the job's firmware, and the job is forced or the version that the
-- check stands for is not on the target.
pub offer-IsDue :
    (presign : String → Option String) (now : ℕ) (device : Device) (version git : Option String)
    (db : Db) (offer : Offer)
    → (process_check presign now device version git db).1.firmware ≡ some offer
    → IsDue db device.id (version_of now device version git) offer
unfolding process_check
offer-IsDue presign now device version git db offer e =
    check_active-IsDue presign now (version_of now device version git) db
      (amend_device device.id (report_version now version git) db) device.id offer
      (find_active_job db device.id) refl refl
      (rw (find_active_job-amend_device device.id (report_version now version git) db device.id) at
        e)
