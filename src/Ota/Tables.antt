-- ===== src/Ota/Tables.antt =====
-- The queries of api/modules/device/ota.py. A `select` with a `where` and an `order_by … limit 1` is
-- the best row among those that pass the test; of rows that tie the first is taken.
use pigugu_server.Common.{
  ℕ, String, Bool, true, false, not, ◌&&◌, ◌||◌, Option, none, some, List, [], ◌∷◌, ltb, ◌==◌,
  if◌then◌else◌, select, find, str_eq,
}
use pigugu_server.Models.{Job, Firmware, Device, Db, is_active, is_released}

-- `better x y`: x comes before y in the order
unfoldable pub choose {ℓ} : {A : Type ℓ} → (A → A → Bool) → A → Option A → A
choose better x none = x
choose better x (some y) = if better y x then y else x

unfoldable pub first_by {ℓ} : {A : Type ℓ} → (A → A → Bool) → List A → Option A
first_by better [] = none
first_by better (x ∷ xs) = some (choose better x (first_by better xs))

-- DeviceOtaJob.requested_at.desc()
abbrev pub later_requested : Job → Job → Bool
later_requested a b = ltb b.requested_at a.requested_at

-- FirmwareVersion.released_at.desc().nulls_last(), and what decides a tie
abbrev pub later_stamp : Option ℕ → Option ℕ → Bool → Bool
later_stamp (some s) (some t) tie = ltb t s || (s == t && tie)
later_stamp (some s) none tie = true
later_stamp none (some t) tie = false
later_stamp none none tie = tie

-- … then FirmwareVersion.created_at.desc()
abbrev pub later_released : Firmware → Firmware → Bool
later_released a b = later_stamp a.released_at b.released_at (ltb b.created_at a.created_at)

abbrev pub is_active_of : ℕ → Job → Bool
is_active_of d j = j.device_id == d && is_active j.status

-- A row that is read anew has no transient attribute.
abbrev pub loaded : Job → Job
loaded j = record j { push_needed = false }

abbrev pub load : Option Job → Option Job
load none = none
load (some j) = some (loaded j)

unfoldable pub find_active_job : Db → ℕ → Option Job
unfolding first_by choose
find_active_job db d = load (first_by later_requested (select (is_active_of d) db.jobs))

unfoldable pub most_recent_job : Db → ℕ → Option Job
unfolding first_by choose
most_recent_job db d = load (first_by later_requested (select (λ j. j.device_id == d) db.jobs))

unfoldable pub get_firmware_version : Db → ℕ → Bool → Option Firmware
get_firmware_version db i released_only =
    find (λ f. f.id == i && (not released_only || is_released f.visibility)) db.firmwares

-- `board` is settings.ota_board_target, which every caller in the program uses
unfoldable pub latest_released : String → Db → Option Firmware
unfolding first_by choose
latest_released board db =
    first_by later_released
      (select (λ f. str_eq f.board_target board && is_released f.visibility) db.firmwares)

unfoldable pub firmware_by_version : String → Db → String → Option Firmware
firmware_by_version board db v =
    find (λ f. str_eq f.board_target board && str_eq f.version v) db.firmwares

-- Attributes set on the row with one primary key, and flushed.
unfoldable pub amend_jobs : ℕ → (Job → Job) → List Job → List Job
amend_jobs i f [] = []
amend_jobs i f (j ∷ js) = (if j.id == i then f j else j) ∷ amend_jobs i f js

unfoldable pub amend_devices : ℕ → (Device → Device) → List Device → List Device
amend_devices i f [] = []
amend_devices i f (d ∷ ds) = (if d.id == i then f d else d) ∷ amend_devices i f ds

abbrev pub amend_job : ℕ → (Job → Job) → Db → Db
amend_job i f db = record db { jobs = amend_jobs i f db.jobs }

abbrev pub amend_device : ℕ → (Device → Device) → Db → Db
amend_device i f db = record db { devices = amend_devices i f db.devices }
