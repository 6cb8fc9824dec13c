-- ===== src/Ota/Create.antt =====
-- The creation of an upgrade job in api/modules/device/ota.py, with the transaction of
-- api/core/database.py around it.
use pigugu_server.Common.{
  ℕ, String, Bool, true, false, not, Option, none, some, List, ◌∷◌, ◌++◌, if◌then◌else◌, any,
}
use pigugu_server.Models.{Status, requested, superseded, Job, Firmware, Device, Db}
use pigugu_server.Ota.Tables.{
  find_active_job, get_firmware_version, latest_released, amend_job, is_active_of,
}
use pigugu_server.Ota.Jobs.{terminate}

-- The `ValueError`s of `create_upgrade_job`.
pub data OtaError : Type 0 where
  ota_job_active ota_version_not_found : OtaError

pub data Outcome : Type 0 where
  created : Job → Outcome
  raised : OtaError → Outcome

-- the partial unique index uq_device_ota_jobs_one_active
abbrev pub violates_one_active : ℕ → List Job → Bool
violates_one_active d js = any (is_active_of d) js

unfoldable pub new_job : ℕ → ℕ → ℕ → ℕ → Bool → Option String → Job
new_job id now device_id firmware_id force requested_by = record {
  id = id;
  device_id = device_id;
  firmware_version_id = firmware_id;
  force = force;
  requested_by = requested_by;
  status = requested;
  progress_pct = 0;
  status_detail = none;
  requested_at = now;
  updated_at = now;
  finished_at = none;
  push_needed = false;
}

-- `db.add(job)` and `flush`, where `raced` are the rows that concurrent transactions have inserted
-- since this one looked for an active job
unfoldable pub insert_job : List Job → Job → Db → Db × Outcome
insert_job raced job db =
    let rows = raced ++ db.jobs in
    if violates_one_active job.device_id rows
    then (record db { jobs = rows }, raised ota_job_active)
    else (record db { jobs = job ∷ rows }, created job)

-- the firmware that a trigger asks for
unfoldable pub wanted_firmware : String → Option ℕ → Bool → Db → Option Firmware
wanted_firmware board none force db = latest_released board db
wanted_firmware board (some i) force db = get_firmware_version db i (not force)

abbrev pub is_requested : Status → Bool
is_requested requested = true
is_requested _ = false

-- A job that was never picked up gives way; one that the device knows of does not.
unfoldable pub make_way : ℕ → Option Job → Db → Option Db
unfolding terminate
make_way now none db = some db
make_way now (some job) db =
    if is_requested job.status
    then some (amend_job job.id (terminate now superseded (some "replaced")) db)
    else none

unfoldable pub insert_wanted :
    ℕ → ℕ → List Job → Device → Bool → Option String → Option Firmware → Db → Db × Outcome
unfolding new_job insert_job
insert_wanted id now raced device force by none db = (db, raised ota_version_not_found)
insert_wanted id now raced device force by (some fw) db =
    insert_job raced (new_job id now device.id fw.id force by) db

-- the rest of `create_upgrade_job`, when the device's active job has been looked at
unfoldable pub place_job :
    String
    → ℕ
    → ℕ
    → List Job
    → Device
    → Option ℕ
    → Bool
    → Option String
    → Db
    → Option Db
    → Db × Outcome
unfolding wanted_firmware insert_wanted
place_job board id now raced device firmware_id force by db none = (db, raised ota_job_active)
place_job board id now raced device firmware_id force by db (some db') =
    insert_wanted id now raced device force by (wanted_firmware board firmware_id force db') db'

-- `id` is the fresh UUID of the job.
unfoldable pub create_upgrade_job :
    String → ℕ → ℕ → List Job → Device → Option ℕ → Bool → Option String → Db → Db × Outcome
unfolding make_way place_job
create_upgrade_job board id now raced device firmware_id force by db =
    place_job board id now raced device firmware_id force by db
      (make_way now (find_active_job db device.id) db)

-- The end of a request's session, core.database.get_db: an error takes the request's own writes back,
-- and what other transactions have committed stays.
unfoldable pub settle : List Job → Db → Db × Outcome → Db × Outcome
settle raced db (db', created job) = (db', created job)
settle raced db (db', raised e) = (record db { jobs = raced ++ db.jobs }, raised e)

-- the trigger as a request of the App
unfoldable pub trigger_upgrade :
    String → ℕ → ℕ → List Job → Device → Option ℕ → Bool → Option String → Db → Db × Outcome
unfolding create_upgrade_job settle
trigger_upgrade board id now raced device firmware_id force by db =
    settle raced db (create_upgrade_job board id now raced device firmware_id force by db)
