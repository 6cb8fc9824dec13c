-- ===== src/Models.antt =====
-- The database rows of api/models that the device service works on, and the tables that hold them.
-- A UUID is a number, since UUIDs are only compared; a timestamp is a number of seconds.
use pigugu_server.Common.{ℕ, String, Bool, true, false, Option, List}

-- api/models/device_ota_job.py: the status constants
pub data Status : Type 0 where
  requested notified downloading installing rebooting : Status
  succeeded failed rolled_back superseded : Status

-- ACTIVE_STATUSES
abbrev pub is_active : Status → Bool
is_active requested = true
is_active notified = true
is_active downloading = true
is_active installing = true
is_active rebooting = true
is_active _ = false

pub Status-discrete : Discrete Status
Status-discrete = hlevel

-- `push_needed` is the transient attribute `_push_needed`: a row that is read anew has it unset.
pub record Job : Type 0 where
  pub id : ℕ
  pub device_id : ℕ
  pub firmware_version_id : ℕ
  pub force : Bool
  pub requested_by : Option String
  pub status : Status
  pub progress_pct : ℕ
  pub status_detail : Option String
  pub requested_at : ℕ
  pub updated_at : ℕ
  pub finished_at : Option ℕ
  pub push_needed : Bool

-- api/models/firmware_version.py
pub data Visibility : Type 0 where
  draft released retired : Visibility

abbrev pub is_released : Visibility → Bool
is_released released = true
is_released _ = false

pub record Firmware : Type 0 where
  pub id : ℕ
  pub board_target : String
  pub version : String
  pub git_sha : Option String
  pub file_key : String
  pub size_bytes : ℕ
  pub sha256 : String
  pub signature : String
  pub release_notes : Option String
  pub visibility : Visibility
  pub released_by : Option String
  pub released_at : Option ℕ
  pub created_at : ℕ

-- api/models/device.py
pub data Binding : Type 0 where
  bound unbound : Binding

abbrev pub is_bound : Binding → Bool
is_bound bound = true
is_bound unbound = false

pub data Activity : Type 0 where
  active standby : Activity

abbrev pub is_current : Activity → Bool
is_current active = true
is_current standby = false

pub record Device : Type 0 where
  pub id : ℕ
  pub user_id : ℕ
  pub device_name : String
  pub hardware_id : String
  pub active_state : Activity
  pub binding_status : Binding
  pub certificate_arn : Option String
  pub thing_name : Option String
  pub current_firmware_version : Option String
  pub current_firmware_sha : Option String
  pub last_firmware_report_at : Option ℕ
  pub created_at : ℕ

pub record Db : Type 0 where
  pub devices : List Device
  pub jobs : List Job
  pub firmwares : List Firmware
