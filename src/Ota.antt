-- ===== src/Ota.antt =====
-- The firmware upgrade service: api/modules/device/ota.py (what a device check is told, the life of
-- an upgrade job, the timeout sweep) and api/modules/device/ota_versions.py (firmware versions).
pub mod Semver
pub mod Tables
pub mod Jobs
pub mod Create
pub mod Reports
pub mod Rows
pub mod Invariant
pub mod OneActive
pub mod Trigger
pub mod CheckResults
pub mod Due
pub mod ReportResults
pub mod Reach
pub mod SweepResults
mod Examples
pub mod Advanced
pub mod Progress
pub mod Stale
