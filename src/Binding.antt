-- ===== src/Binding.antt =====
-- The devices of a user (api/modules/device/service.py): binding, unbinding, the one that is active, and the
-- provisioning that precedes a binding (also api/modules/device/iot.py).
pub mod Service
pub mod Active
pub mod Unbinding
pub mod Provisioning
pub mod Connectivity
pub mod Registration
pub mod FiveOpen
pub mod Credentials
pub mod Verification
pub mod Registered
pub mod Speaker
pub mod Levels
pub mod ProvisioningExamples
pub mod Examples
