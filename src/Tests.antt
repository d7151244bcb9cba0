-- ===== src/Tests.antt =====
-- Runs of the model at concrete inputs.
pub mod Fixtures
pub mod History
pub mod Transfers
pub mod Objects
pub mod Reports
pub mod Syncing
pub mod Rotation
pub mod Witnesses
pub mod SyncWitnesses
pub mod Cells
pub mod Versions
pub mod Enrollment
pub mod Advertising
pub mod Billing
