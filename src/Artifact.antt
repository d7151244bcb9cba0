-- ===== src/Artifact.antt =====
-- ai-backend/src/extension_artifact_store.js: the files of a release, their immutable binding to
-- a digest, and the verdict of the security scan that gates the approval of the release.
-- A method that throws writes nothing, but for `upload`: it stores the bytes before it binds
-- them, and is modelled with the state that it leaves behind in either case.
pub mod Rows
pub mod Names
pub mod Bindings
pub mod Uploads
pub mod Scans
pub mod Listing
pub mod Effects
pub mod Frozen
