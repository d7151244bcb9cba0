-- ===== src/Release.antt =====
-- ai-backend/src/extension_release_store.js: the releases of extensions, from the draft of a
-- publisher to its approval and revocation by a reviewer. A method that throws writes nothing, and
-- `Date.now()` is an argument. What the registry makes of a descriptor is the interface `Entries`.
pub mod Rows
pub mod Drafts
pub mod Reviews
pub mod Versions
pub mod Precedence
pub mod Written
pub mod Effects
