-- ===== src/Signing.antt =====
-- ai-backend/src/extension_signing_store.js: the trust keys of the marketplace and the immutable
-- signatures of approved releases.
pub mod Rows
pub mod Payload
pub mod Keys
pub mod Releases
pub mod Trust
