-- ===== src/Moderation.antt =====
-- ai-backend/src/extension_moderation_store.js: reports on releases, their resolution, which may
-- withdraw the release, and appeals of the publisher.
pub mod Rows
pub mod Names
pub mod Reports
pub mod Appeals
pub mod Resolution
