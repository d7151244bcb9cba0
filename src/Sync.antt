-- ===== src/Sync.antt =====
-- ai-backend/src/account_sync_store.js: the event log by which the devices of an account follow one
-- another, its retention, its cursors and its pages.
pub mod Cursor
pub mod Log
pub mod Retention
pub mod Pages
pub mod Drain
pub mod Names
pub mod Store
pub mod Cloud
pub mod Agents
pub mod Calls
pub mod Counts
pub mod Effects
pub mod Values
pub mod Limits
pub mod Objects
pub mod Puts
pub mod Contents
pub mod Histories
pub mod Depth
