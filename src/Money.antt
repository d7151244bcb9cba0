-- ===== src/Money.antt =====
-- The monetization service (fabushi/web/src/services/monetization-platform.js): what an advertisement
-- event costs its campaign, how the amount is split, and what is written down of it.
pub mod Amounts
pub mod Rows
pub mod Ads
pub mod Batches
pub mod Checks
pub mod Histories
pub mod Budgets
pub mod Alone
pub mod Subscriptions
pub mod Payments
pub mod Kept
pub mod Replays
