-- ===== src/Fdn.antt =====
-- The network coordinator (fdn-network-coordinator): the projection of the policy of one cell.
pub mod Snapshot
pub mod Tailnet
pub mod Live
pub mod Policy
pub mod Broker
