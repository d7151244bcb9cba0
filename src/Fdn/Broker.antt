-- ===== src/Fdn/Broker.antt =====
-- The enrollment broker (fdn-network-coordinator/enrollment-broker.mjs): a device redeems a grant of
-- Core for a key of the network, joins the network with it, and is then bound to its address.
pub mod Rows
pub mod Names
pub mod Keys
pub mod Addresses
pub mod Nodes
pub mod Calls
pub mod Starting
pub mod Completing
pub mod Service
pub mod Life
pub mod Legal
pub mod Sound
pub mod Alone
pub mod Again
