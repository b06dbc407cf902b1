-- ===== src/Economy.antt =====
-- The local economy: lib/local_economy_extension.cpp.
pub mod State
pub mod Status
pub mod Money
pub mod Accounts
pub mod Limits
pub mod Ledger
pub mod Transfer
pub mod Claim
pub mod Market
pub mod Orders
pub mod News
pub mod Dynamics
pub mod Worth
pub mod Banks
pub mod Snapshot
pub mod Tick
