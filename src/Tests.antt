-- ===== src/Tests.antt =====
-- The theorems on concrete input, and the data that they are tried on.
pub mod SyncIds
pub mod IdentityMaps
pub mod Deltas
pub mod Rebases
pub mod Gates
pub mod Histories
pub mod Hydrations
pub mod Outboxes
pub mod Protocols
pub mod SyncStates
