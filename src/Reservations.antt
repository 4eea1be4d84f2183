-- ===== src/Reservations.antt =====
-- The outpoint reservations of src/XChainEncoder/outpoint_reservations.js: which build may spend
-- which outpoint, the duplicate-build record, the owners of envelope-cancel claims, and the tickets
-- by which a caller hands a build's claims back.
pub mod State
pub mod Operations
pub mod Tickets
pub mod Release
pub mod Exclusion
pub mod Guard
pub mod Leases
pub mod Views
pub mod Exact
pub mod SingleUse
pub mod Mint
pub mod Cancel
pub mod Duplicates
pub mod FirstFree
