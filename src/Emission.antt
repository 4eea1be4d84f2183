-- ===== src/Emission.antt =====
-- The outputs of a build that spends no reveal's legs: the carriers of its payload and its caller's
-- payments, in src/XChainEncoder/build_transaction/data_outputs.js and script_hash_legs.js.
pub mod Plan
pub mod Carriers
pub mod Legs
pub mod Payments
pub mod Accounting
pub mod Covering
pub mod Conserved
pub mod Change
