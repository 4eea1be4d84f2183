-- ===== src/Fees.antt =====
-- Fee rates and their caps, in src/XChainEncoder/fee_policy.js, the settlement of a build's fee
-- and change, in src/XChainEncoder/build_transaction/fee_settlement.js, and the fee of an envelope
-- cancel, in src/XChainEncoder/envelope_cancel.js.
pub mod Policy
pub mod Settlement
pub mod Ceilings
pub mod Balance
pub mod Change
pub mod Cancel
pub mod Rates
pub mod Bounds
