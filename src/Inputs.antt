-- ===== src/Inputs.antt =====
-- The candidate inputs of a build, in src/XChainEncoder/build_transaction/input_candidates.js.
pub mod Candidates
pub mod Filter
pub mod Order
