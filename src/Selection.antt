-- ===== src/Selection.antt =====
-- The selection of a build's inputs, in src/XChainEncoder/build_transaction/input_selection.js, with
-- the redeem scripts of nested_segwit.js and legacy_p2sh.js beside it.
pub mod Scripts
pub mod State
pub mod Skipping
pub mod Adding
pub mod Loop
pub mod Rounds
pub mod Sound
pub mod Checks
pub mod Covered
pub mod Settled
