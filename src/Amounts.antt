-- ===== src/Amounts.antt =====
-- The money fields of a request: src/common/validator/value_checks.js,
-- src/common/validator/fee_and_utxo_checks.js and src/build/apply_bufferutils_patch/u64.js.
pub mod Values
pub mod RoundTrip
pub mod Digits
pub mod Spelled
pub mod Checks
pub mod Accepted
