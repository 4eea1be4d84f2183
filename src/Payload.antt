-- ===== src/Payload.antt =====
-- The payload layouts of src/XChainEncoder/payload_encodings.js: how the compiled action stream is
-- cut into the buffers that each carrier (OP_RETURN, P2SH, P2WSH, MULTISIGN, TAPROOT) writes.
pub mod Slices
pub mod SliceLoop
pub mod Rebalance
pub mod Rejoin
pub mod Carriers
pub mod Multisign
pub mod Reading
