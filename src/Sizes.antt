-- ===== src/Sizes.antt =====
-- Byte sizes: the framing of scripts and varints, the estimators of src/build/tx_size_estimator.js,
-- and the reveal sizes of src/XChainEncoder/size_estimation.js.
pub mod Framing
pub mod Estimator
pub mod Reveals
pub mod Wire
pub mod Funding
pub mod Choice
pub mod Floor
pub mod Relay
