-- ===== src/Compression.antt =====
-- The transparent compression of a FILE's payload, src/build/compression.js. Text is a list of UTF-16
-- code units; zlib's deflate and inflate are parameters.
pub mod Fields
pub mod Payloads
pub mod Parts
pub mod Trimming
pub mod Marker
pub mod Kept
pub mod Refused
