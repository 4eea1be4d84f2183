-- ===== src/Reveal.antt =====
-- The second transaction of a two-phase build: it spends the legs of the first, makes the payments,
-- keeps its fee and sweeps the rest. The modules follow
-- src/XChainEncoder/build_transaction/script_hash_legs.js and reveal_outputs.js.
pub mod Legs
pub mod Sweep
pub mod Matched
pub mod Spent
pub mod Inputs
pub mod Recovered
pub mod Paid
pub mod Kept
pub mod Swept
pub mod Funded
pub mod Balanced
pub mod Envelope
pub mod Enveloped
