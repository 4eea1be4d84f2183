-- ===== src/Gate.antt =====
-- The concurrency gate of src/server/concurrency_gate.js: admission, the slot of each admitted
-- request, and the events that free it.
pub mod Machine
pub mod Accounting
pub mod Holding
