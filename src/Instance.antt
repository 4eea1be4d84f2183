-- ===== src/Instance.antt =====
-- The lock that keeps one encoder on a host: src/server/single_instance_guard.js and
-- src/server/stale_lock_breaker.js.
pub mod Guard
pub mod System
pub mod Exclusion
pub mod Alone
