-- ===== src/Instance/Alone.antt =====
-- A process that starts while no other does, in src/server/single_instance_guard.js.
use xchain_encoder.Base.{ℕ, zero, suc, ◌<◌, ◌≡◌, ◌≢◌, ◌⊎◌, true, Option, none, some}
use xchain_encoder.Instance.Guard.{Files, Pc, Probe, Identity, advance}

-- The loop of `acquireInstanceLock`, `n` operations of it.
unfoldable pub acquire_instance_lock : Identity → Probe → ℕ → ℕ → Files × Pc → Files × Pc
acquire_instance_lock ids probe self zero at = at
acquire_instance_lock ids probe self (suc n) (files, pc) =
    acquire_instance_lock ids probe self n (advance ids probe self files pc)

module _ (ids : Identity) (probe : Probe) (self : ℕ) where
  abbrev free : Option ℕ → Files
  free lock = record { lock = lock; mutex = none }

  abbrev taken : Option ℕ → Files
  taken lock = record { lock = lock; mutex = some self }

-- The record's pid is a live process other than this one, and its command line, where it can be read,
-- is the one that took the lock.
abbrev pub IsConflict : Identity → Probe → ℕ → ℕ → Type 0
IsConflict ids probe self holder =
    (0 < ids.pid holder)
    × (probe.is_alive (ids.pid holder) ≡ true)
    × (ids.pid holder ≢ ids.pid self)
    × ((probe.describe (ids.pid holder) ≡ none)
        ⊎ (probe.describe (ids.pid holder) ≡ some (ids.cmd holder)))
