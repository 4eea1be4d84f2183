-- ===== src/Instance/System.antt =====
-- Processes that race for the instance lock of src/server/single_instance_guard.js, interleaved in any
-- order, each of which may die at any step, and what stays true of the two files.
use xchain_encoder.Base.{
  ℕ, ◌<◌, ◌≡◌, ◌⊎◌, inl, inr, Bool, true, false, Option, none, some, arith, ◌==◌, if◌then◌else◌,
}
use xchain_encoder.Instance.Guard.{
  Files, Pc, publishing, linking, occupied, broken, stale, breaking, verified, linked, owner,
  releasing, dead, Probe, Identity, advance,
}

pub record System : Type 0 where
  pub files : Files
  pub pc : ℕ → Pc

abbrev pub update : (ℕ → Pc) → ℕ → Pc → ℕ → Pc
update f i p j = if j == i then p else f j

-- Between the link and the unlink of its record a process has the lock.
abbrev pub has_lock : Pc → Bool
has_lock linked = true
has_lock owner = true
has_lock releasing = true
has_lock _ = false

abbrev pub in_mutex : Pc → Bool
in_mutex (linking pass) = true
in_mutex linked = true
in_mutex (occupied pass) = true
in_mutex (breaking text pass) = true
in_mutex (verified text pass) = true
in_mutex (broken pass) = true
in_mutex _ = false

-- The probe of process `i` tells the truth about whoever has the lock: it is alive, with its own
-- command line where that can be read, and no other process has its pid.
pub record IsHonest (ids : Identity) (s : System) (i : ℕ) (probe : Probe) : Type 0 where
  pub positive : (j : ℕ) → has_lock (s.pc j) ≡ true → 0 < ids.pid j
  pub alive : (j : ℕ) → has_lock (s.pc j) ≡ true → probe.is_alive (ids.pid j) ≡ true
  pub described :
      (j : ℕ)
      → has_lock (s.pc j) ≡ true
      → (probe.describe (ids.pid j) ≡ none) ⊎ (probe.describe (ids.pid j) ≡ some (ids.cmd j))
  pub distinct : (j : ℕ) → has_lock (s.pc j) ≡ true → ids.pid j ≡ ids.pid i → j ≡ i

pub data Step (ids : Identity) (s : System) : System → Type 0 where
  act :
      (i : ℕ) (probe : Probe)
      → IsHonest ids s i probe
      → Step ids s (record {
        files = (advance ids probe i (s.files) (s.pc i)).0;
        pc = update (s.pc) i ((advance ids probe i (s.files) (s.pc i)).1);
      })
  crash : (i : ℕ) → Step ids s (record s { pc = update (s.pc) i dead })

-- Some processes died before; a record and a mutex that they left may still be there.
abbrev pub IsBoot : System → Type 0
IsBoot s =
    ((i : ℕ) → (s.pc i ≡ publishing 0) ⊎ (s.pc i ≡ dead))
    × ((k : ℕ) → s.files.lock ≡ some k → s.pc k ≡ dead)

pub data Reach (ids : Identity) (boot : System) : System → Type 0 where
  start : Reach ids boot boot
  later : {s t : System} → Reach ids boot s → Step ids s t → Reach ids boot t

-- The record that a process is about to break, and the one that it is about to unlink.
abbrev pub aim : Pc → Option ℕ
aim (stale text pass) = text
aim (breaking text pass) = text
aim (verified text pass) = some text
aim _ = none

abbrev pub unlinks : Pc → Option ℕ
unlinks (verified text pass) = some text
unlinks _ = none

pub record Inv (s : System) : Type 0 where
  pub held : (i : ℕ) → in_mutex (s.pc i) ≡ true → s.files.mutex ≡ some i
  pub owned : (i : ℕ) → has_lock (s.pc i) ≡ true → s.files.lock ≡ some i
  pub known : (k : ℕ) → s.files.lock ≡ some k → (has_lock (s.pc k) ≡ true) ⊎ (s.pc k ≡ dead)
  pub aimed : (i k : ℕ) → aim (s.pc i) ≡ some k → s.pc k ≡ dead
  pub exact :
      (i k : ℕ) → unlinks (s.pc i) ≡ some k → (s.files.lock ≡ none) ⊎ (s.files.lock ≡ some k)

pub boot-Inv : (s : System) → IsBoot s → Inv s
boot-Inv s (fresh, left) = record {
  held = λ i h. elim (fresh i) [
    | inl e ↦ absurd (ground (arith, e))
    | inr e ↦ absurd (ground (arith, e))
  ];
  owned = λ i h. elim (fresh i) [
    | inl e ↦ absurd (ground (arith, e))
    | inr e ↦ absurd (ground (arith, e))
  ];
  known = λ k h. inr (left k h);
  aimed = λ i k h. elim (fresh i) [
    | inl e ↦ absurd (ground (arith, e))
    | inr e ↦ absurd (ground (arith, e))
  ];
  exact = λ i k h. elim (fresh i) [
    | inl e ↦ absurd (ground (arith, e))
    | inr e ↦ absurd (ground (arith, e))
  ];
}

pub crash-Inv : (s : System) (i : ℕ) → Inv s → Inv (record s { pc = update (s.pc) i dead })
crash-Inv s i inv = record {
  held = λ j h. ground (arith, inv.held j);
  owned = λ j h. ground (arith, inv.owned j);
  known = λ k h. ground (arith, inv.known k h);
  aimed = λ j k h. ground (arith, inv.aimed j k);
  exact = λ j k h. ground (arith, inv.exact j k);
}
