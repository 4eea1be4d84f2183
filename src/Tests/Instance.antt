-- ===== src/Tests/Instance.antt =====
-- Processes that meet at the instance lock of src/server/single_instance_guard.js, with a record that a
-- dead one left.
use xchain_encoder.Base.{ℕ, ◌+◌, ◌≡◌, refl, true, false, none, some, arith, ◌==◌, if◌then◌else◌}
use xchain_encoder.Instance.Guard.{
  Files, Pc, publishing, linking, linked, owner, failed, dead, Probe, Identity, refuses_holder,
  advance,
}
use xchain_encoder.Instance.System.{
  System, update, has_lock, in_mutex, IsHonest, act, IsBoot, Reach, start, later, aim,
}
use xchain_encoder.Instance.Exclusion.{advance-exclusive}
use xchain_encoder.Instance.Alone.{acquire_instance_lock}

-- Process 7 died; its pid 19 is now process 0's.
abbrev two_pids : Identity
two_pids = record { pid = λ i. if i == 0 then 19 else if i == 7 then 19 else 20 + i; cmd = λ i. 5 }

abbrev sees : Probe
sees = record { is_alive = λ pid. true; describe = λ pid. none; waits = true; shuts_down = false }

-- Process `self` starts, and `holder`'s record is in the file.
abbrev started : ℕ → ℕ → Files × Pc
started self holder =
    acquire_instance_lock two_pids sees self 11
      (record { lock = some holder; mutex = none }, publishing 0)

-- The dead process's record is broken.
stale_is_broken : started 0 7 ≡ (record { lock = some 0; mutex = none }, owner)
unfolding acquire_instance_lock advance refuses_holder
stale_is_broken = refl

-- A live one's is not.
live_is_kept : started 0 1 ≡ (record { lock = some 1; mutex = none }, failed)
unfolding acquire_instance_lock advance refuses_holder
live_is_kept = refl

abbrev boot : System
boot = record {
  files = record { lock = none; mutex = none };
  pc = λ i. if i == 7 then dead else publishing 0;
}

boot-IsBoot : IsBoot boot
boot-IsBoot = ((λ i. ground arith), λ k h. absurd (ground (arith, h)))

boot-IsHonest : IsHonest two_pids boot 0 sees
boot-IsHonest = record {
  positive = λ j h. absurd (ground (arith, h));
  alive = λ j h. absurd (ground (arith, h));
  described = λ j h. absurd (ground (arith, h));
  distinct = λ j h. absurd (ground (arith, h));
}

-- Process 0 is inside the mutex, and then has the lock.
abbrev entered : System
entered = record {
  files = record { lock = none; mutex = some 0 };
  pc = update (boot.pc) 0 (linking 0);
}

abbrev won : System
won = record { files = record { lock = some 0; mutex = some 0 }; pc = update (entered.pc) 0 linked }

entered-IsHonest : IsHonest two_pids entered 0 sees
entered-IsHonest = record {
  positive = λ j h. absurd (ground (arith, h));
  alive = λ j h. absurd (ground (arith, h));
  described = λ j h. absurd (ground (arith, h));
  distinct = λ j h. absurd (ground (arith, h));
}

won_reach : Reach two_pids boot won
unfolding advance
won_reach = later (later start (act 0 sees boot-IsHonest)) (act 0 sees entered-IsHonest)

advance-exclusive_example :
    ((i j : ℕ) → has_lock (won.pc i) ≡ true → has_lock (won.pc j) ≡ true → i ≡ j)
    × ((i : ℕ) → has_lock (won.pc i) ≡ true → won.files.lock ≡ some i)
    × ((i k : ℕ) → aim (won.pc i) ≡ some k → won.pc k ≡ dead)
    × ((i : ℕ) → in_mutex (won.pc i) ≡ true → won.files.mutex ≡ some i)
advance-exclusive_example = advance-exclusive two_pids boot won boot-IsBoot won_reach
