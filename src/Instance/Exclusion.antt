-- ===== src/Instance/Exclusion.antt =====
-- No interleaving of starts, deaths and shutdowns lets two processes have the instance lock of
-- src/server/single_instance_guard.js.
use xchain_encoder.Base.{
  ℕ, ◌≡◌, refl, ◌⊎◌, inl, inr, true, false, Option, none, some, arith, ◌==◌, Bool-cases,
}
use xchain_encoder.Instance.Guard.{
  Pc, publishing, linking, occupied, contended, broken, stale, breaking, verified, linked, owner,
  releasing, released, failed, dead, Probe, Identity, refuses_holder, judge_holder, advance,
}
use xchain_encoder.Instance.System.{
  System, update, has_lock, in_mutex, IsHonest, Step, act, crash, IsBoot, Reach, start, later, aim,
  unlinks, Inv, boot-Inv, crash-Inv,
}

module _ (ids : Identity) (probe : Probe) (s : System) (i : ℕ) (inv : Inv s) where
  refuses_lem :
      (k : ℕ)
      → IsHonest ids s i probe
      → has_lock (s.pc i) ≡ false
      → has_lock (s.pc k) ≡ true
      → refuses_holder ids probe i k ≡ true
  unfolding refuses_holder
  refuses_lem k honest out h = elim (honest.described k h) [
    | inl d ↦ ground (arith, honest.positive k h, honest.alive k h, honest.distinct k h, out, h, d)
    | inr d ↦ ground (arith, honest.positive k h, honest.alive k h, honest.distinct k h, out, h, d)
  ]

  judge_lem :
      (k pass : ℕ) (lock : Option ℕ)
      → IsHonest ids s i probe
      → s.files.lock ≡ lock
      → has_lock (s.pc i) ≡ false
      → aim (judge_holder ids probe i pass lock) ≡ some k
      → s.pc k ≡ dead
  unfolding judge_holder
  judge_lem k pass none honest e out g = absurd (ground (arith, g))
  judge_lem k pass (some holder) honest e out g = elim (inv.known holder e) [
    | inl h ↦ absurd (ground (arith, g, refuses_lem holder honest out h))
    | inr d ↦ ground (arith, g, d)
  ]

  act_held :
      (p : Pc)
      → s.pc i ≡ p
      → (j : ℕ) → in_mutex (update (s.pc) i ((advance ids probe i (s.files) p).1) j) ≡ true
      → (advance ids probe i (s.files) p).0.mutex ≡ some j
  unfolding advance
  act_held (publishing pass) e j g = ground (arith, inv.held i, inv.held j, e, g)
  act_held (linking pass) e j g = ground (arith, inv.held i, inv.held j, e, g)
  act_held linked e j g = ground (arith, inv.held i, inv.held j, e, g)
  act_held (occupied pass) e j g = ground (arith, inv.held i, inv.held j, e, g)
  act_held (contended pass) e j g = ground (arith, inv.held i, inv.held j, e, g)
  act_held (stale text pass) e j g = ground (arith, inv.held i, inv.held j, e, g)
  act_held (breaking text pass) e j g = ground (arith, inv.held i, inv.held j, e, g)
  act_held (verified text pass) e j g = ground (arith, inv.held i, inv.held j, e, g)
  act_held (broken pass) e j g = ground (arith, inv.held i, inv.held j, e, g)
  act_held owner e j g = ground (arith, inv.held i, inv.held j, e, g)
  act_held releasing e j g = ground (arith, inv.held i, inv.held j, e, g)
  act_held released e j g = ground (arith, inv.held i, inv.held j, e, g)
  act_held failed e j g = ground (arith, inv.held i, inv.held j, e, g)
  act_held dead e j g = ground (arith, inv.held i, inv.held j, e, g)

  act_owned :
      (p : Pc)
      → s.pc i ≡ p
      → (j : ℕ) → has_lock (update (s.pc) i ((advance ids probe i (s.files) p).1) j) ≡ true
      → (advance ids probe i (s.files) p).0.lock ≡ some j
  unfolding advance
  act_owned (publishing pass) e j g = ground (arith, inv.owned i, inv.owned j, e, g)
  act_owned (linking pass) e j g = ground (arith, inv.owned i, inv.owned j, e, g)
  act_owned linked e j g = ground (arith, inv.owned i, inv.owned j, e, g)
  act_owned (occupied pass) e j g = ground (arith, inv.owned i, inv.owned j, e, g)
  act_owned (contended pass) e j g = ground (arith, inv.owned i, inv.owned j, e, g)
  act_owned (stale text pass) e j g = ground (arith, inv.owned i, inv.owned j, e, g)
  act_owned (breaking text pass) e j g = ground (arith, inv.owned i, inv.owned j, e, g)
  act_owned (verified text pass) e j g =
      ground (arith, inv.owned i, inv.owned j, inv.exact i text, inv.aimed i text, e, g)
  act_owned (broken pass) e j g = ground (arith, inv.owned i, inv.owned j, e, g)
  act_owned owner e j g = ground (arith, inv.owned i, inv.owned j, e, g)
  act_owned releasing e j g = ground (arith, inv.owned i, inv.owned j, e, g)
  act_owned released e j g = ground (arith, inv.owned i, inv.owned j, e, g)
  act_owned failed e j g = ground (arith, inv.owned i, inv.owned j, e, g)
  act_owned dead e j g = ground (arith, inv.owned i, inv.owned j, e, g)

  act_known :
      (p : Pc)
      → s.pc i ≡ p
      → (k : ℕ) → (advance ids probe i (s.files) p).0.lock ≡ some k
      → (has_lock (update (s.pc) i ((advance ids probe i (s.files) p).1) k) ≡ true)
        ⊎ (update (s.pc) i ((advance ids probe i (s.files) p).1) k ≡ dead)
  unfolding advance
  act_known (publishing pass) e k g = ground (arith, inv.known k, inv.owned i, e, g)
  act_known (linking pass) e k g = ground (arith, inv.known k, inv.owned i, e, g)
  act_known linked e k g = ground (arith, inv.known k, inv.owned i, e, g)
  act_known (occupied pass) e k g = ground (arith, inv.known k, inv.owned i, e, g)
  act_known (contended pass) e k g = ground (arith, inv.known k, inv.owned i, e, g)
  act_known (stale text pass) e k g = ground (arith, inv.known k, inv.owned i, e, g)
  act_known (breaking text pass) e k g = ground (arith, inv.known k, inv.owned i, e, g)
  act_known (verified text pass) e k g = ground (arith, inv.known k, inv.owned i, e, g)
  act_known (broken pass) e k g = ground (arith, inv.known k, inv.owned i, e, g)
  act_known owner e k g = ground (arith, inv.known k, inv.owned i, e, g)
  act_known releasing e k g = ground (arith, inv.known k, inv.owned i, e, g)
  act_known released e k g = ground (arith, inv.known k, inv.owned i, e, g)
  act_known failed e k g = ground (arith, inv.known k, inv.owned i, e, g)
  act_known dead e k g = ground (arith, inv.known k, inv.owned i, e, g)

  act_aimed :
      (p : Pc)
      → s.pc i ≡ p
      → IsHonest ids s i probe
      → (j k : ℕ) → aim (update (s.pc) i ((advance ids probe i (s.files) p).1) j) ≡ some k
      → update (s.pc) i ((advance ids probe i (s.files) p).1) k ≡ dead
  unfolding advance
  act_aimed (publishing pass) e honest j k g = ground (arith, inv.aimed j k, inv.aimed i k, e, g)
  act_aimed (linking pass) e honest j k g = ground (arith, inv.aimed j k, inv.aimed i k, e, g)
  act_aimed linked e honest j k g = ground (arith, inv.aimed j k, inv.aimed i k, e, g)
  act_aimed (occupied pass) e honest j k g = ground (arith, inv.aimed j k, inv.aimed i k, e, g)
  act_aimed (contended pass) e honest j k g = elim (Bool-cases (j == i)) [
    | inl same ↦
        let gone = judge_lem k pass (s.files.lock) honest refl (rw e refl) (rw same at g) in
        ground (arith, e, gone)
    | inr other ↦ ground (arith, inv.aimed j k, e, other, g)
  ]
  act_aimed (stale text pass) e honest j k g = ground (arith, inv.aimed j k, inv.aimed i k, e, g)
  act_aimed (breaking text pass) e honest j k g = ground (arith, inv.aimed j k, inv.aimed i k, e, g)
  act_aimed (verified text pass) e honest j k g = ground (arith, inv.aimed j k, inv.aimed i k, e, g)
  act_aimed (broken pass) e honest j k g = ground (arith, inv.aimed j k, inv.aimed i k, e, g)
  act_aimed owner e honest j k g = ground (arith, inv.aimed j k, inv.aimed i k, e, g)
  act_aimed releasing e honest j k g = ground (arith, inv.aimed j k, inv.aimed i k, e, g)
  act_aimed released e honest j k g = ground (arith, inv.aimed j k, inv.aimed i k, e, g)
  act_aimed failed e honest j k g = ground (arith, inv.aimed j k, inv.aimed i k, e, g)
  act_aimed dead e honest j k g = ground (arith, inv.aimed j k, inv.aimed i k, e, g)

  act_exact :
      (p : Pc)
      → s.pc i ≡ p
      → (j k : ℕ) → unlinks (update (s.pc) i ((advance ids probe i (s.files) p).1) j) ≡ some k
      → ((advance ids probe i (s.files) p).0.lock ≡ none)
        ⊎ ((advance ids probe i (s.files) p).0.lock ≡ some k)
  unfolding advance
  act_exact (publishing pass) e j k g = ground (arith, inv.exact j k, inv.held j, inv.held i, e, g)
  act_exact (linking pass) e j k g = ground (arith, inv.exact j k, inv.held j, inv.held i, e, g)
  act_exact linked e j k g = ground (arith, inv.exact j k, inv.held j, inv.held i, e, g)
  act_exact (occupied pass) e j k g = ground (arith, inv.exact j k, inv.held j, inv.held i, e, g)
  act_exact (contended pass) e j k g = ground (arith, inv.exact j k, inv.held j, inv.held i, e, g)
  act_exact (stale text pass) e j k g = ground (arith, inv.exact j k, inv.held j, inv.held i, e, g)
  act_exact (breaking text pass) e j k g =
      ground (arith, inv.exact j k, inv.held j, inv.held i, e, g)
  act_exact (verified text pass) e j k g =
      ground (arith, inv.exact j k, inv.held j, inv.held i, e, g)
  act_exact (broken pass) e j k g = ground (arith, inv.exact j k, inv.held j, inv.held i, e, g)
  act_exact owner e j k g = ground (arith, inv.exact j k, inv.held j, inv.held i, e, g)
  act_exact releasing e j k g = ground (arith, inv.exact j k, inv.held j, inv.held i, e, g)
  act_exact released e j k g = ground (arith, inv.exact j k, inv.held j, inv.held i, e, g)
  act_exact failed e j k g = ground (arith, inv.exact j k, inv.held j, inv.held i, e, g)
  act_exact dead e j k g = ground (arith, inv.exact j k, inv.held j, inv.held i, e, g)

step-Inv : {ids : Identity} {s t : System} → Step ids s t → Inv s → Inv t
step-Inv {ids} {s} (act i probe honest) inv = record {
  held = act_held ids probe s i inv (s.pc i) refl;
  owned = act_owned ids probe s i inv (s.pc i) refl;
  known = act_known ids probe s i inv (s.pc i) refl;
  aimed = act_aimed ids probe s i inv (s.pc i) refl honest;
  exact = act_exact ids probe s i inv (s.pc i) refl;
}
step-Inv {s} (crash i) inv = crash-Inv s i inv

pub Reach-Inv : {ids : Identity} {boot s : System} → IsBoot boot → Reach ids boot s → Inv s
Reach-Inv {boot} h start = boot-Inv boot h
Reach-Inv h (later r st) = step-Inv st (Reach-Inv h r)

-- Take any number of processes that start on one host, with whatever record and mutex dead processes
-- left behind, in any interleaving of their steps on the two files, with deaths at any point, as long
-- as each look at the other processes tells the truth about whoever has the lock. Then no two
-- processes have the lock at once, from the link of a record to its unlink; the record in the file
-- is the one of the process that has it; a record that is about to be removed as stale belongs to a
-- dead process; and only the process that holds the mutex publishes or breaks.
pub advance-exclusive :
    (ids : Identity) (boot s : System)
    → IsBoot boot
    → Reach ids boot s
    → ((i j : ℕ) → has_lock (s.pc i) ≡ true → has_lock (s.pc j) ≡ true → i ≡ j)
      × ((i : ℕ) → has_lock (s.pc i) ≡ true → s.files.lock ≡ some i)
      × ((i k : ℕ) → aim (s.pc i) ≡ some k → s.pc k ≡ dead)
      × ((i : ℕ) → in_mutex (s.pc i) ≡ true → s.files.mutex ≡ some i)
advance-exclusive ids boot s h r =
    let inv = Reach-Inv h r in
    ((λ i j a b. ground (arith, inv.owned i a, inv.owned j b)), inv.owned, inv.aimed, inv.held)
