-- ===== src/Gate/Accounting.antt =====
-- The counter of src/server/concurrency_gate.js under every interleaving of its events.
use xchain_encoder.Base.{
  ℕ, zero, suc, ◌+◌, ◌≤◌, ◌≡◌, refl, sym, ◌∙◌, inl, inr, Bool, false, some, List, [], ◌∷◌, ◌++◌,
  arith, if◌then◌else◌, Bool-cases, Option-cases, get_elem?,
}
use xchain_encoder.Gate.Machine.{
  Slot, Gate, create_concurrency_gate, concurrency_gate, update_slot, mark_released, mark_claimed,
  release, release_if_unclaimed, held_handler_starts, held_handler_settles, Event, request, finish,
  close, handler_starts, handler_settles, step, run,
}

-- The slots that have not been freed.
unfoldable pub open_slots : List Slot → ℕ
open_slots [] = 0
open_slots (s ∷ ss) = (if s.released then 0 else 1) + open_slots ss

-- The counter is the number of unfreed slots, and within the cap.
pub record IsCounted (limit : ℕ) (g : Gate) : Type 0 where
  pub same_limit : g.limit ≡ limit
  pub counts : g.in_flight ≡ open_slots (g.slots)
  pub capped : g.in_flight ≤ limit

open_slots-push :
    (ss : List Slot) (s : Slot) → s.released ≡ false → open_slots (ss ++ s ∷ []) ≡ open_slots ss + 1
unfolding open_slots
open_slots-push [] s h = rw h (omega arith)
open_slots-push (t ∷ ss) s h = omega (arith, open_slots-push ss s h)

open_slots-released :
    (ss : List Slot) (i : ℕ) (s : Slot)
    → get_elem? ss i ≡ some s
    → s.released ≡ false
    → open_slots (update_slot mark_released i ss) + 1 ≡ open_slots ss
unfolding open_slots
open_slots-released [] i s e h = cc
open_slots-released (t ∷ ss) zero s e h = ground arith
open_slots-released (t ∷ ss) (suc i) s e h = omega (arith, open_slots-released ss i s e h)

open_slots-claimed :
    (ss : List Slot) (i : ℕ) → open_slots (update_slot mark_claimed i ss) ≡ open_slots ss
unfolding open_slots
open_slots-claimed [] i = refl
open_slots-claimed (t ∷ ss) zero = refl
open_slots-claimed (t ∷ ss) (suc i) = omega (arith, open_slots-claimed ss i)

request-IsCounted :
    (limit : ℕ) (g : Gate) (skipped : Bool)
    → IsCounted limit g
    → IsCounted limit (concurrency_gate skipped g).0
unfolding concurrency_gate
request-IsCounted limit g skipped v =
    ground (arith, open_slots-push (g.slots) (record { released = false; claimed = false }) refl)

release-IsCounted :
    (limit : ℕ) (g : Gate) (i : ℕ) → IsCounted limit g → IsCounted limit (release i g)
unfolding release
release-IsCounted limit g i v = elim (Option-cases (get_elem? (g.slots) i)) [
  | inl e ↦ rw (e, release) v
  | inr (s, e) ↦ elim (Bool-cases (s.released)) [
    | inl r ↦ rw (e, release) (rw (r, release) v)
    | inr r ↦
        rw (e, release)
          (rw (r, release)
            (record {
              same_limit = v.same_limit;
              counts = omega (arith, open_slots-released (g.slots) i s e r, v.counts);
              capped = omega (arith, v.capped);
            }))
  ]
]

unclaimed-IsCounted :
    (limit : ℕ) (g : Gate) (i : ℕ) → IsCounted limit g → IsCounted limit (release_if_unclaimed i g)
unfolding release_if_unclaimed
unclaimed-IsCounted limit g i v = ground (arith, release-IsCounted limit g i v)

step-IsCounted : (limit : ℕ) (g : Gate) (e : Event) → IsCounted limit g → IsCounted limit (step e g)
unfolding step held_handler_starts held_handler_settles
step-IsCounted limit g (request skipped) v = request-IsCounted limit g skipped v
step-IsCounted limit g (finish i) v = unclaimed-IsCounted limit g i v
step-IsCounted limit g (close i) v = unclaimed-IsCounted limit g i v
step-IsCounted limit g (handler_starts i) v = record {
  same_limit = v.same_limit;
  counts = v.counts ∙ sym (open_slots-claimed (g.slots) i);
  capped = v.capped;
}
step-IsCounted limit g (handler_settles i) v = release-IsCounted limit g i v

run-IsCounted :
    (limit : ℕ) (es : List Event) (g : Gate) → IsCounted limit g → IsCounted limit (run es g)
unfolding run
run-IsCounted limit [] g v = v
run-IsCounted limit (e ∷ es) g v = run-IsCounted limit es (step e g) (step-IsCounted limit g e v)

-- After any interleaving of requests, response ends, handler starts and handler ends, in any order
-- and with any repetition, the gate's counter is the number of slots that are not yet freed, and at
-- most the limit that the gate was created with.
pub run-create-IsCounted :
    (limit : ℕ) (es : List Event) → IsCounted limit (run es (create_concurrency_gate limit))
unfolding create_concurrency_gate open_slots
run-create-IsCounted limit es =
    run-IsCounted limit es _ (record { same_limit = refl; counts = refl; capped = omega arith })
