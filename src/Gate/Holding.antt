-- ===== src/Gate/Holding.antt =====
-- `hold` of src/server/concurrency_gate.js: a slot bound to the work, not to the socket.
use xchain_encoder.Base.{
  ℕ, zero, suc, ◌-◌, ◌≡◌, refl, ap, subst, ◌≢◌, Bool, true, false, some, List, [], ◌∷◌, ◌++◌, arith,
  ℕ_discrete, get_elem?,
}
use xchain_encoder.Gate.Machine.{
  Slot, Gate, concurrency_gate, update_slot, mark_released, mark_claimed, release,
  release_if_unclaimed, held_handler_starts, held_handler_settles, Event, request, finish, close,
  handler_starts, handler_settles, step, run,
}

abbrev pub held_slot : Slot
held_slot = record { released = false; claimed = true }

-- Request `i` runs under `hold`, and its handler has not settled.
abbrev pub IsHeld : ℕ → Gate → Type 0
IsHeld i g = get_elem? (g.slots) i ≡ some held_slot

-- No event of the list is the end of handler `i`.
abbrev pub Unsettled : ℕ → List Event → Type 0
Unsettled i [] = Unit {0}
Unsettled i (handler_settles j ∷ es) = (i ≢ j) × Unsettled i es
Unsettled i (_ ∷ es) = Unsettled i es

get_elem?-push :
    (ss : List Slot) (i : ℕ) (s t : Slot)
    → get_elem? ss i ≡ some t
    → get_elem? (ss ++ s ∷ []) i ≡ some t
get_elem?-push [] i s t e = cc
get_elem?-push (x ∷ ss) zero s t e = e
get_elem?-push (x ∷ ss) (suc i) s t e = get_elem?-push ss i s t e

get_elem?-update_ne :
    (f : Slot → Slot) (ss : List Slot) (i j : ℕ)
    → i ≢ j
    → get_elem? (update_slot f j ss) i ≡ get_elem? ss i
get_elem?-update_ne f [] i j ne = refl
get_elem?-update_ne f (s ∷ ss) zero zero ne = absurd (ne refl)
get_elem?-update_ne f (s ∷ ss) zero (suc j) ne = refl
get_elem?-update_ne f (s ∷ ss) (suc i) zero ne = refl
get_elem?-update_ne f (s ∷ ss) (suc i) (suc j) ne =
    get_elem?-update_ne f ss i j (λ e. ne (ap suc e))

claimed_again :
    (ss : List Slot) (i j : ℕ)
    → get_elem? ss i ≡ some held_slot
    → get_elem? (update_slot mark_claimed j ss) i ≡ some held_slot
claimed_again [] i j e = cc
claimed_again (s ∷ ss) zero zero e = ground arith
claimed_again (s ∷ ss) zero (suc j) e = e
claimed_again (s ∷ ss) (suc i) zero e = e
claimed_again (s ∷ ss) (suc i) (suc j) e = claimed_again ss i j e

get_elem?-claimed :
    (ss : List Slot) (i : ℕ) (claimed : Bool)
    → get_elem? ss i ≡ some (record { released = false; claimed = claimed })
    → get_elem? (update_slot mark_claimed i ss) i ≡ some held_slot
get_elem?-claimed [] i claimed e = cc
get_elem?-claimed (s ∷ ss) zero claimed e = ground arith
get_elem?-claimed (s ∷ ss) (suc i) claimed e = get_elem?-claimed ss i claimed e

release-IsHeld : (i j : ℕ) (g : Gate) → i ≢ j → IsHeld i g → IsHeld i (release j g)
unfolding release
release-IsHeld i j g ne h = ground (arith, get_elem?-update_ne mark_released (g.slots) i j ne)

-- The socket's end does not free a claimed slot.
unclaimed-IsHeld : (i j : ℕ) (g : Gate) → IsHeld i g → IsHeld i (release_if_unclaimed j g)
unfolding release_if_unclaimed
unclaimed-IsHeld i j g h = elim (ℕ_discrete i j) [
  | yes e ↦
      let h' : get_elem? (g.slots) j ≡ some held_slot = subst (λ k. IsHeld k g) e h in
      rw (h', release_if_unclaimed) h
  | no ne ↦ ground (arith, release-IsHeld i j g ne h)
]

step-IsHeld :
    (i : ℕ) (e : Event) (g : Gate) → Unsettled i (e ∷ []) → IsHeld i g → IsHeld i (step e g)
unfolding step concurrency_gate held_handler_starts held_handler_settles
step-IsHeld i (request skipped) g u h =
    ground
      (arith, get_elem?-push (g.slots) i (record { released = false; claimed = false }) held_slot h)
step-IsHeld i (finish j) g u h = unclaimed-IsHeld i j g h
step-IsHeld i (close j) g u h = unclaimed-IsHeld i j g h
step-IsHeld i (handler_starts j) g u h = claimed_again (g.slots) i j h
step-IsHeld i (handler_settles j) g u h = release-IsHeld i j g u.0 h

Unsettled-split :
    (i : ℕ) (e : Event) (es : List Event)
    → Unsettled i (e ∷ es)
    → Unsettled i (e ∷ []) × Unsettled i es
Unsettled-split i (request b) es u = (tt, u)
Unsettled-split i (finish j) es u = (tt, u)
Unsettled-split i (close j) es u = (tt, u)
Unsettled-split i (handler_starts j) es u = (tt, u)
Unsettled-split i (handler_settles j) es u = ((u.0, tt), u.1)

still-IsHeld :
    (i : ℕ) (es : List Event) (g : Gate) → IsHeld i g → Unsettled i es → IsHeld i (run es g)
unfolding run
still-IsHeld i [] g h u = h
still-IsHeld i (e ∷ es) g h u =
    let (first, rest) = Unsettled-split i e es u in
    still-IsHeld i es (step e g) (step-IsHeld i e g first h) rest

get_elem?-released :
    (ss : List Slot) (i : ℕ)
    → get_elem? ss i ≡ some held_slot
    → get_elem? (update_slot mark_released i ss) i
      ≡ some (record { released = true; claimed = true })
get_elem?-released [] i e = cc
get_elem?-released (s ∷ ss) zero e = ground arith
get_elem?-released (s ∷ ss) (suc i) e = get_elem?-released ss i e

settled :
    (i : ℕ) (g : Gate)
    → IsHeld i g
    → ((step (handler_settles i) g).in_flight ≡ g.in_flight - 1)
      × (get_elem? ((step (handler_settles i) g).slots) i
          ≡ some (record { released = true; claimed = true }))
unfolding step held_handler_settles release
settled i g h = ground (arith, get_elem?-released (g.slots) i h)

started-IsHeld :
    (i : ℕ) (g : Gate) (claimed : Bool)
    → get_elem? (g.slots) i ≡ some (record { released = false; claimed = claimed })
    → IsHeld i (step (handler_starts i) g)
unfolding step held_handler_starts
started-IsHeld i g claimed h = get_elem?-claimed (g.slots) i claimed h

-- When the handler of a request starts under `hold` while the request's slot is taken, claimed before
-- or not, the slot is claimed, and it stays taken through any events, ends of the response included,
-- until that handler settles; its settling then frees the slot and lowers the counter by one.
pub run-IsHeld :
    (i : ℕ) (es : List Event) (g : Gate) (claimed : Bool)
    → get_elem? (g.slots) i ≡ some (record { released = false; claimed = claimed })
    → Unsettled i es
    → let after : Gate = run es (step (handler_starts i) g) in
      IsHeld i after
      × ((step (handler_settles i) after).in_flight ≡ after.in_flight - 1)
      × (get_elem? ((step (handler_settles i) after).slots) i
          ≡ some (record { released = true; claimed = true }))
run-IsHeld i es g claimed h u =
    let k = still-IsHeld i es (step (handler_starts i) g) (started-IsHeld i g claimed h) u in
    let s = settled i (run es (step (handler_starts i) g)) k in (k, s.0, s.1)
