-- ===== src/Tests/Gate.antt =====
-- src/server/concurrency_gate.js on a gate of two places.
use xchain_encoder.Base.{◌-◌, ◌≡◌, refl, true, false, some, List, [], ◌∷◌, get_elem?}
use xchain_encoder.Gate.Machine.{
  Gate, create_concurrency_gate, Event, request, finish, close, handler_starts, handler_settles,
  step, run,
}
use xchain_encoder.Gate.Accounting.{IsCounted, run-create-IsCounted}
use xchain_encoder.Gate.Holding.{IsHeld, run-IsHeld}

-- Three requests, the third over the cap, and a client that goes away twice.
abbrev crowd : List Event
crowd = request false ∷ request false ∷ request false ∷ close 0 ∷ finish 0 ∷ []

run-create-IsCounted_example : IsCounted 2 (run crowd (create_concurrency_gate 2))
run-create-IsCounted_example = run-create-IsCounted 2 crowd

-- A request that has its slot; its client goes away while its handler runs under `hold`.
abbrev taken_gate : Gate
taken_gate = run (request false ∷ []) (create_concurrency_gate 2)

abbrev while_held : Gate
while_held = run (close 0 ∷ request false ∷ []) (step (handler_starts 0) taken_gate)

slot_taken : get_elem? (taken_gate.slots) 0 ≡ some (record { released = false; claimed = false })
unfolding run create_concurrency_gate step
slot_taken = refl

run-IsHeld_example :
    IsHeld 0 while_held
    × ((step (handler_settles 0) while_held).in_flight ≡ while_held.in_flight - 1)
    × (get_elem? ((step (handler_settles 0) while_held).slots) 0
        ≡ some (record { released = true; claimed = true }))
run-IsHeld_example = run-IsHeld 0 (close 0 ∷ request false ∷ []) taken_gate false slot_taken tt
