-- ===== src/Gate/Machine.antt =====
-- The middleware, the slots and the `hold` wrapper of src/server/concurrency_gate.js. A request is
-- the index of its slot; the counters are those that the closures share.
use xchain_encoder.Base.{
  ℕ, zero, suc, ◌+◌, ◌-◌, Bool, true, false, not, ◌||◌, Option, none, some, List, [], ◌∷◌, ◌++◌,
  leb, ◌==◌, if◌then◌else◌, length, get_elem?,
}

-- `parseInt(rawValue, 10)`: a finite whole number, signed here by its two parts, or NaN.
pub data Parsed : Type 0 where
  nan : Parsed
  positive : ℕ → Parsed
  negative : ℕ → Parsed

abbrev pub positive_or_zero : Parsed → ℕ
positive_or_zero (positive n) = n
positive_or_zero _ = 0

unfoldable pub resolve_limit : Parsed → Parsed → ℕ
resolve_limit nan default_limit = positive_or_zero default_limit
resolve_limit (positive n) default_limit = n
resolve_limit (negative n) default_limit = 0

-- The slot that `attachSlot` puts on a request, with the closure's `released` flag.
pub record Slot : Type 0 where
  pub released : Bool
  pub claimed : Bool

-- `skip` exempts a request from the cap.
pub record Gate : Type 0 where
  pub limit : ℕ
  pub in_flight : ℕ
  pub shed : ℕ
  pub slots : List Slot

unfoldable pub create_concurrency_gate : ℕ → Gate
create_concurrency_gate limit = record { limit = limit; in_flight = 0; shed = 0; slots = [] }

pub data Answer : Type 0 where
  -- `next()`, with the index of the request's slot if the gate gave it one.
  passed : Option ℕ → Answer
  -- 429 with Retry-After.
  refused : Answer

-- The middleware on one request; `skipped` is what `skip(req)` returned.
unfoldable pub concurrency_gate : Bool → Gate → Gate × Answer
concurrency_gate skipped g =
    if (g.limit == 0) || skipped
    then (g, passed none)
    else if leb (g.limit) (g.in_flight)
    then (record g { shed = g.shed + 1 }, refused)
    else (
      record g {
        in_flight = g.in_flight + 1;
        slots = g.slots ++ record { released = false; claimed = false } ∷ [];
      },
      passed (some (length (g.slots))),
    )

-- A write to the slot of request `i`.
abbrev pub update_slot : (Slot → Slot) → ℕ → List Slot → List Slot
update_slot f i [] = []
update_slot f zero (s ∷ ss) = f s ∷ ss
update_slot f (suc i) (s ∷ ss) = s ∷ update_slot f i ss

abbrev pub mark_released : Slot → Slot
mark_released s = record s { released = true }

abbrev pub mark_claimed : Slot → Slot
mark_claimed s = record s { claimed = true }

-- The `release` closure of request `i`: `inFlight` is decremented once.
unfoldable pub release : ℕ → Gate → Gate
release i g = elim (get_elem? (g.slots) i) [
  | none ↦ g
  | some s ↦
      if s.released
      then g
      else record g { in_flight = g.in_flight - 1; slots = update_slot mark_released i (g.slots) }
]

-- 'finish' and 'close' of the response: `releaseIfUnclaimed`.
unfoldable pub release_if_unclaimed : ℕ → Gate → Gate
unfolding release
release_if_unclaimed i g = elim (get_elem? (g.slots) i) [
  | none ↦ g
  | some s ↦ if not (s.claimed) then release i g else g
]

-- A handler under `hold` takes its slot, and its `finally` frees it.
unfoldable pub held_handler_starts : ℕ → Gate → Gate
held_handler_starts i g = record g { slots = update_slot mark_claimed i (g.slots) }

unfoldable pub held_handler_settles : ℕ → Gate → Gate
unfolding release
held_handler_settles i g = release i g

pub data Event : Type 0 where
  request : Bool → Event
  finish close handler_starts handler_settles : ℕ → Event

unfoldable pub step : Event → Gate → Gate
unfolding concurrency_gate release_if_unclaimed held_handler_starts held_handler_settles
step (request skipped) g = (concurrency_gate skipped g).0
step (finish i) g = release_if_unclaimed i g
step (close i) g = release_if_unclaimed i g
step (handler_starts i) g = held_handler_starts i g
step (handler_settles i) g = held_handler_settles i g

-- Any interleaving of the events.
unfoldable pub run : List Event → Gate → Gate
run [] g = g
run (e ∷ es) g = run es (step e g)
