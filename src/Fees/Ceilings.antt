-- ===== src/Fees/Ceilings.antt =====
-- The ceilings and floors of src/XChainEncoder/fee_policy.js.
use xchain_encoder.Base.{
  ℕ, zero, suc, ◌+◌, ◌*◌, ◌≤◌, ◌<◌, ◌≡◌, ◌≢◌, ◌↔◌, ◌⊎◌, false, Option, none, some, arith,
}
use xchain_encoder.Fees.Policy.{
  burn_backstop_multiplier, fee_for_vsize, package_fee_uplift_satoshis, anchor_rate,
  cap_caller_fee_rate,
}

-- No rate below a bound.
abbrev pub IsBelow : ℕ → Option ℕ → Type 0
IsBelow rate none = Unit
IsBelow rate (some bound) = rate ≤ bound

-- The fee is the least whole number of base units that pays the rate: it times a thousand is at
-- least size times rate, and a fee one lower would not be.
fee_for_vsize-least :
    (vsize rate : ℕ)
    → (vsize * rate ≤ 1000 * fee_for_vsize vsize rate)
      × ((fee : ℕ) → vsize * rate ≤ 1000 * fee → fee_for_vsize vsize rate ≤ fee)
unfolding fee_for_vsize
fee_for_vsize-least vsize rate = (grind arith, λ fee h. grind arith)

-- For every combination of the node's estimate, the relay floor, the operator's cap and his
-- multiplier: the resulting rate is at most the caller's; it is within the operator's cap, within
-- his multiple of the anchor and within a hundred times the anchor, where each is set; a rate that is within all of them is
-- kept; and the rate is lowered exactly when the result says so.
pub cap_caller_fee_rate-within :
    (rate : ℕ) (node : Option ℕ) (relay : ℕ) (max_rate : Option ℕ) (multiplier : ℕ)
    → let capped = cap_caller_fee_rate rate node relay max_rate multiplier in
      (capped.rate ≤ rate)
      × IsBelow (capped.rate) max_rate
      × ((anchor : ℕ)
          → anchor_rate node relay ≡ some anchor
          → (capped.rate ≤ anchor * burn_backstop_multiplier)
            × (multiplier ≢ 0 → capped.rate ≤ anchor * multiplier))
      × ((capped.clamped ≡ false) ↔ (capped.rate ≡ rate))
unfolding cap_caller_fee_rate
cap_caller_fee_rate-within rate none zero none multiplier = ground arith
cap_caller_fee_rate-within rate none zero (some m) multiplier = ground arith
cap_caller_fee_rate-within rate none (suc relay) none multiplier = ground arith
cap_caller_fee_rate-within rate none (suc relay) (some m) multiplier = ground arith
cap_caller_fee_rate-within rate (some n) relay none multiplier = ground arith
cap_caller_fee_rate-within rate (some n) relay (some m) multiplier = ground arith

-- For a positive target and non-empty sizes, the package of a transaction and its unconfirmed
-- ancestors pays the target once the uplift is added, and pays no more than that unless it did
-- without the uplift, which then is zero.
package_fee_uplift_satoshis-target :
    (fee size ancestor_size ancestor_fee target : ℕ)
    → 0 < target
    → 0 < size
    → 0 < ancestor_size
    → let uplift = package_fee_uplift_satoshis fee size ancestor_size ancestor_fee target in
      let needed = fee_for_vsize (ancestor_size + size) target in
      (needed ≤ ancestor_fee + fee + uplift)
      × ((ancestor_fee + fee + uplift ≡ needed) ⊎ (uplift ≡ 0))
unfolding package_fee_uplift_satoshis
package_fee_uplift_satoshis-target fee size ancestor_size ancestor_fee target t s a = ground arith
