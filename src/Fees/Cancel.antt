-- ===== src/Fees/Cancel.antt =====
-- The fee of an envelope cancel, in src/XChainEncoder/envelope_cancel.js: `cancelFeeRate` and
-- `sizeCancelSweep`. The node's answers are arguments; rates are base units per kilobyte.
use xchain_encoder.Base.{
  ℕ, ◌+◌, ◌-◌, ◌≤◌, max, ◌≡◌, refl, ◌↔◌, Bool, true, false, ◌&&◌, Option, none, some, arith, ltb,
  ◌==◌, if◌then◌else◌,
}
use xchain_encoder.Failures.{
  Result, ok, throw, internal, param_range, operational, envelope_cancel_below_dust, ◌>>◌, throw_if,
}
use xchain_encoder.Payload.Slices.{Bytes}
use xchain_encoder.Sizes.Estimator.{estimate_output_size_for_address, ceil_quarter, floored}
use xchain_encoder.Fees.Policy.{fee_for_vsize, cap_caller_fee_rate}

-- The caller's rate, or the node's; then the node's estimate, which may have failed beside a
-- caller's rate but not without one.
unfoldable pub cancel_fee_rate : Option ℕ → Option ℕ → ℕ → Option ℕ → ℕ → Result ℕ
unfolding cap_caller_fee_rate
cancel_fee_rate caller_rate node_rate relay_rate max_rate multiplier =
    let capped : ℕ → ℕ =
      λ rate. (cap_caller_fee_rate rate node_rate relay_rate max_rate multiplier).rate in
    if relay_rate == 0 then throw internal else elim caller_rate [
      | some rate ↦ ok (capped rate)
      | none ↦ elim node_rate [ none ↦ throw internal | some rate ↦ ok (capped rate) ]
    ]

-- Whether the floor asks for a pad output.
abbrev pub below_floor : ℕ → Option ℕ → Bool
below_floor bytes none = false
below_floor bytes (some floor) = ltb bytes floor

unfoldable pub cancel_vsize : ℕ → Option ℕ → ℕ
cancel_vsize dest_out_bytes floor =
    let pad = if below_floor (10 + 41 + dest_out_bytes) floor then dest_out_bytes else 0 in
    floored (10 + 41 + dest_out_bytes + pad) floor + ceil_quarter (2 + 1 + 1 + 65) + 2

pub record Sweep : Type 0 where
  pub pad_needed : Bool
  pub cancel_fee : ℕ
  pub sweep_value : ℕ

-- What the pad output takes.
abbrev pub pad_value : ℕ → Bool → ℕ
pad_value dust pad_needed = if pad_needed then dust else 0

-- `caller` is whether the caller gave the rate. A value under the fee and the pad is below dust.
unfoldable pub size_cancel_sweep :
    ℕ → Option ℕ → Option (Option Bytes) → ℕ → ℕ → ℕ → Bool → Result Sweep
unfolding cancel_vsize estimate_output_size_for_address fee_for_vsize
size_cancel_sweep dust floor destination value rate relay_rate caller =
    let dest_out_bytes = estimate_output_size_for_address destination in
    let pad_needed = below_floor (10 + 41 + dest_out_bytes) floor in
    let vsize = cancel_vsize dest_out_bytes floor in
    let rate_fee = fee_for_vsize vsize rate in
    let cancel_fee = if ltb rate_fee dust then dust else rate_fee in
    let spent = cancel_fee + pad_value dust pad_needed in
    throw_if (caller && ltb rate_fee (fee_for_vsize vsize relay_rate)) param_range
    >> throw_if (ltb value (spent + dust)) (operational envelope_cancel_below_dust)
    >> ok (record { pad_needed = pad_needed; cancel_fee = cancel_fee; sweep_value = value - spent })

-- A cancel is sized exactly where the commit value covers the fee, lifted to the dust threshold,
-- the pad and a sweep of the dust threshold, and a caller's rate reaches the relay floor. It then
-- sweeps the commit to the base unit: the sweep, the fee and the pad are its value. The fee
-- pays the rate for the size.
pub size_cancel_sweep-exact :
    (dust : ℕ) (floor : Option ℕ) (destination : Option (Option Bytes)) (value rate relay_rate : ℕ)
    (caller : Bool)
    → let bytes = estimate_output_size_for_address destination in
      let vsize = cancel_vsize bytes floor in
      let fee = max dust (fee_for_vsize vsize rate) in
      let pad = pad_value dust (below_floor (51 + bytes) floor) in
      ((caller ≡ true → fee_for_vsize vsize relay_rate ≤ fee_for_vsize vsize rate)
        × (fee + pad + dust ≤ value))
      ↔ ((sweep : Sweep) × (size_cancel_sweep dust floor destination value rate relay_rate caller
            ≡ ok sweep)
          × (sweep.cancel_fee ≡ fee)
          × (dust ≤ sweep.sweep_value)
          × (value ≡ sweep.sweep_value + sweep.cancel_fee + pad))
unfolding size_cancel_sweep
size_cancel_sweep-exact dust floor destination value rate relay_rate caller =
    let bytes = estimate_output_size_for_address destination in
    let vsize = cancel_vsize bytes floor in
    let fee = max dust (fee_for_vsize vsize rate) in
    let pad = pad_value dust (below_floor (51 + bytes) floor) in
    (
      (λ (reaches, covers). (
        record {
          pad_needed = below_floor (51 + bytes) floor;
          cancel_fee = fee;
          sweep_value = value - (fee + pad);
        },
        ground (arith, reaches, covers),
        refl,
        omega (arith, covers),
        omega (arith, covers),
      )),
      (λ (sweep, done, paid, over, exact).
          (ground (arith, done), omega (arith, paid, over, exact))),
    )
