-- ===== src/Emission/Legs.antt =====
-- The legs that fund a P2SH or P2WSH reveal: `fundP2shLeg`, `fundP2wshLeg`, `topUpFirstLeg`,
-- `sumRevealLegs` and `revealNeedsFloorPad` of
-- src/XChainEncoder/build_transaction/script_hash_legs.js. `asSatValue` keeps the amount.
use xchain_encoder.Base.{
  ℕ, ◌+◌, ◌-◌, ◌*◌, max, Bool, true, false, none, some, List, [], ◌∷◌, ltb, ◌==◌, if◌then◌else◌,
  length,
}
use xchain_encoder.Payload.Slices.{Bytes}
use xchain_encoder.Payload.Carriers.{Encoding, p2sh, p2wsh}
use xchain_encoder.Sizes.Estimator.{
  estimate_p2sh_output, estimate_p2wsh_output, estimate_output_size_for_address,
}
use xchain_encoder.Sizes.Reveals.{
  estimate_spending_p2sh_tx, estimate_p2sh_reveal_tx, estimate_spending_p2wsh_tx,
  estimate_p2wsh_reveal_tx,
}
use xchain_encoder.Fees.Policy.{fee_for_vsize}
use xchain_encoder.Emission.Plan.{Library, Payment, Plan, Emission, with_output}

abbrev pub is_p2sh : Encoding → Bool
is_p2sh p2sh = true
is_p2sh _ = false

unfoldable pub payments_size : ℕ → List Payment → ℕ
unfolding estimate_output_size_for_address
payments_size size [] = size
payments_size size (p ∷ ps) =
    payments_size (size + estimate_output_size_for_address (some (p.script))) ps

module _ (plan : Plan) where
  unfoldable pub reveal_needs_floor_pad : Bool
  unfolding payments_size
  reveal_needs_floor_pad = elim (plan.min_standard_tx_non_witness_size) [
    | none ↦ false
    | some floor ↦ ltb (payments_size (30 + 41 * length (plan.chunks)) (plan.custom_outputs)) floor
  ]

  -- A chunk's share of the reveal, without a pad, before the floor.
  unfoldable pub chunk_size : Encoding → Bytes → ℕ
  unfolding estimate_spending_p2sh_tx estimate_spending_p2wsh_tx
  chunk_size encoding chunk =
      if is_p2sh encoding
      then estimate_spending_p2sh_tx chunk
      else estimate_spending_p2wsh_tx (plan.min_standard_tx_non_witness_size) chunk 0

  unfoldable pub base_legs_total : Encoding → ℕ → List Bytes → ℕ
  unfolding chunk_size fee_for_vsize
  base_legs_total encoding sum [] = sum
  base_legs_total encoding sum (chunk ∷ chunks) =
      base_legs_total encoding
        (sum + max (fee_for_vsize (chunk_size encoding chunk) (plan.rate)) (plan.final_dust)) chunks

  unfoldable pub whole_reveal_size : Encoding → ℕ
  unfolding estimate_p2sh_reveal_tx estimate_p2wsh_reveal_tx
  whole_reveal_size encoding =
      if is_p2sh encoding
      then estimate_p2sh_reveal_tx (plan.chunks) 43
      else estimate_p2wsh_reveal_tx (plan.min_standard_tx_non_witness_size) (plan.chunks) 43

  unfoldable pub reveal_fee_needed : Encoding → ℕ
  unfolding whole_reveal_size fee_for_vsize
  reveal_fee_needed encoding =
      max (fee_for_vsize (whole_reveal_size encoding) (plan.rate)) (plan.dust_amount)

  -- Once: what the legs lack of the reveal's fee, and its change where nothing else is paid.
  unfoldable pub top_up_first_leg : Encoding → Bool → ℕ → Emission → ℕ × Emission
  unfolding base_legs_total whole_reveal_size reveal_fee_needed
  top_up_first_leg encoding needs_change_output value e =
      let needed = reveal_fee_needed encoding in
      let shortfall = needed - base_legs_total encoding 0 (plan.chunks) in
      if e.p2sh_reveal_headroom_funded then (value, e) else (
        value + shortfall + (if needs_change_output then plan.output_floor else 0),
        record e {
          p2sh_reveal_headroom_funded = true;
          reveal_prefund = some (record {
            output_index = length (e.outputs);
            reveal_size = whole_reveal_size encoding;
            reveal_fee = needed;
          });
        },
      )

  -- The reveal's payments and their fee, folded into one leg.
  abbrev pub fold_payments : Emission → Emission
  fold_payments e = record e { reveal_custom_outputs_value = 0; reveal_custom_outputs_fee = 0 }

  unfoldable pub pad_output_bytes : ℕ
  unfolding reveal_needs_floor_pad estimate_output_size_for_address
  pad_output_bytes =
      if reveal_needs_floor_pad then estimate_output_size_for_address (plan.change) else 0

  module _ (library : Library) (needs_change_output : Bool) where
    unfoldable pub fund_p2sh_leg : Bytes → Emission → Emission
    unfolding estimate_spending_p2sh_tx fee_for_vsize top_up_first_leg
    fund_p2sh_leg chunk e =
        let fee =
          max (fee_for_vsize (estimate_spending_p2sh_tx chunk) (plan.rate)) (plan.final_dust) in
        let (value, e') =
          top_up_first_leg p2sh needs_change_output
            (fee + e.reveal_custom_outputs_value + e.reveal_custom_outputs_fee) (fold_payments e) in
        with_output (library.p2sh_output chunk) value estimate_p2sh_output e'

    unfoldable pub fund_p2wsh_leg : Bytes → Emission → Emission
    unfolding estimate_spending_p2wsh_tx fee_for_vsize top_up_first_leg reveal_needs_floor_pad
        pad_output_bytes
    fund_p2wsh_leg chunk e =
        let size =
          estimate_spending_p2wsh_tx (plan.min_standard_tx_non_witness_size) chunk
            pad_output_bytes in
        let fee = max (fee_for_vsize size (plan.rate)) (plan.final_dust) in
        let padded_fee = if reveal_needs_floor_pad then fee + plan.dust_amount else fee in
        let folded = padded_fee + e.reveal_custom_outputs_value + e.reveal_custom_outputs_fee in
        let (topped, topped_e) =
          top_up_first_leg p2wsh needs_change_output folded (fold_payments e) in
        let script = library.p2wsh_output chunk in
        if pad_output_bytes == 0
        then with_output script topped estimate_p2wsh_output topped_e
        else with_output script folded estimate_p2wsh_output (fold_payments e)
