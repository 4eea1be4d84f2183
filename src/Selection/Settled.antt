-- ===== src/Selection/Settled.antt =====
-- The fee settlement of src/XChainEncoder/build_transaction/fee_settlement.js on what the selection of
-- input_selection.js beside it hands over.
use xchain_encoder.Base.{
  ℕ, ◌+◌, ◌≤◌, ◌<◌, ◌≡◌, refl, ◌↔◌, inl, inr, true, false, Option, List, arith, length,
}
use xchain_encoder.Failures.{ok}
use xchain_encoder.Reservations.State.{Ledger, Encoder}
use xchain_encoder.Fees.Settlement.{
  Build, AncestorPackage, reaches_relay_minimum, refuse_excessive_fee, settle_fees,
}
use xchain_encoder.Fees.Change.{settle_fees-balanced, settle_fees-funded}
use xchain_encoder.Selection.State.{Candidate, Order, State, selected, World}
use xchain_encoder.Selection.Skipping.{selection_target_fee}
use xchain_encoder.Selection.Checks.{init_selection, select_funding_inputs}
use xchain_encoder.Selection.Rounds.{candidates_of}
use xchain_encoder.Selection.Covered.{select_funding_inputs-selected}

-- The figures of the build that the selection writes.
abbrev pub hand_over : Order → State → Build → Build
hand_over order st build = record build {
  fee = order.fee;
  p2sh_hash = false;
  rate = order.rate;
  estimated_tx_size = st.estimated_tx_size;
  estimated_fee = st.estimated_fee;
  soft_dust_surcharge = order.soft_dust_surcharge;
  input_satoshis = st.input_satoshis;
  output_satoshis = order.output_satoshis;
}

-- Take a selection that stopped early, with candidates left that it neither added nor counted as
-- reserved, and a change address, and a fee that passes both checks of the supplied fee. Then the
-- settlement returns a build exactly if the inputs also cover the outputs, the dust threshold and
-- the soft-dust surcharge together; where there is no surcharge it always returns one, and its
-- inputs are its outputs, the fee and the change.
pub select_funding_inputs-settles :
    (world : World) (order : Order) (candidates : List Candidate) (fee : Option ℕ) (size : ℕ)
    (enc : Encoder) (calls : Ledger) (st : State) (bound : ℕ) (ancestors : Option AncestorPackage)
    (build : Build)
    → select_funding_inputs world order candidates (init_selection order fee size enc calls)
      ≡ selected st
    → st.reserved_candidates + length (candidates_of (st.picked)) < length candidates
    → build.change ≡ true
    → reaches_relay_minimum (order.dust_amount) (hand_over order st build) ≡ true
    → refuse_excessive_fee (order.dust_amount) (hand_over order st build) ≡ ok tt
    → let settle = settle_fees (order.dust_amount) bound ancestors (hand_over order st build) in
      ((order.output_satoshis + (order.dust_amount + order.soft_dust_surcharge) ≤ st.input_satoshis)
        ↔ ((after : Build) × (settle ≡ ok after)))
      × (order.soft_dust_surcharge ≡ 0
          → (after : Build) × (settle ≡ ok after)
            × (after.input_satoshis
                ≡ after.output_satoshis + after.estimated_fee + after.change_satoshis))
select_funding_inputs-settles world order candidates fee size enc calls st bound ancestors build h
      early change relay fair =
    let (_, _, _, _, _, _, ended) =
      select_funding_inputs-selected world order candidates fee size enc calls st h in
    let covers : order.output_satoshis + selection_target_fee (order.dust_amount) (st.estimated_fee)
        < st.input_satoshis =
      elim ended [ inl lt ↦ lt | inr e ↦ absurd (omega (arith, e, early)) ] in
    let funds =
      settle_fees-funded (order.dust_amount) bound ancestors (hand_over order st build) refl change
        relay fair in
    let bounds : (after : Build)
        → settle_fees (order.dust_amount) bound ancestors (hand_over order st build) ≡ ok after
        → order.output_satoshis + (order.dust_amount + order.soft_dust_surcharge)
          ≤ st.input_satoshis =
      λ after e.
        let (inputs, balance, fees, outputs, _) =
          settle_fees-balanced (order.dust_amount) bound ancestors (hand_over order st build) after
            refl e in
        omega (arith, inputs, balance, fees, outputs) in
    (
      (
        λ le. let (after, e, _) = funds (omega (arith, covers, le)) in (after, e),
        λ r. bounds (r.0) (r.1),
      ),
      λ none'. funds (omega (arith, covers, none')),
    )
