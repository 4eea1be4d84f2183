-- ===== src/Tests/Conserved.antt =====
-- A build from its outputs to its change, in src/XChainEncoder/build_transaction.
use xchain_encoder.Sizes.Reveals.{
  TxOut, estimate_spending_p2sh_tx, estimate_p2sh_reveal_tx, p2sh_inputs_loop,
}
use xchain_encoder.Sizes.Framing.{compiled_push_size, compact_size_len}
use xchain_encoder.Emission.Change.{emit_change, emit_change-paid}
use xchain_encoder.Payload.Slices.{Bytes}
use xchain_encoder.Base.{
  ℕ, ◌+◌, ◌≤◌, max, ◌≡◌, refl, Option, none, some, List, [], ◌∷◌, ◌++◌, replicate, string_discrete,
}
use xchain_encoder.Failures.{ok, Result, throw}
use xchain_encoder.Reservations.State.{no_reservations}
use xchain_encoder.Sizes.Floor.{clears_stripped_floor, core_stripped_floor}
use xchain_encoder.Fees.Settlement.{
  Build, reaches_relay_minimum, refuse_excessive_fee, settle_fees, RevealPrefund,
  refuse_insufficient_relay_fee, uplift_for_ancestors, floor_estimated_fee, prefund_reveal_package,
  prefund_commit, compute_change,
}
use xchain_encoder.Sizes.Estimator.{
  bytes_eq, estimate_input_size, input_size_for_script, estimate_op_return_output,
  estimate_p2sh_input_with_redeem, estimate_output_size_for_address,
}
use xchain_encoder.Fees.Policy.{fee_for_vsize, soft_dust_surcharge_for}
use xchain_encoder.Reservations.Operations.{
  is_outpoint_reserved, reserve_outpoint, claim_outpoint, evict_expired_reservations,
}
use xchain_encoder.Selection.Scripts.{is_segwit_utxo, nested_p2wpkh_redeem, is_p2sh_script}
use xchain_encoder.Selection.Skipping.{is_skipped, skip_reserved_input}
use xchain_encoder.Selection.Adding.{
  framing_bytes_for_input, is_segwit, refuse_unsignable_input, added_input, nested_redeem,
  with_input, add_selected_input,
}
use xchain_encoder.Selection.Loop.{is_funded, select_round, select_loop, select_inputs}
use xchain_encoder.Selection.Checks.{
  refuse_empty_selection, refuse_first_input_race, init_selection, select_funding_inputs,
}
use xchain_encoder.Selection.State.{Candidate, Order, State, selected}
use xchain_encoder.Selection.Rounds.{value_of, candidates_of}
use xchain_encoder.Selection.Settled.{hand_over}
use xchain_encoder.Emission.Legs.{
  payments_size, base_legs_total, whole_reveal_size, reveal_fee_needed, top_up_first_leg,
  fund_p2sh_leg, chunk_size,
}
use xchain_encoder.Emission.Payments.{
  payments_value, reveal_payments_size, reveal_payments_fee, reveal_payments_value,
  init_emission_state, emit_chunk_as, emit_data_outputs, emit_custom_outputs, emit_outputs,
}
use xchain_encoder.Emission.Accounting.{outputs_value}
use xchain_encoder.Tests.Selection.{segwit_world, large, action_order, ledger, state_of, unsettled}
use xchain_encoder.Tests.Emission.{plain, two_legs, funded, two_legs_emitted}
use xchain_encoder.Emission.Conserved.{settle_fees-conserved}

-- The order of the two legs, funded by one large output.
abbrev legs_order : Order
legs_order = record action_order { output_satoshis = 6123 }

abbrev rich : Candidate
rich = record large { utxo = record large.utxo { value = 90000 } }

abbrev legs_spent : State
legs_spent = state_of (
    select_funding_inputs segwit_world legs_order (rich ∷ [])
      (init_selection legs_order none 100 no_reservations ledger))

abbrev settled_or : Result Build → Build
settled_or (ok build) = build
settled_or (throw failure) = unsettled

abbrev legs_settled : Build
legs_settled = settled_or (settle_fees 500 1000 none (hand_over legs_order legs_spent unsettled))

legs_sum : ◌≡◌ {A = ℕ} 6123 (funded.output_satoshis)
unfolding emit_outputs reveal_payments_value payments_value init_emission_state reveal_payments_fee
    reveal_payments_size payments_size emit_data_outputs emit_chunk_as fund_p2sh_leg
    top_up_first_leg emit_custom_outputs base_legs_total chunk_size reveal_fee_needed
    whole_reveal_size estimate_spending_p2sh_tx estimate_p2sh_reveal_tx p2sh_inputs_loop
    estimate_op_return_output estimate_p2sh_input_with_redeem estimate_output_size_for_address
    compiled_push_size compact_size_len fee_for_vsize soft_dust_surcharge_for
legs_sum = refl

abbrev change_script : Bytes
change_script = replicate 22 8

abbrev legs_outputs : List TxOut
legs_outputs =
    funded.outputs ++ record { value = legs_settled.change_satoshis; script = change_script } ∷ []

legs_lem :
    (select_funding_inputs segwit_world legs_order
        (rich ∷ [])
        (init_selection legs_order none 100 no_reservations ledger)
      ≡ selected legs_spent)
    × (settle_fees 500 1000 none (hand_over legs_order legs_spent unsettled) ≡ ok legs_settled)
    × (emit_change 546 (some (some change_script)) (legs_settled.change_satoshis) (funded.outputs)
        ≡ ok legs_outputs)
unfolding select_funding_inputs select_inputs select_loop select_round is_funded skip_reserved_input
    is_skipped is_outpoint_reserved claim_outpoint reserve_outpoint refuse_unsignable_input
    is_segwit is_segwit_utxo add_selected_input added_input nested_redeem nested_p2wpkh_redeem
    is_p2sh_script with_input framing_bytes_for_input estimate_input_size input_size_for_script
    bytes_eq fee_for_vsize clears_stripped_floor core_stripped_floor init_selection
    refuse_empty_selection refuse_first_input_race evict_expired_reservations string_discrete
    reaches_relay_minimum settle_fees refuse_insufficient_relay_fee refuse_excessive_fee
    uplift_for_ancestors floor_estimated_fee prefund_reveal_package prefund_commit compute_change
    emit_change
legs_lem = (refl, refl, refl)

settle_fees-conserved_example :
    (raised : ℕ) × (value_of (candidates_of (legs_spent.picked))
      ≡ outputs_value (funded.outputs)
        + raised
        + legs_settled.estimated_fee
        + legs_settled.change_satoshis)
    × (◌≡◌ {A = Option RevealPrefund} none none → raised ≡ 0)
    × ((p : RevealPrefund)
        → ◌≡◌ {A = Option RevealPrefund} none (some p)
        → (q : RevealPrefund) × (legs_settled.reveal_prefund ≡ some q)
          × (q.commit_value ≡ p.commit_value + raised))
settle_fees-conserved_example =
    settle_fees-conserved plain two_legs funded segwit_world legs_order (rich ∷ []) none 100
      no_reservations ledger legs_spent 500 1000 none unsettled legs_settled two_legs_emitted
      legs_sum legs_lem.0 legs_lem.1

emit_change-paid_example :
    (raised paid : ℕ) × (value_of (candidates_of (legs_spent.picked))
      ≡ outputs_value legs_outputs + raised + paid)
    × (legs_settled.estimated_fee ≤ paid)
    × (paid ≤ legs_settled.estimated_fee + max 500 546)
    × (◌≡◌ {A = Option RevealPrefund} none none → raised ≡ 0)
emit_change-paid_example =
    emit_change-paid plain two_legs funded segwit_world legs_order (rich ∷ []) none 100
      no_reservations ledger legs_spent 500 1000 none unsettled legs_settled
      (some (some change_script)) legs_outputs two_legs_emitted legs_sum legs_lem.0 legs_lem.1 refl
      legs_lem.2
