-- ===== src/Selection/Loop.antt =====
-- `selectInputs` of src/XChainEncoder/build_transaction/input_selection.js.
use xchain_encoder.Base.{
  ◌+◌, Bool, true, false, not, ◌&&◌, List, [], ◌∷◌, ◌++◌, map, ltb, leb, if◌then◌else◌,
}
use xchain_encoder.Failures.{ok, throw}
use xchain_encoder.Reservations.Operations.{evict_expired_reservations}
use xchain_encoder.Sizes.Floor.{Selection, clears_stripped_floor}
use xchain_encoder.Selection.State.{
  max_utxo_count, Candidate, Order, State, Outcome, selected, refused, World,
}
use xchain_encoder.Selection.Skipping.{selection_target_fee, capped_failure, skip_reserved_input}
use xchain_encoder.Selection.Adding.{refuse_unsignable_input, add_selected_input}

module _ (world : World) where
  -- The PSBT so far, as the stripped floor reads it.
  abbrev pub selection_of : Order → State → Selection
  selection_of order st = record {
    psbt = record order.psbt { tx_inputs = order.psbt.tx_inputs ++ map (λ p. p.tx_in) (st.picked) };
    inputs = map (λ p. p.signing) (st.picked);
    p2sh_hash = false;
    change = order.change;
    output_satoshis = order.output_satoshis;
  }

  -- The test that ends the loop early.
  unfoldable pub is_funded : Order → State → Bool
  unfolding clears_stripped_floor
  is_funded order st =
      let target = selection_target_fee (order.dust_amount) (st.estimated_fee) in
      not (order.exact_inputs)
      && (ltb (order.output_satoshis + target) (st.input_satoshis)
          && clears_stripped_floor (order.coin) (order.output_floor) (selection_of order st)
              (st.input_satoshis) target)

  -- One round on the candidate at the head, before the test: the state, and whether it was added.
  unfoldable pub select_round : Order → Candidate → List Candidate → State → Outcome × Bool
  unfolding capped_failure refuse_unsignable_input skip_reserved_input add_selected_input
  select_round order c cs st =
      let (enc', calls', skipped) = skip_reserved_input order c (st.calls) (st.enc) in
      let st' = record st { enc = enc'; calls = calls' } in
      if leb max_utxo_count (st.selected_input_count)
      then (refused (capped_failure order (c ∷ cs) st) st, false)
      else elim (refuse_unsignable_input world order c) [
        | throw failure ↦ (refused failure st, false)
        | ok done ↦
            if skipped
            then (selected (record st' { reserved_candidates = st.reserved_candidates + 1 }), false)
            else (add_selected_input world order c st', true)
      ]

  unfoldable pub select_loop : Order → List Candidate → State → Outcome
  unfolding select_round is_funded
  select_loop order [] st = selected st
  select_loop order (c ∷ cs) st =
      let (outcome, added) = select_round order c cs st in
      elim outcome [
        | refused failure st' ↦ refused failure st'
        | selected st' ↦
            let rest = select_loop order cs st' in
            if added && is_funded order st' then selected st' else rest
      ]

  unfoldable pub select_inputs : Order → List Candidate → State → Outcome
  unfolding select_loop evict_expired_reservations
  select_inputs order candidates st =
      select_loop order candidates
        (record st { enc = evict_expired_reservations (order.now) (st.enc) })
