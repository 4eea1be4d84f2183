-- ===== src/Selection/Checks.antt =====
-- What stands round the loop: `initSelection`, `selectFundingInputs`, `refuseEmptySelection` and
-- `refuseFirstInputRace` of src/XChainEncoder/build_transaction/input_selection.js.
use xchain_encoder.Base.{
  ℕ, ◌+◌, Bool, true, false, not, ◌&&◌, Option, none, some, List, [], ◌∷◌, ltb, ◌==◌, if◌then◌else◌,
  length,
}
use xchain_encoder.Failures.{param_range, operational, insufficient_funds, input_selection_race}
use xchain_encoder.Payload.Carriers.{Encoding, op_return, multisign}
use xchain_encoder.Reservations.State.{Ledger, Encoder}
use xchain_encoder.Sizes.Estimator.{bytes_eq}
use xchain_encoder.Selection.State.{
  max_utxo_count, Candidate, Order, Picked, State, Outcome, selected, refused, World,
}
use xchain_encoder.Selection.Loop.{select_inputs}

-- The change output and the wider output count; the fee as the caller asked for it.
unfoldable pub init_selection : Order → Option ℕ → ℕ → Encoder → Ledger → State
init_selection order requested_fee estimated_tx_size enc calls = record {
  enc = enc;
  calls = calls;
  picked = [];
  estimated_tx_size =
      estimated_tx_size + 43 + (if ltb 252 (length (order.psbt.tx_outputs) + 1) then 2 else 0);
  estimated_fee = elim requested_fee [ none ↦ 0 | some fee ↦ fee + order.soft_dust_surcharge ];
  input_satoshis = 0;
  selected_input_count = 0;
  reserved_candidates = 0;
  segwit_marker_counted = false;
  unconfirmed_input_txids = [];
}

unfoldable pub refuse_empty_selection : Outcome → Outcome
refuse_empty_selection (refused failure st) = refused failure st
refuse_empty_selection (selected st) =
    if ltb max_utxo_count (st.selected_input_count)
    then refused param_range st
    else if st.selected_input_count == 0
    then refused (operational insufficient_funds) st
    else selected st

abbrev pub binds_to_first_input : Encoding → Bool
binds_to_first_input op_return = true
binds_to_first_input multisign = true
binds_to_first_input _ = false

-- Whether the first input's txid is the key's, where there is a key.
abbrev pub is_first_txid : Option (List ℕ) → List Picked → Bool
is_first_txid none picked = true
is_first_txid (some txid) [] = false
is_first_txid (some txid) (p ∷ ps) = bytes_eq (p.candidate.utxo.txid) txid

unfoldable pub refuse_first_input_race : Order → Outcome → Outcome
unfolding bytes_eq
refuse_first_input_race order (refused failure st) = refused failure st
refuse_first_input_race order (selected st) =
    if (order.has_action_payload && binds_to_first_input (order.encoding))
      && not (is_first_txid (order.txid_first_input) (st.picked))
    then refused (operational input_selection_race) st
    else selected st

-- A build that spends no reveal's outputs.
unfoldable pub select_funding_inputs : World → Order → List Candidate → State → Outcome
unfolding select_inputs refuse_empty_selection refuse_first_input_race
select_funding_inputs world order candidates st =
    refuse_first_input_race order (refuse_empty_selection (select_inputs world order candidates st))
