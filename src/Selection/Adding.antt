-- ===== src/Selection/Adding.antt =====
-- One input: `refuseUnsignableInput`, `assertPrevOutValueMatches`, `addSelectedInput` and
-- `framingBytesForInput` of src/XChainEncoder/build_transaction/input_selection.js.
use xchain_encoder.Base.{
  ℕ, ◌+◌, Bool, true, false, not, ◌&&◌, ◌||◌, Option, none, some, List, [], ◌∷◌, ◌++◌, map, ltb,
  ◌==◌, if◌then◌else◌, get_elem?,
}
use xchain_encoder.Failures.{
  Result, ok, throw, param_type, param_range, internal, operational, utxo_tracker_error, ◌>>=◌,
  ◌>>◌, throw_if,
}
use xchain_encoder.Payload.Slices.{Bytes}
use xchain_encoder.Payload.Carriers.{Encoding, taproot}
use xchain_encoder.Reservations.State.{has}
use xchain_encoder.Sizes.Estimator.{PsbtInput, estimate_input_size}
use xchain_encoder.Sizes.Reveals.{TxOut}
use xchain_encoder.Sizes.Floor.{Signing}
use xchain_encoder.Fees.Policy.{fee_for_vsize}
use xchain_encoder.Inputs.Candidates.{is_unconfirmed_utxo}
use xchain_encoder.Selection.Scripts.{
  is_segwit_utxo, nested_p2wpkh_redeem, matching_legacy_redeem_script,
}
use xchain_encoder.Selection.State.{
  max_satoshi_u64, Candidate, Order, State, Outcome, selected, refused, World,
}

abbrev pub is_taproot : Encoding → Bool
is_taproot taproot = true
is_taproot _ = false

-- `outs[vout]` of a decoded transaction.
abbrev pub prev_out : Option (List TxOut) → ℕ → Option TxOut
prev_out none vout = none
prev_out (some outs) vout = get_elem? outs vout

abbrev pub scripts_of : Option (List TxOut) → Option (List Bytes)
scripts_of none = none
scripts_of (some outs) = some (map (λ o. o.script) outs)

abbrev pub prev_out_pays : Option TxOut → ℕ → Bool
prev_out_pays none value = false
prev_out_pays (some out) value = out.value == value

unfoldable pub framing_bytes_for_input : Bool → Bool → ℕ → ℕ
framing_bytes_for_input segwit_marker_counted witness selected_input_count =
    (if not segwit_marker_counted && witness then 1 else 0)
    + (if selected_input_count == 253 then 2 else 0)

module _ (world : World) where
  unfoldable pub is_segwit : Candidate → Bool
  unfolding is_segwit_utxo
  is_segwit c = is_segwit_utxo (world.decompile) (c.script)

  unfoldable pub refuse_unsignable_input : Order → Candidate → Result (Unit {0})
  unfolding is_segwit
  refuse_unsignable_input order c =
      throw_if (is_taproot (order.encoding) && not (is_segwit c)) param_type
      >> throw_if (not (order.supports_segwit) && is_segwit c) param_type

  unfoldable pub nested_redeem : Order → Candidate → Option Bytes
  unfolding nested_p2wpkh_redeem
  nested_redeem order c =
      nested_p2wpkh_redeem (world.p2wpkh_output) (world.p2sh_output) (order.supports_segwit)
        (order.keys) (c.script)

  unfoldable pub assert_prev_out_value_matches : Bytes → Candidate → Bool → Result (Unit {0})
  assert_prev_out_value_matches prev_tx c fetched_from_tracker =
      throw_if (not (prev_out_pays (prev_out (world.tx_outs prev_tx) (c.utxo.vout)) (c.utxo.value)))
        (if fetched_from_tracker then operational utxo_tracker_error else param_range)

  -- The previous transaction, checked; a node that does not answer throws.
  unfoldable pub checked_prev_tx : Order → Candidate → Result Bytes
  unfolding assert_prev_out_value_matches
  checked_prev_tx order c = elim (world.get_transaction_hex (c.utxo.txid)) [
    | none ↦ throw internal
    | some prev_tx ↦
        assert_prev_out_value_matches prev_tx c (order.fetched_from_tracker) >> ok prev_tx
  ]

  abbrev pub with_some : Result Bytes → Result (Option Bytes)
  with_some r = r >>= λ prev_tx. ok (some prev_tx)

  -- The PSBT input: a witness output with its script, or a whole previous transaction.
  unfoldable pub added_input : Order → Candidate → Result PsbtInput
  unfolding is_segwit nested_redeem checked_prev_tx matching_legacy_redeem_script
  added_input order c =
      let nested = nested_redeem order c in
      let prev_tx = with_some (checked_prev_tx order c) in
      let witness_input : Option Bytes → PsbtInput = λ tx. record {
        witness_script = some (c.script);
        non_witness_utxo = tx;
        index = c.utxo.vout;
        redeem_script = nested;
      } in
      let legacy_input : Option Bytes → PsbtInput = λ tx. record {
        witness_script = none;
        non_witness_utxo = tx;
        index = c.utxo.vout;
        redeem_script = matching_legacy_redeem_script (world.hash160) (c.redeem_script) (c.script);
      } in
      let witness : Result PsbtInput =
        (if order.attach_prev_tx then prev_tx else ok none) >>= λ tx. ok (witness_input tx) in
      let legacy : Result PsbtInput = prev_tx >>= λ tx. ok (legacy_input tx) in
      if has nested || is_segwit c then witness else legacy

  abbrev pub signing_of : PsbtInput → Signing
  signing_of i = record { witness_utxo = has (i.witness_script); redeem_script = i.redeem_script }

  -- The state once the candidate has been added; other builds may run while the node is waited for.
  unfoldable pub with_input : Order → Candidate → PsbtInput → State → State
  unfolding framing_bytes_for_input is_segwit nested_redeem estimate_input_size fee_for_vsize
  with_input order c psbt_input st =
      let count = st.selected_input_count + 1 in
      let witness = has (nested_redeem order c) || is_segwit c in
      let input_size =
        estimate_input_size (world.p2ms) (world.hash160) (λ tx. scripts_of (world.tx_outs tx))
          psbt_input in
      let size =
        st.estimated_tx_size
        + input_size
        + framing_bytes_for_input (st.segwit_marker_counted) witness count in
      record st {
        enc =
            if order.attach_prev_tx || not witness
            then world.other_builds (c.utxo.txid) (st.enc)
            else st.enc;
        picked =
            st.picked
            ++ record {
              candidate = c;
              tx_in = record { hash = c.hash; vout = c.utxo.vout; sequence = order.sequence };
              signing = signing_of psbt_input;
            }
              ∷ [];
        estimated_tx_size = size;
        estimated_fee =
            if order.fee
            then st.estimated_fee
            else fee_for_vsize size (order.rate) + order.soft_dust_surcharge;
        input_satoshis = st.input_satoshis + c.utxo.value;
        selected_input_count = count;
        segwit_marker_counted = st.segwit_marker_counted || witness;
        unconfirmed_input_txids =
            if is_unconfirmed_utxo (c.utxo)
            then st.unconfirmed_input_txids ++ c.utxo.txid ∷ []
            else st.unconfirmed_input_txids;
      }

  -- A claimed candidate is added or refused.
  unfoldable pub add_selected_input : Order → Candidate → State → Outcome
  unfolding added_input with_input
  add_selected_input order c st =
      let added : Result PsbtInput =
        throw_if (ltb max_satoshi_u64 (c.utxo.value)) param_range >> added_input order c in
      elim added [
        | throw failure ↦ refused failure st
        | ok psbt_input ↦ selected (with_input order c psbt_input st)
      ]
