-- ===== src/Emission/Carriers.antt =====
-- One output for each chunk of an OP_RETURN, MULTISIGN or TAPROOT payload: `emitOpReturnChunk`,
-- `emitMultisignChunk` and `emitEnvelopeCommit` of
-- src/XChainEncoder/build_transaction/data_outputs.js.
use xchain_encoder.Base.{
  ℕ, ◌+◌, max, Bool, false, Option, none, some, [], ◌∷◌, ltb, if◌then◌else◌, length, take, drop,
}
use xchain_encoder.Failures.{Result, ok, ◌>>=◌}
use xchain_encoder.Payload.Slices.{Bytes}
use xchain_encoder.Sizes.Estimator.{
  estimate_op_return_output, estimate_multisign_output, estimate_taproot_output,
  estimate_output_size_for_address, estimate_envelope_reveal_tx,
}
use xchain_encoder.Fees.Policy.{fee_for_vsize}
use xchain_encoder.Emission.Plan.{
  Library, Plan, Emission, obfuscate, data_to_pubkey, bare_multisig_relay_dust_for, with_output,
}

module _ (library : Library) (plan : Plan) where
  unfoldable pub emit_op_return_chunk : Bytes → Emission → Emission
  unfolding obfuscate estimate_op_return_output
  emit_op_return_chunk chunk e =
      let obfuscated = obfuscate library chunk (plan.txid_first_input) in
      with_output (library.embed obfuscated) 0 (estimate_op_return_output obfuscated) e

  -- The 1-of-3 script: two points of payload and the caller's key.
  unfoldable pub multisign_script : Bytes → Bytes
  unfolding obfuscate data_to_pubkey
  multisign_script chunk =
      let obfuscated = obfuscate library chunk (plan.txid_first_input) in
      library.p2ms_output (
        data_to_pubkey (take 32 obfuscated)
        ∷ data_to_pubkey (drop 32 obfuscated)
        ∷ plan.compressed_pub_key
        ∷ [])

  unfoldable pub emit_multisign_chunk : Bytes → Emission → Result Emission
  unfolding multisign_script bare_multisig_relay_dust_for
  emit_multisign_chunk chunk e =
      let script = multisign_script chunk in
      bare_multisig_relay_dust_for (plan.coin) (length script) (plan.dust_amount) >>= λ dust.
      ok (with_output script (max (plan.final_dust) dust) estimate_multisign_output e)

  abbrev pub reveal_change_address : Option (Option Bytes)
  reveal_change_address = elim (plan.change) [
    | none ↦ some (plan.caller_address)
    | some address ↦ some address
  ]

  -- A reveal under the floor carries a pad as large as its change output.
  unfoldable pub reveal_pad_needed : ℕ → Bool
  reveal_pad_needed change_bytes = elim (plan.min_standard_tx_non_witness_size) [
    | none ↦ false
    | some floor ↦ ltb (10 + 41 + change_bytes) floor
  ]

  unfoldable pub envelope_reveal_vsize : Bytes → ℕ
  unfolding reveal_pad_needed estimate_envelope_reveal_tx estimate_output_size_for_address
  envelope_reveal_vsize chunk =
      let change_bytes = estimate_output_size_for_address reveal_change_address in
      estimate_envelope_reveal_tx (length chunk)
        (change_bytes + (if reveal_pad_needed change_bytes then change_bytes else 0))
        (plan.min_standard_tx_non_witness_size)

  -- The commit output prefunds the reveal's fee, its change and its pad.
  unfoldable pub emit_envelope_commit : Bytes → Emission → Emission
  unfolding reveal_pad_needed envelope_reveal_vsize fee_for_vsize estimate_output_size_for_address
  emit_envelope_commit chunk e =
      let pad_needed = reveal_pad_needed (estimate_output_size_for_address reveal_change_address) in
      let reveal_vsize = envelope_reveal_vsize chunk in
      let reveal_fee = max (fee_for_vsize reveal_vsize (plan.rate)) (plan.final_dust) in
      let commit_value =
        reveal_fee + plan.dust_amount + (if pad_needed then plan.dust_amount else 0) in
      with_output (library.p2tr_output (plan.internal_pubkey) chunk) commit_value
        estimate_taproot_output
        (record e {
          reveal_prefund = some (record {
            output_index = length (e.outputs);
            reveal_size = reveal_vsize;
            reveal_fee = reveal_fee;
          });
          envelope = some (record { commit_value = commit_value; reveal_fee = reveal_fee });
        })
