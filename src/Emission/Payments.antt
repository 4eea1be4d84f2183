-- ===== src/Emission/Payments.antt =====
-- The emission from its start to its end: `priceRevealCustomOutputs`, `initEmissionState`,
-- `emitDataOutputs` and `emitCustomOutputs` of
-- src/XChainEncoder/build_transaction/data_outputs.js, for a build that spends no reveal's legs.
use xchain_encoder.Base.{
  ℕ, ◌+◌, false, not, ◌&&◌, none, some, List, [], ◌∷◌, map, ltb, ◌==◌, if◌then◌else◌,
}
use xchain_encoder.Failures.{Result, ok, throw, internal, param_range, throw_if, ◌>>=◌, ◌>>◌}
use xchain_encoder.Payload.Slices.{Bytes}
use xchain_encoder.Payload.Carriers.{Encoding, op_return, p2sh, p2wsh, multisign, taproot, auto}
use xchain_encoder.Fees.Policy.{fee_for_vsize, soft_dust_surcharge_for}
use xchain_encoder.Selection.State.{max_satoshi_u64}
use xchain_encoder.Emission.Plan.{Library, Payment, Plan, Emission, is_p2sh_family, with_output}
use xchain_encoder.Emission.Carriers.{
  emit_op_return_chunk, emit_multisign_chunk, emit_envelope_commit,
}
use xchain_encoder.Emission.Legs.{payments_size, fund_p2sh_leg, fund_p2wsh_leg}

-- The total of the payments; a value above the u64 maximum is refused.
unfoldable pub payments_value : ℕ → List Payment → Result ℕ
payments_value value [] = ok value
payments_value value (p ∷ ps) =
    throw_if (ltb max_satoshi_u64 (p.value)) param_range >> payments_value (value + p.value) ps

-- What the reveal will pay out, the bytes of that, and their fee.
unfoldable pub reveal_payments_size : Plan → ℕ
unfolding payments_size
reveal_payments_size plan =
    if is_p2sh_family (plan.encoding) then payments_size 0 (plan.custom_outputs) else 0

unfoldable pub reveal_payments_fee : Plan → ℕ
unfolding reveal_payments_size fee_for_vsize soft_dust_surcharge_for
reveal_payments_fee plan =
    let bytes = reveal_payments_size plan in
    if bytes == 0
    then 0
    else fee_for_vsize bytes (plan.rate)
      + soft_dust_surcharge_for (map (λ p. p.value) (plan.custom_outputs)) (plan.soft_dust_floor)

unfoldable pub reveal_payments_value : Plan → Result ℕ
unfolding payments_value
reveal_payments_value plan =
    if is_p2sh_family (plan.encoding) then payments_value 0 (plan.custom_outputs) else ok 0

unfoldable pub init_emission_state : Plan → ℕ → Emission
unfolding reveal_payments_fee
init_emission_state plan value = record {
  outputs = [];
  output_satoshis = 0;
  estimated_tx_size = 10;
  reveal_custom_outputs_value = value;
  reveal_custom_outputs_fee = reveal_payments_fee plan;
  p2sh_reveal_headroom_funded = false;
  reveal_prefund = none;
  envelope = none;
}

module _ (library : Library) (plan : Plan) where
  unfoldable pub emit_chunk_as : Encoding → Bytes → Emission → Result Emission
  unfolding emit_op_return_chunk emit_multisign_chunk emit_envelope_commit fund_p2sh_leg
      fund_p2wsh_leg reveal_payments_size
  emit_chunk_as op_return chunk e = ok (emit_op_return_chunk library plan chunk e)
  emit_chunk_as p2sh chunk e =
      ok (fund_p2sh_leg plan library (reveal_payments_size plan == 0) chunk e)
  emit_chunk_as p2wsh chunk e =
      ok (fund_p2wsh_leg plan library (reveal_payments_size plan == 0) chunk e)
  emit_chunk_as multisign chunk e = emit_multisign_chunk library plan chunk e
  emit_chunk_as taproot chunk e = ok (emit_envelope_commit library plan chunk e)
  emit_chunk_as auto chunk e = ok e

  unfoldable pub emit_data_outputs : List Bytes → Emission → Result Emission
  unfolding emit_chunk_as
  emit_data_outputs [] e = ok e
  emit_data_outputs (chunk ∷ chunks) e =
      emit_chunk_as (plan.encoding) chunk e >>= λ next. emit_data_outputs chunks next

  -- bitcoinjs-lib throws on an address that does not parse.
  unfoldable pub emit_payment : Payment → Emission → Result Emission
  emit_payment p e =
      throw_if (ltb max_satoshi_u64 (p.value)) param_range
      >> throw_if (p.value == 0) param_range
      >> throw_if (not (p.is_fee_quote) && ltb (p.value) (plan.payment_output_floor)) param_range
      >> elim (p.script) [
        | none ↦ throw internal
        | some script ↦ ok (with_output script (p.value) 43 e)
      ]

  unfoldable pub emit_payments : List Payment → Emission → Result Emission
  unfolding emit_payment
  emit_payments [] e = ok e
  emit_payments (p ∷ ps) e = emit_payment p e >>= λ next. emit_payments ps next

  -- The payments of a two-phase build are the reveal's.
  unfoldable pub emit_custom_outputs : Emission → Result Emission
  unfolding emit_payments
  emit_custom_outputs e =
      if is_p2sh_family (plan.encoding) then ok e else emit_payments (plan.custom_outputs) e

  unfoldable pub soft_dust_surcharge_of : Emission → ℕ
  unfolding soft_dust_surcharge_for
  soft_dust_surcharge_of e =
      soft_dust_surcharge_for (map (λ o. o.value) (e.outputs)) (plan.soft_dust_floor)

  unfoldable pub emit_outputs : Result Emission
  unfolding reveal_payments_value init_emission_state emit_data_outputs emit_custom_outputs
  emit_outputs = reveal_payments_value plan >>= λ value.
      emit_data_outputs (plan.chunks) (init_emission_state plan value) >>= λ emitted.
      emit_custom_outputs emitted
