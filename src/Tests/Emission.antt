-- ===== src/Tests/Emission.antt =====
-- The emission of src/XChainEncoder/build_transaction/data_outputs.js on a P2SH build of two chunks with
-- one payment, and on a MULTISIGN build.
use xchain_encoder.Base.{
  ℕ, ◌+◌, max, ◌≡◌, refl, false, none, some, [], ◌∷◌, ◌==◌, if◌then◌else◌, replicate,
}
use xchain_encoder.Failures.{Result, ok, throw}
use xchain_encoder.Payload.Carriers.{p2sh}
use xchain_encoder.Sizes.Floor.{btc}
use xchain_encoder.Emission.Plan.{Library, Plan, Emission}
use xchain_encoder.Emission.Legs.{
  payments_size, base_legs_total, whole_reveal_size, reveal_fee_needed, top_up_first_leg,
  fund_p2sh_leg,
}
use xchain_encoder.Emission.Payments.{
  payments_value, reveal_payments_size, reveal_payments_fee, reveal_payments_value,
  init_emission_state, emit_chunk_as, emit_data_outputs, emit_custom_outputs, emit_outputs,
}
use xchain_encoder.Emission.Accounting.{outputs_value, emit_outputs-IsCounted}
use xchain_encoder.Emission.Covering.{emit_outputs-covers}

-- A cipher and scripts that keep their data.
abbrev pub plain : Library
plain = record {
  aes_128_ctr = λ key iv bytes. bytes;
  embed = λ bytes. 0x6a ∷ bytes;
  p2sh_output = λ redeem. replicate 23 1;
  p2wsh_output = λ witness. replicate 34 2;
  p2ms_output = λ keys. replicate 105 3;
  p2tr_output = λ key leaf. replicate 34 4;
}

abbrev pub two_legs : Plan
two_legs = record {
  coin = some btc;
  min_standard_tx_non_witness_size = none;
  dust_amount = 546;
  output_floor = 546;
  payment_output_floor = 546;
  soft_dust_floor = 0;
  final_dust = 546;
  rate = 1000;
  encoding = p2sh;
  chunks = replicate 40 1 ∷ replicate 20 2 ∷ [];
  internal_pubkey = replicate 32 3;
  txid_first_input = replicate 64 97;
  compressed_pub_key = replicate 33 2;
  change = none;
  caller_address = none;
  custom_outputs =
      record { script = some (replicate 22 5); value = 5000; is_fee_quote = false } ∷ [];
}

abbrev pub emission_of : Result Emission → Emission
emission_of (ok e) = e
emission_of (throw failure) = record {
  outputs = [];
  output_satoshis = 0;
  estimated_tx_size = 0;
  reveal_custom_outputs_value = 0;
  reveal_custom_outputs_fee = 0;
  p2sh_reveal_headroom_funded = false;
  reveal_prefund = none;
  envelope = none;
}

abbrev pub funded : Emission
funded = emission_of (emit_outputs plain two_legs)

pub two_legs_emitted : emit_outputs plain two_legs ≡ ok funded
unfolding emit_outputs reveal_payments_value payments_value init_emission_state reveal_payments_fee
    reveal_payments_size payments_size emit_data_outputs emit_chunk_as fund_p2sh_leg
    top_up_first_leg emit_custom_outputs
two_legs_emitted = refl

emit_outputs-IsCounted_example : funded.output_satoshis ≡ outputs_value (funded.outputs)
emit_outputs-IsCounted_example = emit_outputs-IsCounted plain two_legs funded two_legs_emitted

emit_outputs-covers_example :
    (paid : ℕ) × (reveal_payments_value two_legs ≡ ok paid)
    × (funded.output_satoshis
        ≡ max
            (base_legs_total two_legs p2sh 0 (replicate 40 1 ∷ replicate 20 2 ∷ []))
            (reveal_fee_needed two_legs p2sh)
          + paid
          + reveal_payments_fee two_legs
          + (if reveal_payments_size two_legs == 0 then 546 else 0))
    × (funded.reveal_prefund
        ≡ some (record {
          output_index = 0;
          reveal_size = whole_reveal_size two_legs p2sh;
          reveal_fee = reveal_fee_needed two_legs p2sh;
        }))
emit_outputs-covers_example =
    emit_outputs-covers plain two_legs (replicate 40 1) (replicate 20 2 ∷ []) funded refl tt
      two_legs_emitted
