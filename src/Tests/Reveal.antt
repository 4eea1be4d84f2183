-- ===== src/Tests/Reveal.antt =====
-- The reveal of src/XChainEncoder/build_transaction on the legs of a P2SH commit of two chunks, and of an
-- envelope.
use xchain_encoder.Base.{
  ◌+◌, ◌≤◌, ◌≡◌, refl, false, none, some, List, [], ◌∷◌, ◌++◌, arith, length, get_elem?, take,
  replicate,
}
use xchain_encoder.Failures.{Result, ok, throw}
use xchain_encoder.Payload.Slices.{Bytes}
use xchain_encoder.Payload.Carriers.{p2sh, taproot}
use xchain_encoder.Sizes.Reveals.{TxOut}
use xchain_encoder.Emission.Plan.{Plan, Emission, Prefund}
use xchain_encoder.Emission.Payments.{emit_outputs}
use xchain_encoder.Emission.Accounting.{outputs_value}
use xchain_encoder.Sizes.Estimator.{estimate_output_size_for_address}
use xchain_encoder.Fees.Policy.{fee_for_vsize, package_fee_uplift_satoshis}
use xchain_encoder.Fees.Settlement.{Build, EnvelopeMoney, RevealPrefund, settle_fees}
use xchain_encoder.Emission.Carriers.{
  reveal_pad_needed, envelope_reveal_vsize, emit_envelope_commit,
}
use xchain_encoder.Emission.Payments.{init_emission_state}
use xchain_encoder.Reveal.Envelope.{envelope_context, build_reveal_psbt}
use xchain_encoder.Reveal.Enveloped.{envelope_prefund, dust_outputs, build_reveal_psbt-settles}
use xchain_encoder.Tests.Selection.{unsettled}
use xchain_encoder.Tests.Emission.{plain, two_legs, emission_of}
use xchain_encoder.Reveal.Legs.{
  FundingTx, Reading, Request, Psbt, Spending, init_spending, to_lower_case, emit_reveal_chunks,
}
use xchain_encoder.Reveal.Sweep.{Terms, build_reveal}
use xchain_encoder.Reveal.Matched.{leg_inputs_from, IsFunded}
use xchain_encoder.Reveal.Inputs.{spending_psbt, emit_reveal_chunks-settles}
use xchain_encoder.Reveal.Recovered.{emit_outputs-spends}

abbrev bare_legs : Plan
bare_legs = record two_legs { custom_outputs = []; change = some (some (replicate 22 7)) }

abbrev commit : Emission
commit = emission_of (emit_outputs plain bare_legs)

bare_legs_emitted : emit_outputs plain bare_legs ≡ ok commit
unfolding emit_outputs
bare_legs_emitted = refl

-- The commit's transaction, with a change output behind the legs; its id in capitals.
abbrev tail : List TxOut
tail = record { value = 7000; script = replicate 22 9 } ∷ []

abbrev commit_tx : FundingTx
commit_tx = record { txid = replicate 64 97; legs = commit.outputs ++ tail }

abbrev reading : Reading
reading = record {
  from_hex = λ hex. some commit_tx;
  p2ms = λ script. none;
  hash160 = λ script. replicate 20 0;
}

abbrev request : Request
request = record {
  p2sh_hash = replicate 64 65;
  p2sh_hex = some (1 ∷ []);
  utxo_sequence = 0xfffffffd;
}

abbrev no_fee : Terms
no_fee = record {
  fee = none;
  caller_rate = false;
  cap_rate = none;
  node_rate = some 1000;
  relay_rate = 1000;
  max_cpfp_uplift_sat = 100000;
  commit_package = some (record { size = 200; fees = 100 });
}

abbrev spending_of : Result Spending → Spending
spending_of (ok s) = s
spending_of (throw failure) = init_spending

abbrev psbt_of : Result Psbt → Psbt
psbt_of (ok p) = p
psbt_of (throw failure) = record { leg_inputs = []; outs = [] }

legs_spent :
    emit_reveal_chunks plain reading request p2sh (bare_legs.chunks) init_spending
    ≡ ok (
        spending_of
          (emit_reveal_chunks plain reading request p2sh (bare_legs.chunks) init_spending))
unfolding emit_reveal_chunks emit_outputs
legs_spent = refl

same_id : to_lower_case (request.p2sh_hash) ≡ to_lower_case (commit_tx.txid)
unfolding to_lower_case
same_id = refl

abbrev revealed : Psbt
revealed = psbt_of (build_reveal plain bare_legs no_fee reading request)

reveal_sweeps : length (revealed.outs) ≡ 2
unfolding build_reveal emit_outputs
reveal_sweeps = refl

emit_reveal_chunks-settles_example :
    (tx : FundingTx) × (hex : Bytes) × (request.p2sh_hex ≡ some hex)
    × (reading.from_hex hex ≡ some tx)
    × (to_lower_case (request.p2sh_hash) ≡ to_lower_case (tx.txid))
    × IsFunded plain p2sh (bare_legs.chunks) (tx.legs)
    × ((spending_of
          (emit_reveal_chunks plain reading request p2sh (bare_legs.chunks) init_spending)).psbt
        ≡ some (spending_psbt plain reading request p2sh (bare_legs.chunks) tx))
    × ((spending_of (
          emit_reveal_chunks plain reading request p2sh
            (bare_legs.chunks)
            init_spending)).phase_leg_input_satoshis
        ≡ outputs_value (take 2 (tx.legs)))
emit_reveal_chunks-settles_example =
    emit_reveal_chunks-settles plain reading request p2sh (replicate 40 1) (replicate 20 2 ∷ [])
      (spending_of (emit_reveal_chunks plain reading request p2sh (bare_legs.chunks) init_spending))
      tt legs_spent

emit_outputs-spends_example :
    (after : Spending) × (emit_reveal_chunks plain reading request p2sh
        (bare_legs.chunks)
        init_spending
      ≡ ok after)
    × (after.psbt ≡ some (spending_psbt plain reading request p2sh (bare_legs.chunks) commit_tx))
    × (length (leg_inputs_from request 0 (bare_legs.chunks) (commit_tx.legs))
        ≡ length (bare_legs.chunks))
    × (after.phase_leg_input_satoshis ≡ commit.output_satoshis)
emit_outputs-spends_example =
    emit_outputs-spends plain bare_legs reading request (1 ∷ []) commit commit_tx tail (omega arith)
      tt bare_legs_emitted refl refl refl same_id

abbrev enveloped : Plan
enveloped = record bare_legs {
  encoding = taproot;
  chunks = replicate 300 1 ∷ [];
  min_standard_tx_non_witness_size = some 82;
}

abbrev envelope_commit : Emission
envelope_commit =
    emit_envelope_commit plain enveloped (replicate 300 1) (init_emission_state enveloped 0)

abbrev prefunded : Prefund
prefunded = elim (envelope_commit.reveal_prefund) [
  | none ↦ record { output_index = 9; reveal_size = 0; reveal_fee = 0 }
  | some p ↦ p
]

abbrev commit_output : TxOut
commit_output = elim (get_elem? (envelope_commit.outputs) 0) [
  | none ↦ record { value = 0; script = [] }
  | some o ↦ o
]

abbrev commit_build : Build
commit_build = record unsettled {
  input_satoshis = 90000;
  output_satoshis = 2000;
  estimated_tx_size = 200;
  estimated_fee = 800;
  reveal_prefund = some (envelope_prefund envelope_commit prefunded commit_output);
}

abbrev commit_settled : Build
commit_settled =
    elim (settle_fees 546 1000 (some (record { size = 300; fees = 30 })) commit_build) [
      | ok b ↦ b
      | throw failure ↦ commit_build
    ]

abbrev after_prefund : RevealPrefund
after_prefund = elim (commit_settled.reveal_prefund) [
  | none ↦ record { reveal_fee = 0; reveal_size = 0; commit_value = 0; envelope = none }
  | some p ↦ p
]

commit_settles :
    (settle_fees 546 1000 (some (record { size = 300; fees = 30 })) commit_build
      ≡ ok commit_settled)
    × (envelope_commit.reveal_prefund ≡ some prefunded)
    × (commit_settled.reveal_prefund ≡ some after_prefund)
    × (get_elem? (envelope_commit.outputs) (prefunded.output_index) ≡ some commit_output)
unfolding settle_fees emit_envelope_commit init_emission_state package_fee_uplift_satoshis
commit_settles = (refl, refl, refl, refl)

abbrev settled_output : TxOut
settled_output = record commit_output { value = after_prefund.commit_value }

build_reveal_psbt-settles_example :
    (money : EnvelopeMoney) × (psbt : Psbt) × (after_prefund.envelope ≡ some money)
    × (build_reveal_psbt
          (envelope_context plain enveloped (replicate 300 1) money)
          546
          (replicate 32 5)
          0
          (settled_output ∷ tail)
        ≡ ok psbt)
    × (psbt.leg_inputs
        ≡ record {
          hash = replicate 32 5;
          vout = 0;
          sequence = 0;
          script = settled_output.script;
          value = settled_output.value;
        }
          ∷ [])
    × (commit_output.value ≤ settled_output.value)
    × (outputs_value (psbt.outs) + after_prefund.reveal_fee ≡ settled_output.value)
    × (psbt.outs
        ≡ dust_outputs
            (reveal_pad_needed plain enveloped
              (estimate_output_size_for_address (some (some (replicate 22 7)))))
            546
            (replicate 22 7))
    × (fee_for_vsize (envelope_reveal_vsize plain enveloped (replicate 300 1)) 1000
        ≤ after_prefund.reveal_fee)
    × (prefunded.reveal_fee ≤ after_prefund.reveal_fee)
build_reveal_psbt-settles_example =
    build_reveal_psbt-settles plain enveloped (replicate 300 1) (replicate 32 5) (replicate 22 7) 0
      1000 (some (record { size = 300; fees = 30 })) commit_build commit_settled prefunded
      after_prefund commit_output tail (commit_settles.1) (commit_settles.3) refl (commit_settles.0)
      (commit_settles.2) refl
