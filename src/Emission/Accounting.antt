-- ===== src/Emission/Accounting.antt =====
-- The running total of the outputs that src/XChainEncoder/build_transaction/data_outputs.js emits.
use xchain_encoder.Base.{
  ℕ, ◌+◌, max, ◌≡◌, refl, subst, inl, inr, Bool, List, [], ◌∷◌, ◌++◌, arith, ◌==◌, Bool-cases,
  Option-cases, length,
}
use xchain_encoder.Failures.{Result, ok, throw, Result-cases, ◌>>=◌}
use xchain_encoder.Payload.Slices.{Bytes}
use xchain_encoder.Payload.Carriers.{Encoding, op_return, p2sh, p2wsh, multisign, taproot, auto}
use xchain_encoder.Sizes.Reveals.{TxOut}
use xchain_encoder.Emission.Plan.{Library, Payment, Plan, Emission, is_p2sh_family, with_output}
use xchain_encoder.Emission.Carriers.{
  emit_op_return_chunk, emit_multisign_chunk, emit_envelope_commit,
}
use xchain_encoder.Emission.Legs.{
  top_up_first_leg, fold_payments, pad_output_bytes, fund_p2sh_leg, fund_p2wsh_leg,
}
use xchain_encoder.Sizes.Estimator.{estimate_multisign_output}
use xchain_encoder.Emission.Carriers.{multisign_script}
use xchain_encoder.Emission.Plan.{bare_multisig_relay_dust_for}
use xchain_encoder.Emission.Payments.{
  reveal_payments_value, init_emission_state, emit_chunk_as, emit_data_outputs, emit_payment,
  emit_payments, emit_custom_outputs, emit_outputs,
}

abbrev pub outputs_value : List TxOut → ℕ
outputs_value [] = 0
outputs_value (o ∷ os) = o.value + outputs_value os

-- The total is that of the outputs.
abbrev pub IsCounted : Emission → Type 0
IsCounted e = e.output_satoshis ≡ outputs_value (e.outputs)

pub outputs_value-snoc :
    (os : List TxOut) (o : TxOut) → outputs_value (os ++ o ∷ []) ≡ outputs_value os + o.value
outputs_value-snoc [] o = omega arith
outputs_value-snoc (p ∷ os) o = omega (arith, outputs_value-snoc os o)

counted_lem :
    (os : List TxOut) (sum value : ℕ) (script : Bytes)
    → sum ≡ outputs_value os
    → sum + value ≡ outputs_value (os ++ record { value = value; script = script } ∷ [])
counted_lem os sum value script h =
    omega (arith, h, outputs_value-snoc os (record { value = value; script = script }))

-- The top-up and the fold leave the outputs alone.
top_up_first_leg-outputs :
    (plan : Plan) (encoding : Encoding) (needs : Bool) (value : ℕ) (e : Emission)
    → IsCounted e
    → IsCounted (top_up_first_leg plan encoding needs value e).1
unfolding top_up_first_leg
top_up_first_leg-outputs plan encoding needs value e h =
    elim (Bool-cases (e.p2sh_reveal_headroom_funded)) [ inl f ↦ rw f h | inr f ↦ rw f h ]

pub ok_lem : {a b : Emission} → ◌≡◌ {A = Result Emission} (ok a) (ok b) → a ≡ b
ok_lem h = cc

-- A chain that returns has returned on the way.
pub bind_lem :
    {A : Type 0} (r : Result A) (next : A → Result Emission) {after : Emission}
    → r >>= next ≡ ok after
    → (a : A) × (r ≡ ok a) × (next a ≡ ok after)
bind_lem (ok a) next h = (a, refl, h)
bind_lem (throw failure) next h = absurd (ground arith)

module _ (library : Library) (plan : Plan) where
  fund_p2wsh_leg-IsCounted :
      (needs : Bool) (chunk : Bytes) (e : Emission)
      → IsCounted e
      → IsCounted (fund_p2wsh_leg plan library needs chunk e)
  unfolding fund_p2wsh_leg
  fund_p2wsh_leg-IsCounted needs chunk e h = elim (Bool-cases (pad_output_bytes plan == 0)) [
    | inl f ↦
        rw f (
          counted_lem _ _ _ _
            (top_up_first_leg-outputs plan p2wsh needs _ (fold_payments plan e) h))
    | inr f ↦ rw f (counted_lem _ _ _ _ h)
  ]

  emit_multisign_chunk-IsCounted :
      (chunk : Bytes) (e next : Emission)
      → emit_multisign_chunk library plan chunk e ≡ ok next
      → IsCounted e
      → IsCounted next
  unfolding emit_multisign_chunk
  emit_multisign_chunk-IsCounted chunk e next h counted =
      let script = multisign_script library plan chunk in
      elim (Result-cases
        (bare_multisig_relay_dust_for (plan.coin) (length script) (plan.dust_amount))) [
          | inr (failure, f) ↦ absurd (ground (arith, f))
          | inl (dust, f) ↦
              let same : with_output script (max (plan.final_dust) dust) estimate_multisign_output e
                  ≡ next =
                ground (arith, f) in
              subst IsCounted same (counted_lem _ _ _ _ counted)
        ]

  emit_chunk_as-IsCounted :
      (encoding : Encoding) (chunk : Bytes) (e next : Emission)
      → emit_chunk_as library plan encoding chunk e ≡ ok next
      → IsCounted e
      → IsCounted next
  unfolding emit_chunk_as emit_op_return_chunk fund_p2sh_leg emit_envelope_commit
  emit_chunk_as-IsCounted op_return chunk e next h counted =
      subst IsCounted (ok_lem h) (counted_lem _ _ _ _ counted)
  emit_chunk_as-IsCounted p2sh chunk e next h counted =
      subst IsCounted (ok_lem h) (
        counted_lem _ _ _ _ (top_up_first_leg-outputs plan p2sh _ _ (fold_payments plan e) counted))
  emit_chunk_as-IsCounted p2wsh chunk e next h counted =
      subst IsCounted (ok_lem h) (fund_p2wsh_leg-IsCounted _ chunk e counted)
  emit_chunk_as-IsCounted multisign chunk e next h counted =
      emit_multisign_chunk-IsCounted chunk e next h counted
  emit_chunk_as-IsCounted taproot chunk e next h counted =
      subst IsCounted (ok_lem h) (counted_lem _ _ _ _ counted)
  emit_chunk_as-IsCounted auto chunk e next h counted = subst IsCounted (ok_lem h) counted

  emit_data_outputs-IsCounted :
      (chunks : List Bytes) (e after : Emission)
      → emit_data_outputs library plan chunks e ≡ ok after
      → IsCounted e
      → IsCounted after
  unfolding emit_data_outputs
  emit_data_outputs-IsCounted [] e after h counted = subst IsCounted (ok_lem h) counted
  emit_data_outputs-IsCounted (chunk ∷ chunks) e after h counted =
      let (next, f, g) = bind_lem (emit_chunk_as library plan (plan.encoding) chunk e) _ h in
      emit_data_outputs-IsCounted chunks next after g
        (emit_chunk_as-IsCounted (plan.encoding) chunk e next f counted)

  emit_payment_lem :
      (p : Payment) (e next : Emission)
      → emit_payment library plan p e ≡ ok next
      → (script : Bytes) × (with_output script (p.value) 43 e ≡ next)
  unfolding emit_payment
  emit_payment_lem p e next h = elim (Option-cases (p.script)) [
    | inl f ↦ absurd (ground (arith, f))
    | inr (script, f) ↦ (script, ground (arith, f))
  ]

  emit_payments-IsCounted :
      (payments : List Payment) (e after : Emission)
      → emit_payments library plan payments e ≡ ok after
      → IsCounted e
      → IsCounted after
  unfolding emit_payments
  emit_payments-IsCounted [] e after h counted = subst IsCounted (ok_lem h) counted
  emit_payments-IsCounted (p ∷ ps) e after h counted =
      let (next, f, g) = bind_lem (emit_payment library plan p e) _ h in
      let (script, same) = emit_payment_lem p e next f in
      emit_payments-IsCounted ps next after g (subst IsCounted same (counted_lem _ _ _ _ counted))

  -- An emission that succeeds reports as its total exactly the values of the outputs that it made,
  -- whatever the encoding, the number of chunks and the payments.
  pub emit_outputs-IsCounted :
      (e : Emission)
      → emit_outputs library plan ≡ ok e
      → e.output_satoshis ≡ outputs_value (e.outputs)
  unfolding emit_outputs init_emission_state
  emit_outputs-IsCounted e h =
      let (value, f, g) = bind_lem (reveal_payments_value plan) _ h in
      let priced = init_emission_state plan value in
      let (emitted, d, c) = bind_lem (emit_data_outputs library plan (plan.chunks) priced) _ g in
      let counted = emit_data_outputs-IsCounted (plan.chunks) priced emitted d refl in
      elim (Bool-cases (is_p2sh_family (plan.encoding))) [
        | inl two ↦ subst IsCounted (ok_lem (rw (two, emit_custom_outputs) at c)) counted
        | inr one ↦
            emit_payments-IsCounted (plan.custom_outputs) emitted e
              (rw (one, emit_custom_outputs) at c) counted
      ]
