-- ===== src/Reveal/Recovered.antt =====
-- The two transactions of a chunked build: the legs of
-- src/XChainEncoder/build_transaction/data_outputs.js meet the inputs of
-- src/XChainEncoder/build_transaction/script_hash_legs.js.
use xchain_encoder.Base.{
  ℕ, suc, ◌+◌, ◌<◌, max, ◌≡◌, refl, sym, ap, ◌∙◌, subst, inl, inr, Bool, true, some, List, [], ◌∷◌,
  ◌++◌, append_assoc, append-nil, ◌==◌, if◌then◌else◌, Bool-cases, length, take, take-length-append,
}
use xchain_encoder.Failures.{ok}
use xchain_encoder.Payload.Slices.{Bytes}
use xchain_encoder.Payload.Carriers.{Encoding, op_return, p2sh, p2wsh, multisign, taproot, auto}
use xchain_encoder.Emission.Plan.{Library, Plan, Emission, is_p2sh_family, with_output}
use xchain_encoder.Sizes.Estimator.{estimate_p2sh_output, estimate_p2wsh_output}
use xchain_encoder.Sizes.Reveals.{TxOut, estimate_spending_p2sh_tx, estimate_spending_p2wsh_tx}
use xchain_encoder.Fees.Policy.{fee_for_vsize}
use xchain_encoder.Emission.Legs.{
  reveal_needs_floor_pad, fold_payments, top_up_first_leg, pad_output_bytes, fund_p2sh_leg,
  fund_p2wsh_leg,
}
use xchain_encoder.Emission.Payments.{
  reveal_payments_size, reveal_payments_value, init_emission_state, emit_chunk_as,
  emit_data_outputs, emit_custom_outputs, emit_outputs,
}
use xchain_encoder.Emission.Accounting.{outputs_value, ok_lem, bind_lem, emit_outputs-IsCounted}
use xchain_encoder.Reveal.Legs.{
  FundingTx, Reading, Request, Spending, init_spending, to_lower_case, emit_reveal_chunks,
}
use xchain_encoder.Reveal.Matched.{leg_script, IsTwoPhase, IsFunded, leg_inputs_from}
use xchain_encoder.Reveal.Spent.{read_lem}
use xchain_encoder.Reveal.Inputs.{spending_psbt, spends_lem}

module _ (library : Library) (plan : Plan) where
  abbrev Adds : Encoding → Bytes → Emission → Emission → Type 0
  Adds encoding chunk e next =
      (leg : TxOut) × (next.outputs ≡ e.outputs ++ leg ∷ [])
      × (leg.script ≡ leg_script library encoding chunk)

  top_up_lem :
      (encoding : Encoding) (needs : Bool) (value : ℕ) (e : Emission)
      → (top_up_first_leg plan encoding needs value e).1.outputs ≡ e.outputs
  unfolding top_up_first_leg
  top_up_lem encoding needs value e = elim (Bool-cases (e.p2sh_reveal_headroom_funded)) [
    | inl f ↦ rw f refl
    | inr f ↦ rw f refl
  ]

  topped_lem :
      (encoding : Encoding) (needs : Bool) (value size : ℕ) (script : Bytes) (e : Emission)
      → let topped = top_up_first_leg plan encoding needs value e in
        (leg : TxOut) × ((with_output script (topped.0) size (topped.1)).outputs
          ≡ e.outputs ++ leg ∷ [])
        × (leg.script ≡ script)
  topped_lem encoding needs value size script e =
      let topped = top_up_first_leg plan encoding needs value e in
      let leg : TxOut = record { value = topped.0; script = script } in
      (leg, ap (λ l. l ++ leg ∷ []) (top_up_lem encoding needs value e), refl)

  fund_p2wsh_leg-outputs :
      (needs : Bool) (chunk : Bytes) (e : Emission)
      → Adds p2wsh chunk e (fund_p2wsh_leg plan library needs chunk e)
  unfolding fund_p2wsh_leg
  fund_p2wsh_leg-outputs needs chunk e = elim (Bool-cases (pad_output_bytes plan == 0)) [
    | inl f ↦
        let size =
          estimate_spending_p2wsh_tx (plan.min_standard_tx_non_witness_size) chunk
            (pad_output_bytes plan) in
        let fee = max (fee_for_vsize size (plan.rate)) (plan.final_dust) in
        let padded_fee = if reveal_needs_floor_pad plan then fee + plan.dust_amount else fee in
        let value = padded_fee + e.reveal_custom_outputs_value + e.reveal_custom_outputs_fee in
        rw f (
          topped_lem p2wsh needs value estimate_p2wsh_output (library.p2wsh_output chunk)
            (fold_payments plan e))
    | inr f ↦ rw f (_, refl, refl)
  ]

  emit_chunk_as-outputs :
      (encoding : Encoding) (chunk : Bytes) (e next : Emission)
      → IsTwoPhase encoding
      → emit_chunk_as library plan encoding chunk e ≡ ok next
      → Adds encoding chunk e next
  unfolding emit_chunk_as fund_p2sh_leg
  emit_chunk_as-outputs p2sh chunk e next two h =
      let fee =
        max (fee_for_vsize (estimate_spending_p2sh_tx chunk) (plan.rate)) (plan.final_dust) in
      let value = fee + e.reveal_custom_outputs_value + e.reveal_custom_outputs_fee in
      subst (Adds p2sh chunk e) (ok_lem h) (
        topped_lem p2sh (reveal_payments_size plan == 0) value estimate_p2sh_output
          (library.p2sh_output chunk) (fold_payments plan e))
  emit_chunk_as-outputs p2wsh chunk e next two h =
      subst (Adds p2wsh chunk e) (ok_lem h)
        (fund_p2wsh_leg-outputs (reveal_payments_size plan == 0) chunk e)
  emit_chunk_as-outputs op_return chunk e next two h = absurd two
  emit_chunk_as-outputs multisign chunk e next two h = absurd two
  emit_chunk_as-outputs taproot chunk e next two h = absurd two
  emit_chunk_as-outputs auto chunk e next two h = absurd two

  emit_data_outputs-outputs :
      (chunks : List Bytes) (e after : Emission)
      → IsTwoPhase (plan.encoding)
      → emit_data_outputs library plan chunks e ≡ ok after
      → (legs : List TxOut) × (after.outputs ≡ e.outputs ++ legs)
        × IsFunded library (plan.encoding) chunks legs
        × (length legs ≡ length chunks)
  unfolding emit_data_outputs
  emit_data_outputs-outputs [] e after two h =
      ([], ap (λ x. x.outputs) (sym (ok_lem h)) ∙ sym (append-nil (e.outputs)), tt, refl)
  emit_data_outputs-outputs (chunk ∷ chunks) e after two h =
      let (next, g, k) = bind_lem (emit_chunk_as library plan (plan.encoding) chunk e) _ h in
      let (leg, added, script) = emit_chunk_as-outputs (plan.encoding) chunk e next two g in
      let (legs, rest, funded, many) = emit_data_outputs-outputs chunks next after two k in
      (
        leg ∷ legs,
        rest ∙ ap (λ l. l ++ legs) added ∙ append_assoc (e.outputs) _ _,
        (script, funded),
        ap suc many,
      )

  IsFunded-append :
      (encoding : Encoding) (chunks : List Bytes) (legs more : List TxOut)
      → IsFunded library encoding chunks legs
      → IsFunded library encoding chunks (legs ++ more)
  IsFunded-append encoding [] legs more h = tt
  IsFunded-append encoding (chunk ∷ chunks) [] more h = absurd h
  IsFunded-append encoding (chunk ∷ chunks) (leg ∷ legs) more (s, h) =
      (s, IsFunded-append encoding chunks legs more h)

  length-leg_inputs_from :
      (encoding : Encoding) (vout : ℕ) (request : Request) (chunks : List Bytes) (legs : List TxOut)
      → IsFunded library encoding chunks legs
      → length (leg_inputs_from request vout chunks legs) ≡ length chunks
  unfolding leg_inputs_from
  length-leg_inputs_from encoding vout request [] legs h = refl
  length-leg_inputs_from encoding vout request (chunk ∷ chunks) [] h = absurd h
  length-leg_inputs_from encoding vout request (chunk ∷ chunks) (leg ∷ legs) h =
      ap suc (length-leg_inputs_from encoding (vout + 1) request chunks legs (h.1))

  pub family_lem : (encoding : Encoding) → IsTwoPhase encoding → is_p2sh_family encoding ≡ true
  family_lem p2sh h = refl
  family_lem p2wsh h = refl
  family_lem op_return h = absurd h
  family_lem multisign h = absurd h
  family_lem taproot h = absurd h
  family_lem auto h = absurd h

  -- The outputs that a two-phase build emits are the legs of its chunks, and nothing else.
  pub emit_outputs-legs :
      (e : Emission)
      → IsTwoPhase (plan.encoding)
      → emit_outputs library plan ≡ ok e
      → IsFunded library (plan.encoding) (plan.chunks) (e.outputs)
        × (length (e.outputs) ≡ length (plan.chunks))
  unfolding emit_outputs init_emission_state
  emit_outputs-legs e two h =
      let (paid, p, g) = bind_lem (reveal_payments_value plan) _ h in
      let (emitted, d, c) =
        bind_lem (emit_data_outputs library plan (plan.chunks) (init_emission_state plan paid)) _
          g in
      let (legs, made, funded, many) =
        emit_data_outputs-outputs (plan.chunks) (init_emission_state plan paid) emitted two d in
      let same : emitted ≡ e =
        ok_lem (rw (family_lem (plan.encoding) two, emit_custom_outputs) at c) in
      let outs : legs ≡ e.outputs = sym made ∙ ap (λ x. x.outputs) same in
      (
        subst (IsFunded library (plan.encoding) (plan.chunks)) outs funded,
        ap length (sym outs) ∙ many,
      )

  -- The reveal of a commit succeeds. Take a two-phase build of at least one chunk, and a transaction
  -- whose first outputs are the emitted ones, their values as emitted, with any others behind them. A reveal with the same
  -- chunks that is given this transaction's hex and its id, in any case of letters, gets all its
  -- inputs: one for each chunk, with the chunk's script, at the chunk's own index and with the value
  -- of that leg. What the sweep counts as theirs is exactly what the commit emitted.
  pub emit_outputs-spends :
      (reading : Reading) (request : Request) (hex : Bytes) (e : Emission) (tx : FundingTx)
      (more : List TxOut)
      → 0 < length (plan.chunks)
      → IsTwoPhase (plan.encoding)
      → emit_outputs library plan ≡ ok e
      → tx.legs ≡ e.outputs ++ more
      → request.p2sh_hex ≡ some hex
      → reading.from_hex hex ≡ some tx
      → to_lower_case (request.p2sh_hash) ≡ to_lower_case (tx.txid)
      → (after : Spending) × (emit_reveal_chunks library reading request
            (plan.encoding)
            (plan.chunks)
            init_spending
          ≡ ok after)
        × (after.psbt
            ≡ some (spending_psbt library reading request (plan.encoding) (plan.chunks) tx))
        × (length (leg_inputs_from request 0 (plan.chunks) (tx.legs)) ≡ length (plan.chunks))
        × (after.phase_leg_input_satoshis ≡ e.output_satoshis)
  emit_outputs-spends reading request hex e tx more some' two h legs given parsed matches =
      let (funded, many) = emit_outputs-legs e two h in
      let all =
        subst (IsFunded library (plan.encoding) (plan.chunks)) (sym legs)
          (IsFunded-append (plan.encoding) (plan.chunks) (e.outputs) more funded) in
      let (after, r, ps, sum) =
        spends_lem library reading request (plan.encoding) (plan.chunks) tx some' two
          (read_lem library reading request hex tx given parsed matches) all in
      let own : take (length (plan.chunks)) (tx.legs) ≡ e.outputs =
        ap (take (length (plan.chunks))) legs
        ∙ ap (λ n. take n (e.outputs ++ more)) (sym many)
        ∙ take-length-append (e.outputs) more in
      (
        after,
        r,
        ps,
        length-leg_inputs_from (plan.encoding) 0 request (plan.chunks) (tx.legs) all,
        sum ∙ ap outputs_value own ∙ sym (emit_outputs-IsCounted library plan e h),
      )
