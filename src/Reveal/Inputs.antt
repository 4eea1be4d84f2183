-- ===== src/Reveal/Inputs.antt =====
-- The inputs of a whole reveal, src/XChainEncoder/build_transaction/script_hash_legs.js: what is spent
-- and what is refused, and that a commit's own legs are always spendable.
use xchain_encoder.Base.{
  ◌<◌, ◌≡◌, refl, sym, ap, ◌∙◌, ◌⊎◌, inl, inr, Option, none, some, List, [], ◌∷◌, arith, length,
  take,
}
use xchain_encoder.Failures.{ok_inj, Failure, ok, throw, param_type, param_range, ◌>>=◌}
use xchain_encoder.Payload.Slices.{Bytes}
use xchain_encoder.Payload.Carriers.{Encoding, op_return, p2sh, p2wsh, multisign, taproot, auto}
use xchain_encoder.Sizes.Reveals.{TxOut}
use xchain_encoder.Emission.Plan.{Library}
use xchain_encoder.Emission.Accounting.{outputs_value}
use xchain_encoder.Reveal.Legs.{
  FundingTx, Reading, Request, Psbt, Spending, LegInput, init_spending, to_lower_case, begin_psbt,
  read_funding_tx, leg_at, assert_leg_funds_script, spend_p2sh_leg, spend_p2wsh_leg,
  emit_reveal_chunk, emit_reveal_chunks,
}
use xchain_encoder.Reveal.Matched.{IsTwoPhase, IsFunded, leg_inputs_from}
use xchain_encoder.Reveal.Spent.{marker_script, read_state, read_cases, chunks_lem}

some_lem :
    (marker : Bytes) (psbt : Option Psbt) (p : Psbt)
    → begin_psbt marker psbt ≡ p
    → ((l : LegInput) × (ls : List LegInput) × (p.leg_inputs ≡ l ∷ ls))
    → psbt ≡ some p
some_lem marker none p h (l, ls, e) = absurd (ground (arith, ap (λ x. x.leg_inputs) h))
some_lem marker (some q) p h more = ap some h

module _ (library : Library) (reading : Reading) (request : Request) where
  first_lem :
      (encoding : Encoding) (chunk : Bytes) (tx : FundingTx)
      → IsTwoPhase encoding
      → read_funding_tx library reading request none (request.p2sh_hex) init_spending
        ≡ ok (read_state library reading request tx)
      → emit_reveal_chunk library reading request encoding chunk init_spending
        ≡ emit_reveal_chunk library reading request encoding chunk
            (read_state library reading request tx)
  unfolding emit_reveal_chunk read_funding_tx
  first_lem p2sh chunk tx two read = rw read refl
  first_lem p2wsh chunk tx two read = rw read refl
  first_lem op_return chunk tx two read = absurd two
  first_lem multisign chunk tx two read = absurd two
  first_lem taproot chunk tx two read = absurd two
  first_lem auto chunk tx two read = absurd two

  unread_lem :
      (encoding : Encoding) (chunk : Bytes)
      → IsTwoPhase encoding
      → (request.p2sh_hex ≡ none)
        ⊎ (read_funding_tx library reading request none (request.p2sh_hex) init_spending
            ≡ throw param_type)
      → (failure : Failure) × (emit_reveal_chunk library reading request encoding chunk
            init_spending
          ≡ throw failure)
  unfolding emit_reveal_chunk read_funding_tx spend_p2sh_leg spend_p2wsh_leg leg_at
      assert_leg_funds_script
  unread_lem p2sh chunk two (inl e) = (param_range, rw (e, read_funding_tx) refl)
  unread_lem p2wsh chunk two (inl e) = (param_range, rw (e, read_funding_tx) refl)
  unread_lem p2sh chunk two (inr e) = (param_type, rw e refl)
  unread_lem p2wsh chunk two (inr e) = (param_type, rw e refl)
  unread_lem op_return chunk two h = absurd two
  unread_lem multisign chunk two h = absurd two
  unread_lem taproot chunk two h = absurd two
  unread_lem auto chunk two h = absurd two

  nonempty_lem :
      (encoding : Encoding) (chunk : Bytes) (chunks : List Bytes) (legs : List TxOut)
      → IsFunded library encoding (chunk ∷ chunks) legs
      → (l : LegInput) × (ls : List LegInput) × (leg_inputs_from request 0 (chunk ∷ chunks) legs
          ≡ l ∷ ls)
  unfolding leg_inputs_from
  nonempty_lem encoding chunk chunks [] f = absurd f
  nonempty_lem encoding chunk chunks (leg ∷ legs) f = (_, _, refl)

  -- The psbt that spends the chunks' legs.
  abbrev pub spending_psbt : Encoding → List Bytes → FundingTx → Psbt
  spending_psbt encoding chunks tx = record {
    leg_inputs = leg_inputs_from request 0 chunks (tx.legs);
    outs = record { value = 0; script = marker_script library reading request encoding tx } ∷ [];
  }

  pub emit_reveal_chunks-cases :
      (encoding : Encoding) (chunk : Bytes) (chunks : List Bytes) (tx : FundingTx)
      → IsTwoPhase encoding
      → read_funding_tx library reading request none (request.p2sh_hex) init_spending
        ≡ ok (read_state library reading request tx)
      → (IsFunded library encoding (chunk ∷ chunks) (tx.legs)
          × ((after : Spending) × (emit_reveal_chunks library reading request encoding
                  (chunk ∷ chunks)
                  init_spending
                ≡ ok after)
              × (after.psbt ≡ some (spending_psbt encoding (chunk ∷ chunks) tx))
              × (after.phase_leg_input_satoshis
                  ≡ outputs_value (take (length (chunk ∷ chunks)) (tx.legs)))))
        ⊎ (IsFunded library encoding (chunk ∷ chunks) (tx.legs) → ⊥)
          × (emit_reveal_chunks library reading request encoding (chunk ∷ chunks) init_spending
              ≡ throw param_range)
  unfolding emit_reveal_chunks
  emit_reveal_chunks-cases encoding chunk chunks tx two read =
      let begun : Psbt = begin_psbt (marker_script library reading request encoding tx) none in
      let same : emit_reveal_chunks library reading request encoding (chunk ∷ chunks) init_spending
          ≡ emit_reveal_chunks library reading request encoding (chunk ∷ chunks)
              (read_state library reading request tx) =
        ap (λ r. r >>= λ next. emit_reveal_chunks library reading request encoding chunks next)
          (first_lem encoding chunk tx two read) in
      elim (chunks_lem library reading request encoding (chunk ∷ chunks) (tx.legs) begun
        (read_state library reading request tx) tx two refl refl refl refl) [
          | inr (nf, r) ↦ inr (nf, same ∙ r)
          | inl (f, (after, r, ps, sum)) ↦ inl (
            f,
            (
              after,
              same ∙ r,
              some_lem (marker_script library reading request encoding tx) (after.psbt)
                  (spending_psbt encoding (chunk ∷ chunks) tx) ps
                  (nonempty_lem encoding chunk chunks (tx.legs) f),
              sum ∙ (omega arith),
            ),
          )
        ]

  -- Whenever the inputs of a reveal of one chunk or more are built, the given hex decodes to a
  -- transaction whose id is the given one but for the case of its letters, that transaction's first
  -- outputs hold, in order, exactly the scripts of the chunks, and the reveal spends these outputs:
  -- input by input the chunk's script with the outpoint and the value of its leg, beside one output
  -- of no value with the marker; the total that the sweep goes by is what those legs hold.
  pub emit_reveal_chunks-settles :
      (encoding : Encoding) (chunk : Bytes) (chunks : List Bytes) (after : Spending)
      → IsTwoPhase encoding
      → emit_reveal_chunks library reading request encoding (chunk ∷ chunks) init_spending
        ≡ ok after
      → (tx : FundingTx) × (hex : Bytes) × (request.p2sh_hex ≡ some hex)
        × (reading.from_hex hex ≡ some tx)
        × (to_lower_case (request.p2sh_hash) ≡ to_lower_case (tx.txid))
        × IsFunded library encoding (chunk ∷ chunks) (tx.legs)
        × (after.psbt ≡ some (spending_psbt encoding (chunk ∷ chunks) tx))
        × (after.phase_leg_input_satoshis
            ≡ outputs_value (take (length (chunk ∷ chunks)) (tx.legs)))
  unfolding emit_reveal_chunks
  emit_reveal_chunks-settles encoding chunk chunks after two h =
      elim (read_cases library reading request (request.p2sh_hex)) [
        | inr bad ↦
            let (failure, e) = unread_lem encoding chunk two bad in absurd (ground (arith, e, h))
        | inl (tx, hex, given, parsed, matches, read) ↦
            elim (emit_reveal_chunks-cases encoding chunk chunks tx two read) [
              | inr (nf, r) ↦ absurd (ground (arith, r, h))
              | inl (f, (a, r, ps, sum)) ↦
                  let same : a ≡ after = ok_inj (sym r ∙ h) in
                  (
                    tx,
                    hex,
                    given,
                    parsed,
                    matches,
                    f,
                    ap (λ x. x.psbt) (sym same) ∙ ps,
                    ap (λ x. x.phase_leg_input_satoshis) (sym same) ∙ sum,
                  )
            ]
      ]

  pub spends_lem :
      (encoding : Encoding) (chunks : List Bytes) (tx : FundingTx)
      → 0 < length chunks
      → IsTwoPhase encoding
      → read_funding_tx library reading request none (request.p2sh_hex) init_spending
        ≡ ok (read_state library reading request tx)
      → IsFunded library encoding chunks (tx.legs)
      → (after : Spending) × (emit_reveal_chunks library reading request encoding chunks
            init_spending
          ≡ ok after)
        × (after.psbt ≡ some (spending_psbt encoding chunks tx))
        × (after.phase_leg_input_satoshis ≡ outputs_value (take (length chunks) (tx.legs)))
  spends_lem encoding [] tx h two read f = absurd (omega arith)
  spends_lem encoding (chunk ∷ chunks) tx h two read f =
      elim (emit_reveal_chunks-cases encoding chunk chunks tx two read) [
        | inl (g, found) ↦ found
        | inr (nf, r) ↦ absurd (nf f)
      ]
