-- ===== src/Reveal/Spent.antt =====
-- Which inputs a reveal has: those of src/XChainEncoder/build_transaction/script_hash_legs.js against
-- the legs that the funding transaction holds.
use xchain_encoder.Base.{
  ℕ, suc, ◌+◌, ◌≡◌, refl, sym, ap, ◌∙◌, subst, ◌≢◌, ◌⊎◌, inl, inr, true, Option, none, some, List,
  [], ◌∷◌, ◌++◌, append_assoc, append-nil, arith, Bool-cases, Option-cases, length, get_elem?, take,
  drop,
}
use xchain_encoder.Failures.{Result, ok, throw, param_type, param_range, ◌>>=◌}
use xchain_encoder.Payload.Slices.{Bytes}
use xchain_encoder.Payload.Carriers.{Encoding, op_return, p2sh, p2wsh, multisign, taproot, auto}
use xchain_encoder.Sizes.Estimator.{bytes_eq, estimate_op_return_output}
use xchain_encoder.Sizes.Reveals.{TxOut, p2sh_marker}
use xchain_encoder.Emission.Plan.{Library, obfuscate}
use xchain_encoder.Reveal.Legs.{
  marker_size, input_bytes, FundingTx, Reading, Request, Psbt, Spending, init_spending,
  to_lower_case, assert_reveal_funding_tx_matches, parse_funding_tx, begin_psbt, read_funding_tx,
  leg_at, assert_leg_funds_script, with_leg, spend_p2sh_leg, spend_p2wsh_leg, emit_reveal_chunk,
  emit_reveal_chunks,
}
use xchain_encoder.Emission.Accounting.{outputs_value}
use xchain_encoder.Reveal.Matched.{
  leg_script, marker_of, IsTwoPhase, IsFunded, leg_inputs_from, bytes_eq-eq, bytes_eq_refl,
  drop-get_elem?, drop-get_elem?_cons,
}

module _ (library : Library) (reading : Reading) (request : Request) where
  -- A leg spent once the funding transaction is decoded.
  step_lem :
      (encoding : Encoding) (chunk : Bytes) (s : Spending) (tx : FundingTx)
      → IsTwoPhase encoding
      → s.p2sh_tx ≡ some tx
      → (size : TxOut → ℕ) × (emit_reveal_chunk library reading request encoding chunk s ≡ (
          assert_leg_funds_script library reading request
            (get_elem? (tx.legs) (s.vout_psbt_index))
            (leg_script library encoding chunk)
          >>= λ leg. ok (
              with_leg library reading request
                (begin_psbt
                  (library.embed (obfuscate library (marker_of encoding) (s.txid_first_input)))
                  (s.psbt))
                chunk
                leg
                (size leg)
                s)))
  unfolding emit_reveal_chunk spend_p2sh_leg spend_p2wsh_leg
  step_lem p2sh chunk s tx two h =
      let marker = obfuscate library p2sh_marker (s.txid_first_input) in
      (
        λ leg.
            s.estimated_tx_size
            + marker_size (estimate_op_return_output marker) (s.psbt)
            + input_bytes library reading request (record {
              witness_script = none;
              non_witness_utxo = request.p2sh_hex;
              index = s.vout_psbt_index;
              redeem_script = some chunk;
            }),
        rw (h, read_funding_tx, leg_at) refl,
      )
  step_lem p2wsh chunk s tx two h = (
    λ leg.
        s.estimated_tx_size
        + input_bytes library reading request (record {
          witness_script = some (leg.script);
          non_witness_utxo = none;
          index = s.vout_psbt_index;
          redeem_script = none;
        }),
    rw (h, read_funding_tx, leg_at) refl,
  )
  step_lem op_return chunk s tx two h = absurd two
  step_lem multisign chunk s tx two h = absurd two
  step_lem taproot chunk s tx two h = absurd two
  step_lem auto chunk s tx two h = absurd two

  assert_lem :
      (expected : Bytes) (leg : TxOut)
      → leg.script ≡ expected
      → assert_leg_funds_script library reading request (some leg) expected ≡ ok leg
  unfolding assert_leg_funds_script
  assert_lem expected leg h = rw (h, bytes_eq_refl expected) refl

  differs_lem :
      (expected : Bytes) (leg : TxOut)
      → (leg.script ≡ expected)
        ⊎ (leg.script ≢ expected)
          × (assert_leg_funds_script library reading request (some leg) expected
              ≡ throw param_range)
  unfolding assert_leg_funds_script
  differs_lem expected leg = elim (Bool-cases (bytes_eq (leg.script) expected)) [
    | inl e ↦ inl (bytes_eq-eq (leg.script) expected e)
    | inr e ↦ inr (
      λ same. absurd (
          ground (
            arith,
            e,
            subst (λ x. bytes_eq x expected ≡ true) (sym same) (bytes_eq_refl expected),
          )),
      rw e refl,
    )
  ]

  abbrev pub marker_script : Encoding → FundingTx → Bytes
  marker_script encoding tx = library.embed (obfuscate library (marker_of encoding) (tx.txid))

  -- What becomes of the chunks that meet the given legs.
  abbrev pub Spends :
      Encoding → List Bytes → List TxOut → Bytes → Psbt → Spending → Result Spending → Type 0
  Spends encoding chunks rest marker psbt s r =
      IsFunded library encoding chunks rest
        × ((after : Spending) × (r ≡ ok after)
            × (begin_psbt marker (after.psbt) ≡ record psbt {
              leg_inputs =
                  psbt.leg_inputs ++ leg_inputs_from request (s.vout_psbt_index) chunks rest;
            })
            × (after.phase_leg_input_satoshis
                ≡ s.phase_leg_input_satoshis + outputs_value (take (length chunks) rest)))
      ⊎ (IsFunded library encoding chunks rest → ⊥) × (r ≡ throw param_range)

  pub chunks_lem :
      (encoding : Encoding) (chunks : List Bytes) (rest : List TxOut) (psbt : Psbt) (s : Spending)
      (tx : FundingTx)
      → IsTwoPhase encoding
      → s.p2sh_tx ≡ some tx
      → s.txid_first_input ≡ tx.txid
      → begin_psbt (marker_script encoding tx) (s.psbt) ≡ psbt
      → drop (s.vout_psbt_index) (tx.legs) ≡ rest
      → Spends encoding chunks rest
          (marker_script encoding tx)
          psbt
          s
          (emit_reveal_chunks library reading request encoding chunks s)
  unfolding emit_reveal_chunks leg_inputs_from
  chunks_lem encoding [] rest psbt s tx two h id p d = inl (
    tt,
    (
      s,
      refl,
      p ∙ ap (λ l. record psbt { leg_inputs = l }) (sym (append-nil (psbt.leg_inputs))),
      omega arith,
    ),
  )
  chunks_lem encoding (chunk ∷ chunks) [] psbt s tx two h id p d =
      let (size, step) = step_lem encoding chunk s tx two h in
      inr (
        λ f. absurd f,
        rw (step, drop-get_elem? (s.vout_psbt_index) (tx.legs) d, assert_leg_funds_script) refl,
      )
  chunks_lem encoding (chunk ∷ chunks) (leg ∷ rest) psbt s tx two h id p d =
      let (size, step) = step_lem encoding chunk s tx two h in
      let (found, dropped) = drop-get_elem?_cons (s.vout_psbt_index) (tx.legs) rest leg d in
      let one : suc (s.vout_psbt_index) ≡ s.vout_psbt_index + 1 = omega arith in
      let next = with_leg library reading request psbt chunk leg (size leg) s in
      let psbt' : Psbt = record psbt {
        leg_inputs =
            psbt.leg_inputs
            ++ record {
              hash = request.p2sh_hash;
              vout = s.vout_psbt_index;
              sequence = request.utxo_sequence;
              script = chunk;
              value = leg.value;
            }
              ∷ [];
      } in
      let step' : emit_reveal_chunk library reading request encoding chunk s ≡ (
          assert_leg_funds_script library reading request (some leg)
            (leg_script library encoding chunk)
          >>= λ l. ok (with_leg library reading request psbt chunk l (size l) s)) =
        step ∙ rw (found, id, p) refl in
      elim (differs_lem (leg_script library encoding chunk) leg) [
        | inr (ne, t) ↦ inr (λ f. ne (f.0), rw (step', t) refl)
        | inl same ↦
            let first : emit_reveal_chunk library reading request encoding chunk s ≡ ok next =
              step' ∙ rw (assert_lem (leg_script library encoding chunk) leg same) refl in
            elim (chunks_lem encoding chunks rest psbt' next tx two h id refl
              (subst (λ n. drop n (tx.legs) ≡ rest) one dropped)) [
                | inr (nf, r) ↦ inr (λ f. nf (f.1), rw first r)
                | inl (f, (after, r, ps, sum)) ↦ inl (
                  (same, f),
                  (
                    after,
                    rw first r,
                    ps
                        ∙ ap (λ l. record psbt { leg_inputs = l })
                            (append_assoc (psbt.leg_inputs) _ _),
                    omega (arith, sum),
                  ),
                )
              ]
      ]

  abbrev pub read_state : FundingTx → Spending
  read_state tx = record init_spending { p2sh_tx = some tx; txid_first_input = tx.txid }

  -- The first chunk decodes the funding transaction, or is refused.
  pub read_cases :
      (hex : Option Bytes)
      → ((tx : FundingTx) × (bytes : Bytes) × (hex ≡ some bytes)
          × (reading.from_hex bytes ≡ some tx)
          × (to_lower_case (request.p2sh_hash) ≡ to_lower_case (tx.txid))
          × (read_funding_tx library reading request none hex init_spending ≡ ok (read_state tx)))
        ⊎ (hex ≡ none)
        ⊎ (read_funding_tx library reading request none hex init_spending ≡ throw param_type)
  unfolding read_funding_tx assert_reveal_funding_tx_matches parse_funding_tx
  read_cases none = inr (inl refl)
  read_cases (some bytes) = elim (Option-cases (reading.from_hex bytes)) [
    | inl e ↦ inr (inr (rw e refl))
    | inr (tx, e) ↦
        elim (Bool-cases (bytes_eq (to_lower_case (request.p2sh_hash)) (to_lower_case (tx.txid)))) [
          | inl m ↦ inl (tx, bytes, refl, e, bytes_eq-eq _ _ m, rw (e, m) refl)
          | inr m ↦ inr (inr (rw (e, m) refl))
        ]
  ]

  pub read_lem :
      (hex : Bytes) (tx : FundingTx)
      → request.p2sh_hex ≡ some hex
      → reading.from_hex hex ≡ some tx
      → to_lower_case (request.p2sh_hash) ≡ to_lower_case (tx.txid)
      → read_funding_tx library reading request none (request.p2sh_hex) init_spending
        ≡ ok (read_state tx)
  unfolding read_funding_tx assert_reveal_funding_tx_matches parse_funding_tx
  read_lem hex tx given parsed same =
      subst (λ h. read_funding_tx library reading request none h init_spending ≡ ok (read_state tx))
        (sym given) (rw (parsed, same, bytes_eq_refl (to_lower_case (tx.txid))) refl)
