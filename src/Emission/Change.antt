-- ===== src/Emission/Change.antt =====
-- The change output of a build that spends no reveal's legs: `emitChangeAndPad` of
-- src/XChainEncoder/build_transaction/reveal_outputs.js, and what it leaves to the miner.
use xchain_encoder.Base.{
  ℕ, ◌+◌, ◌≤◌, ◌<◌, max, ◌≡◌, refl, ap, ◌⊎◌, inl, inr, false, ◌&&◌, Option, none, some, List, [],
  ◌∷◌, ◌++◌, arith, ltb, leb, if◌then◌else◌, Bool-cases,
}
use xchain_encoder.Failures.{Result, ok, throw, internal}
use xchain_encoder.Payload.Slices.{Bytes}
use xchain_encoder.Sizes.Reveals.{TxOut}
use xchain_encoder.Reservations.State.{Ledger, Encoder, has}
use xchain_encoder.Fees.Settlement.{Build, AncestorPackage, settle_fees}
use xchain_encoder.Fees.Change.{settle_fees-balanced}
use xchain_encoder.Selection.State.{Candidate, Order, State, selected, World}
use xchain_encoder.Selection.Checks.{init_selection, select_funding_inputs}
use xchain_encoder.Selection.Rounds.{value_of, candidates_of}
use xchain_encoder.Selection.Settled.{hand_over}
use xchain_encoder.Emission.Plan.{Library, Plan, Emission}
use xchain_encoder.Emission.Payments.{emit_outputs}
use xchain_encoder.Emission.Accounting.{outputs_value, outputs_value-snoc}
use xchain_encoder.Emission.Conserved.{settle_fees-conserved}

-- The script of the change address; bitcoinjs-lib throws where it does not parse.
unfoldable pub emit_change : ℕ → Option (Option Bytes) → ℕ → List TxOut → Result (List TxOut)
emit_change output_floor none change_satoshis outputs = ok outputs
emit_change output_floor (some none) change_satoshis outputs =
    if ltb 0 change_satoshis && leb output_floor change_satoshis then throw internal else ok outputs
emit_change output_floor (some (some script)) change_satoshis outputs =
    if ltb 0 change_satoshis && leb output_floor change_satoshis
    then ok (outputs ++ record { value = change_satoshis; script = script } ∷ [])
    else ok outputs

-- What a build leaves out of its outputs: a change without an address, or under the floor.
emit_change-burned :
    (output_floor change_satoshis : ℕ) (change : Option (Option Bytes)) (outputs after : List TxOut)
    → emit_change output_floor change change_satoshis outputs ≡ ok after
    → (burned : ℕ) × (outputs_value outputs + change_satoshis ≡ outputs_value after + burned)
      × ((has change ≡ false) × (burned ≡ change_satoshis) ⊎ (burned ≡ 0) ⊎ (burned < output_floor))
unfolding emit_change
emit_change-burned output_floor change_satoshis none outputs after h =
    (change_satoshis, ground arith, inl (refl, refl))
emit_change-burned output_floor change_satoshis (some none) outputs after h =
    elim (Bool-cases (ltb 0 change_satoshis && leb output_floor change_satoshis)) [
      | inl e ↦ absurd (ground (arith, e))
      | inr e ↦ (change_satoshis, ground (arith, e), inr (ground (arith, e)))
    ]
emit_change-burned output_floor change_satoshis (some (some script)) outputs after h =
    elim (Bool-cases (ltb 0 change_satoshis && leb output_floor change_satoshis)) [
      | inl e ↦
          let out : TxOut = record { value = change_satoshis; script = script } in
          let same : outputs ++ out ∷ [] ≡ after = ground (arith, e) in
          (0, omega (arith, ap outputs_value same, outputs_value-snoc outputs out), inr (inl refl))
      | inr e ↦ (change_satoshis, ground (arith, e), inr (ground (arith, e)))
    ]

-- The miner of a single-transaction build is paid at least the settled fee, and at most that and the
-- larger of the dust threshold and the output floor: what the inputs hold is the outputs with the
-- change, what the settlement moved into the output that funds a reveal, and that payment. Nothing
-- is moved without such an output.
pub emit_change-paid :
    (library : Library) (plan : Plan) (e : Emission) (world : World) (order : Order)
    (candidates : List Candidate) (fee : Option ℕ) (size : ℕ) (enc : Encoder) (calls : Ledger)
    (st : State) (dust bound : ℕ) (ancestors : Option AncestorPackage) (build after : Build)
    (change : Option (Option Bytes)) (outputs : List TxOut)
    → emit_outputs library plan ≡ ok e
    → order.output_satoshis ≡ e.output_satoshis
    → select_funding_inputs world order candidates (init_selection order fee size enc calls)
      ≡ selected st
    → settle_fees dust bound ancestors (hand_over order st build) ≡ ok after
    → build.change ≡ has change
    → emit_change (plan.output_floor) change (after.change_satoshis) (e.outputs) ≡ ok outputs
    → (raised paid : ℕ) × (value_of (candidates_of (st.picked))
        ≡ outputs_value outputs + raised + paid)
      × (after.estimated_fee ≤ paid)
      × (paid ≤ after.estimated_fee + max dust (plan.output_floor))
      × (build.reveal_prefund ≡ none → raised ≡ 0)
emit_change-paid library plan e world order candidates fee size enc calls st dust bound ancestors
      build after change outputs emitted sum h s asked c =
    let (raised, value, none', _) =
      settle_fees-conserved library plan e world order candidates fee size enc calls st dust bound
        ancestors build after emitted sum h s in
    let (_, _, _, _, small) =
      settle_fees-balanced dust bound ancestors (hand_over order st build) after refl s in
    let (burned, rest, why) =
      emit_change-burned (plan.output_floor) (after.change_satoshis) change (e.outputs) outputs c in
    let bounded : burned ≤ max dust (plan.output_floor) = elim why [
      | inr (inl z) ↦ omega (arith, z)
      | inr (inr lt) ↦ omega (arith, lt)
      | inl (nowhere, all) ↦ elim small [
        | inl le ↦ omega (arith, all, le)
        | inr given ↦ absurd (ground (arith, asked, nowhere, given))
      ]
    ] in
    (
      raised,
      after.estimated_fee + burned,
      omega (arith, value, rest),
      omega arith,
      omega (arith, bounded),
      none',
    )
