-- ===== src/Reveal/Balanced.antt =====
-- A commit and its reveal as one account: src/XChainEncoder/build_transaction/data_outputs.js,
-- script_hash_legs.js, fee_settlement.js and reveal_outputs.js, in the order of src/XChainEncoder.js.
use xchain_encoder.Base.{ℕ, ◌+◌, ◌≤◌, ◌≡◌, true, [], ◌∷◌, ◌++◌}
use xchain_encoder.Sizes.Reveals.{TxOut}
use xchain_encoder.Emission.Plan.{Library, Plan, Emission}
use xchain_encoder.Emission.Accounting.{outputs_value}
use xchain_encoder.Reveal.Legs.{Psbt}
use xchain_encoder.Reveal.Funded.{fee_owed}
use xchain_encoder.Reveal.Sweep.{Terms, is_empty}

module _ (library : Library) (plan : Plan) (terms : Terms) where
  -- The outcome of the steps behind the inputs.
  abbrev Settled : ℕ → Psbt → Psbt → Type 0
  Settled legs psbt done =
      (kept : ℕ) × (outputs_value (done.outs) + kept ≡ legs)
      × (fee_owed plan ≤ kept)
      × (kept ≤ fee_owed plan + terms.max_cpfp_uplift_sat + plan.output_floor)
      × (is_empty (plan.custom_outputs) ≡ true
          → (home : TxOut) × (done.outs ≡ psbt.outs ++ home ∷ [])
            × (plan.output_floor ≤ home.value))
      × (done.leg_inputs ≡ psbt.leg_inputs)
