-- ===== src/Reveal/Enveloped.antt =====
-- The envelope reveal of src/XChainEncoder/build_transaction/reveal_outputs.js against the commit output
-- of data_outputs.js and the package prefund of fee_settlement.js beside it.
use xchain_encoder.Base.{
  ℕ, ◌+◌, ◌-◌, ◌≤◌, min, max, ◌≡◌, refl, sym, ap, ◌∙◌, subst, inl, inr, Bool, true, false, ◌||◌,
  Option, none, some, List, [], ◌∷◌, arith, ltb, ◌==◌, if◌then◌else◌, Bool-cases, get_elem?,
}
use xchain_encoder.Failures.{ok}
use xchain_encoder.Payload.Slices.{Bytes}
use xchain_encoder.Sizes.Estimator.{estimate_output_size_for_address}
use xchain_encoder.Sizes.Reveals.{TxOut}
use xchain_encoder.Fees.Settlement.{
  Build, EnvelopeMoney, raised_money, RevealPrefund, AncestorPackage, settle_fees,
  uplift_for_ancestors, floor_estimated_fee, apply_reveal_prefund, prefund_commit,
  prefund_reveal_package, within_inputs, compute_change,
}
use xchain_encoder.Fees.Policy.{fee_for_vsize, package_fee_uplift_satoshis}
use xchain_encoder.Fees.Balance.{settled}
use xchain_encoder.Fees.Change.{settle_fees-checks}
use xchain_encoder.Emission.Plan.{Library, Plan, Emission, Prefund}
use xchain_encoder.Emission.Carriers.{
  reveal_change_address, reveal_pad_needed, envelope_reveal_vsize, emit_envelope_commit,
}
use xchain_encoder.Emission.Payments.{init_emission_state}
use xchain_encoder.Emission.Accounting.{outputs_value}
use xchain_encoder.Reveal.Matched.{bytes_eq_refl}
use xchain_encoder.Reveal.Legs.{Psbt}
use xchain_encoder.Reveal.Envelope.{
  address_script, EnvelopeContext, find_script, envelope_context, reveal_outputs, build_reveal_psbt,
}

-- The money that funds a reveal, raised by the settlement.
record IsPrefunded (p q : RevealPrefund) : Type 0 where
  raised : ℕ
  value : q.commit_value ≡ p.commit_value + raised
  fee : q.reveal_fee ≡ p.reveal_fee + raised
  envelope : q.envelope ≡ raised_money raised (p.envelope)

raised_none : (o : Option EnvelopeMoney) → o ≡ raised_money 0 o
raised_none none = refl
raised_none (some m) =
    let value : m.commit_value ≡ m.commit_value + 0 = omega arith in
    let fee : m.reveal_fee ≡ m.reveal_fee + 0 = omega arith in
    ap (λ v. some (record { commit_value = v; reveal_fee = m.reveal_fee })) value
    ∙ ap (λ f. some (record { commit_value = m.commit_value + 0; reveal_fee = f })) fee

some_inj : {A : Type 0} {a b : A} → ◌≡◌ {A = Option A} (some a) (some b) → a ≡ b
some_inj h = cc

prefund_lem :
    (kept : Bool) (bound wanted : ℕ) (p q : RevealPrefund) (build : Build)
    → build.reveal_prefund ≡ some p
    → (if kept then build else apply_reveal_prefund bound wanted p build).reveal_prefund ≡ some q
    → IsPrefunded p q
unfolding apply_reveal_prefund
prefund_lem true bound wanted p q build e h = subst (IsPrefunded p) (some_inj (sym e ∙ h)) (record {
  raised = 0;
  value = omega arith;
  fee = omega arith;
  envelope = raised_none (p.envelope);
})
prefund_lem false bound wanted p q build e h = subst (IsPrefunded p) (some_inj h) (record {
  raised = within_inputs false build (min wanted bound);
  value = refl;
  fee = refl;
  envelope = refl;
})

prefund_commit-IsPrefunded :
    (bound : ℕ) (p q : RevealPrefund) (build : Build)
    → build.reveal_prefund ≡ some p
    → (prefund_reveal_package bound build).reveal_prefund ≡ some q
    → IsPrefunded p q
unfolding prefund_reveal_package prefund_commit
prefund_commit-IsPrefunded bound p q build e h =
    let wanted =
      package_fee_uplift_satoshis (p.reveal_fee) (p.reveal_size)
        (build.estimated_tx_size + build.commit_ancestor_size)
        (build.estimated_fee + build.commit_ancestor_fee) (build.rate) in
    prefund_lem (build.p2sh_hash || ((build.rate == 0) || ((bound == 0) || (wanted == 0)))) bound
      wanted p q build e (subst (λ o. (prefund_commit bound build o).reveal_prefund ≡ some q) e h)

steps_lem :
    (dust bound : ℕ) (ancestors : Option AncestorPackage) (build : Build)
    → (floor_estimated_fee dust (uplift_for_ancestors dust bound ancestors build)).reveal_prefund
      ≡ build.reveal_prefund
unfolding floor_estimated_fee uplift_for_ancestors
steps_lem dust bound none build = refl
steps_lem dust bound (some ancestors) build =
    elim (Bool-cases ((build.rate == 0) || ((bound == 0) || (ancestors.size == 0)))) [
      | inl e ↦ rw e refl
      | inr e ↦ rw e refl
    ]

compute_lem :
    (dust : ℕ) (build after : Build)
    → compute_change dust build ≡ ok after
    → after.reveal_prefund ≡ build.reveal_prefund
unfolding compute_change
compute_lem dust build after h = ground arith

settle_fees-IsPrefunded :
    (dust bound : ℕ) (ancestors : Option AncestorPackage) (build after : Build)
    (p q : RevealPrefund)
    → build.reveal_prefund ≡ some p
    → settle_fees dust bound ancestors build ≡ ok after
    → after.reveal_prefund ≡ some q
    → IsPrefunded p q
unfolding settled
settle_fees-IsPrefunded dust bound ancestors build after p q e h f =
    let (_, _, c) = settle_fees-checks dust bound ancestors build after h in
    prefund_commit-IsPrefunded bound p q
      (floor_estimated_fee dust (uplift_for_ancestors dust bound ancestors build))
      (steps_lem dust bound ancestors build ∙ e) (sym (compute_lem dust _ after c) ∙ f)

-- The prefund as the emission leaves it, with the value of the output that it points to.
abbrev pub envelope_prefund : Emission → Prefund → TxOut → RevealPrefund
envelope_prefund e prefund out = record {
  reveal_fee = prefund.reveal_fee;
  reveal_size = prefund.reveal_size;
  commit_value = out.value;
  envelope = e.envelope;
}

abbrev pub dust_outputs : Bool → ℕ → Bytes → List TxOut
dust_outputs true dust script =
    record { value = dust; script = script } ∷ record { value = dust; script = script } ∷ []
dust_outputs false dust script = record { value = dust; script = script } ∷ []

outs_lem :
    (context : EnvelopeContext) (dust : ℕ) (script : Bytes)
    → context.commit_value
      ≡ context.reveal_fee + dust + (if context.reveal_pad_needed then dust else 0)
    → (reveal_outputs context dust script
        ≡ ok (dust_outputs (context.reveal_pad_needed) dust script))
      × (outputs_value (dust_outputs (context.reveal_pad_needed) dust script) + context.reveal_fee
          ≡ context.commit_value)
unfolding reveal_outputs
outs_lem context dust script h =
    let value = context.commit_value in
    let fee = context.reveal_fee in
    elim (Bool-cases (context.reveal_pad_needed)) [
      | inl e ↦
          let h' : value ≡ fee + dust + dust = rw e at h in
          let enough : ltb value (fee + dust) ≡ false = ground (arith, h') in
          let rest : value - (fee + dust) ≡ dust = omega (arith, h') in
          rw (e, enough, rest) (refl, omega (arith, h'))
      | inr e ↦
          let h' : value ≡ fee + dust + 0 = rw e at h in
          let enough : ltb value (fee + 0) ≡ false = ground (arith, h') in
          let rest : value - (fee + 0) ≡ dust = omega (arith, h') in
          rw (e, enough, rest) (refl, omega (arith, h'))
    ]

built_lem :
    (context : EnvelopeContext) (dust : ℕ) (txid script : Bytes) (sequence : ℕ)
    (commit_outputs outs : List TxOut)
    → find_script (context.commit_script) 0 commit_outputs ≡ some 0
    → context.change_script ≡ some script
    → reveal_outputs context dust script ≡ ok outs
    → build_reveal_psbt context dust txid sequence commit_outputs
      ≡ ok (record {
        leg_inputs =
            record {
              hash = txid;
              vout = 0;
              sequence = sequence;
              script = context.commit_script;
              value = context.commit_value;
            }
            ∷ [];
        outs = outs;
      })
unfolding build_reveal_psbt
built_lem context dust txid script sequence commit_outputs outs found parsed made =
    rw (found, parsed, made) refl

module _ (library : Library) (plan : Plan) where
  -- The commit output of an envelope and its reveal balance. Take the output that a TAPROOT build emits
  -- for its envelope, whatever the settlement moves into it, a change address that parses or the
  -- caller's own, and a commit whose first output is that one with its settled value. Then the reveal
  -- is built: it spends output 0 of the commit, by that output's script and its settled value, which is
  -- at least the emitted one, and nothing else, and pays the dust threshold back to that address, twice
  -- where the stripped floor asks for a pad. What it leaves to the miner is exactly the prefunded fee,
  -- which is at least the fee for the reveal's size and what was prefunded before the settlement.
  pub build_reveal_psbt-settles :
      (chunk txid script : Bytes) (sequence bound : ℕ) (ancestors : Option AncestorPackage)
      (build after : Build) (prefund : Prefund) (q : RevealPrefund) (first : TxOut)
      (more : List TxOut)
      → let e = emit_envelope_commit library plan chunk (init_emission_state plan 0) in
        e.reveal_prefund ≡ some prefund
        → get_elem? (e.outputs) (prefund.output_index) ≡ some first
        → build.reveal_prefund ≡ some (envelope_prefund e prefund first)
        → settle_fees (plan.dust_amount) bound ancestors build ≡ ok after
        → after.reveal_prefund ≡ some q
        → reveal_change_address library plan ≡ some (some script)
        → let out : TxOut = record first { value = q.commit_value } in
          (money : EnvelopeMoney) × (psbt : Psbt) × (q.envelope ≡ some money)
          × (build_reveal_psbt
                (envelope_context library plan chunk money)
                (plan.dust_amount)
                txid
                sequence
                (out ∷ more)
              ≡ ok psbt)
          × (psbt.leg_inputs
              ≡ record {
                hash = txid;
                vout = 0;
                sequence = sequence;
                script = out.script;
                value = out.value;
              }
                ∷ [])
          × (first.value ≤ out.value)
          × (outputs_value (psbt.outs) + q.reveal_fee ≡ out.value)
          × (psbt.outs
              ≡ dust_outputs
                  (reveal_pad_needed library plan
                    (estimate_output_size_for_address (reveal_change_address library plan)))
                  (plan.dust_amount)
                  script)
          × (fee_for_vsize (envelope_reveal_vsize library plan chunk) (plan.rate) ≤ q.reveal_fee)
          × (prefund.reveal_fee ≤ q.reveal_fee)
  unfolding emit_envelope_commit init_emission_state envelope_context find_script
  build_reveal_psbt-settles chunk txid script sequence bound ancestors build after prefund q first
        more made emitted before settled' left change =
      let e = emit_envelope_commit library plan chunk (init_emission_state plan 0) in
      let p =
        settle_fees-IsPrefunded (plan.dust_amount) bound ancestors build after
          (envelope_prefund e prefund first) q before settled' left in
      let tree = library.p2tr_output (plan.internal_pubkey) chunk in
      let pad =
        if reveal_pad_needed library plan
          (estimate_output_size_for_address (reveal_change_address library plan))
        then plan.dust_amount
        else 0 in
      let least =
        max (fee_for_vsize (envelope_reveal_vsize library plan chunk) (plan.rate))
          (plan.final_dust) in
      let fee : prefund.reveal_fee ≡ least = ap (λ x. x.reveal_fee) (some_inj (sym made)) in
      let at : prefund.output_index ≡ 0 = ap (λ x. x.output_index) (some_inj (sym made)) in
      let here : ◌≡◌ {A = TxOut} (record { value = least + plan.dust_amount + pad; script = tree })
          first =
        some_inj (subst (λ i. get_elem? (e.outputs) i ≡ some first) at emitted) in
      let value : first.value ≡ least + plan.dust_amount + pad = ap (λ o. o.value) (sym here) in
      let same : first.script ≡ tree = ap (λ o. o.script) (sym here) in
      let money : EnvelopeMoney = record {
        commit_value = least + plan.dust_amount + pad + p.raised;
        reveal_fee = least + p.raised;
      } in
      let out : TxOut = record first { value = q.commit_value } in
      let paid : money.commit_value ≡ q.commit_value = omega (arith, p.value, value) in
      let context = envelope_context library plan chunk money in
      let (outs, sum) = outs_lem context (plan.dust_amount) script (omega arith) in
      let found : find_script tree 0 (out ∷ more) ≡ some 0 = rw (same, bytes_eq_refl tree) refl in
      (
        money,
        _,
        p.envelope,
        built_lem context (plan.dust_amount) txid script sequence (out ∷ more) _ found
            (ap address_script change) outs,
        ap
              (λ x.
                record {
                  hash = txid;
                  vout = 0;
                  sequence = sequence;
                  script = x;
                  value = money.commit_value;
                }
                ∷ [])
              (sym same)
            ∙ ap
                (λ v.
                  record {
                    hash = txid;
                    vout = 0;
                    sequence = sequence;
                    script = first.script;
                    value = v;
                  }
                  ∷ [])
                paid,
        omega (arith, p.value),
        omega (arith, sum, p.fee, fee, paid),
        refl,
        omega (arith, p.fee, fee),
        omega (arith, p.fee),
      )
