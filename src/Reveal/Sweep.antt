-- ===== src/Reveal/Sweep.antt =====
-- What a reveal pays out and keeps: the floor pad of `emitChangeAndPad`, `sweepP2shReveal`,
-- `sweepsRevealSurplus`, `upliftRevealForCommit` and `clampRevealUplift` of
-- src/XChainEncoder/build_transaction/reveal_outputs.js, and the steps of `buildSteps` of
-- src/XChainEncoder.js that a reveal goes through. Rates and amounts are those of Fees/Policy.
use xchain_encoder.Base.{
  ℕ, ◌+◌, ◌-◌, min, max, Bool, true, false, not, ◌&&◌, ◌||◌, Option, none, some, List, [], ◌∷◌,
  ◌++◌, map, ltb, leb, if◌then◌else◌, length,
}
use xchain_encoder.Failures.{Result, ok, throw, internal, param_type, ◌>>=◌}
use xchain_encoder.Payload.Carriers.{Encoding, p2wsh}
use xchain_encoder.Sizes.Reveals.{
  TxOut, Tx, stripped_tx_size, estimate_p2sh_reveal_tx, estimate_p2wsh_reveal_tx,
}
use xchain_encoder.Fees.Policy.{fee_for_vsize, package_fee_uplift_satoshis}
use xchain_encoder.Fees.Settlement.{Build, AncestorPackage, settle_fees}
use xchain_encoder.Emission.Plan.{Library, Payment, Plan, Emission}
use xchain_encoder.Emission.Legs.{is_p2sh, payments_size, reveal_needs_floor_pad}
use xchain_encoder.Emission.Payments.{emit_payments, soft_dust_surcharge_of}
use xchain_encoder.Reveal.Legs.{
  Reading, Request, Spending, Psbt, LegInput, init_spending, emit_reveal_chunks,
}

abbrev pub is_p2wsh : Encoding → Bool
is_p2wsh p2wsh = true
is_p2wsh _ = false

-- What the caller and the operator chose for the fee: an explicit fee, whether a rate was given, the
-- caps and rates, the bound on an uplift, and the commit's mempool package if the node told it.
pub record Terms : Type 0 where
  pub fee : Option ℕ
  pub caller_rate : Bool
  pub cap_rate : Option ℕ
  pub node_rate : Option ℕ
  pub relay_rate : ℕ
  pub max_cpfp_uplift_sat : ℕ
  pub commit_package : Option AncestorPackage

-- The build of a reveal after its data: no inputs were selected, and the payments come next.
abbrev pub emission_of : Psbt → Spending → Emission
emission_of psbt s = record {
  outputs = psbt.outs;
  output_satoshis = 0;
  estimated_tx_size = s.estimated_tx_size;
  reveal_custom_outputs_value = 0;
  reveal_custom_outputs_fee = 0;
  p2sh_reveal_headroom_funded = false;
  reveal_prefund = none;
  envelope = none;
}

-- `build` as fee settlement meets it on a reveal.
unfoldable pub reveal_build : Library → Plan → Terms → Emission → Build
unfolding soft_dust_surcharge_of
reveal_build library plan terms e =
    let surcharge = soft_dust_surcharge_of library plan e in
    record {
      fee = elim (terms.fee) [ none ↦ false | some asked ↦ true ];
      caller_rate = terms.caller_rate;
      p2sh_hash = true;
      change = elim (plan.change) [ none ↦ false | some address ↦ true ];
      cap_rate = terms.cap_rate;
      node_rate = terms.node_rate;
      rate = plan.rate;
      relay_rate = terms.relay_rate;
      estimated_tx_size =
          e.estimated_tx_size + 43 + (if ltb 252 (length (e.outputs) + 1) then 2 else 0);
      estimated_fee = elim (terms.fee) [ none ↦ 0 | some asked ↦ asked + surcharge ];
      soft_dust_surcharge = surcharge;
      input_satoshis = 0;
      output_satoshis = e.output_satoshis;
      commit_ancestor_size = 0;
      commit_ancestor_fee = 0;
      reveal_prefund = none;
      change_satoshis = 0;
    }

-- An output to the change address, or to the caller's own.
unfoldable pub pay_home : Plan → ℕ → List TxOut → Result (List TxOut)
pay_home plan value outs = elim (plan.change) [
  | some none ↦ throw internal
  | some (some script) ↦ ok (outs ++ record { value = value; script = script } ∷ [])
  | none ↦ elim (plan.caller_address) [
    | none ↦ throw param_type
    | some script ↦ ok (outs ++ record { value = value; script = script } ∷ [])
  ]
]

abbrev pub unsigned_tx : List LegInput → List TxOut → Tx
unsigned_tx inputs outs = record {
  version = 2;
  tx_inputs = map (λ l. record { hash = l.hash; vout = l.vout; sequence = l.sequence }) inputs;
  tx_outputs = outs;
  locktime = 0;
}

abbrev pub under_floor : Option ℕ → ℕ → Bool
under_floor none size = false
under_floor (some floor) size = ltb size floor

-- The pad of a P2WSH reveal under the stripped floor.
unfoldable pub emit_pad : Plan → List LegInput → List TxOut → Result (List TxOut)
unfolding pay_home stripped_tx_size
emit_pad plan inputs outs =
    if is_p2wsh (plan.encoding)
      && under_floor (plan.min_standard_tx_non_witness_size)
          (stripped_tx_size (unsigned_tx inputs outs))
    then pay_home plan (plan.dust_amount) outs
    else ok outs

unfoldable pub sweeps_reveal_surplus : Plan → Bool
unfolding reveal_needs_floor_pad
sweeps_reveal_surplus plan =
    is_p2sh (plan.encoding) || (is_p2wsh (plan.encoding) && not (reveal_needs_floor_pad plan))

-- The size of the whole reveal with its payments and a change output.
unfoldable pub reveal_size_for_fee : Plan → ℕ
unfolding payments_size estimate_p2sh_reveal_tx estimate_p2wsh_reveal_tx
reveal_size_for_fee plan =
    let bytes = payments_size 43 (plan.custom_outputs) in
    if is_p2sh (plan.encoding)
    then estimate_p2sh_reveal_tx (plan.chunks) bytes
    else estimate_p2wsh_reveal_tx (plan.min_standard_tx_non_witness_size) (plan.chunks) bytes

abbrev pub is_empty : List Payment → Bool
is_empty [] = true
is_empty (p ∷ ps) = false

-- The uplift kept as fee: at most the bound and at most what the legs have left.
unfoldable pub clamp_reveal_uplift : Plan → ℕ → ℕ → ℕ → ℕ → ℕ → ℕ
clamp_reveal_uplift plan legs output_satoshis bound wanted kept =
    let sweep_reserve = if is_empty (plan.custom_outputs) then plan.output_floor else 0 in
    let spoken_for = output_satoshis + kept + sweep_reserve in
    let allowed = min wanted bound in
    if leb legs spoken_for
    then kept
    else if ltb (legs - spoken_for) allowed
    then kept + (legs - spoken_for)
    else kept + allowed

-- A commit that the node does not tell asks for nothing.
unfoldable pub uplift_reveal_for_commit : Plan → ℕ → ℕ → Terms → ℕ → ℕ
unfolding clamp_reveal_uplift package_fee_uplift_satoshis
uplift_reveal_for_commit plan legs output_satoshis terms kept = elim (terms.commit_package) [
  | none ↦ kept
  | some commit ↦
      let wanted =
        package_fee_uplift_satoshis kept (reveal_size_for_fee plan) (commit.size) (commit.fees)
          (plan.rate) in
      if ltb 0 (terms.max_cpfp_uplift_sat) && (ltb 0 (plan.rate) && ltb 0 wanted)
      then clamp_reveal_uplift plan legs output_satoshis (terms.max_cpfp_uplift_sat) wanted kept
      else kept
]

-- The larger of the two base fees, with the surcharge once.
unfoldable pub reveal_fee_kept : Plan → Build → ℕ
unfolding reveal_size_for_fee fee_for_vsize
reveal_fee_kept plan build =
    let surcharge = build.soft_dust_surcharge in
    max (fee_for_vsize (reveal_size_for_fee plan) (plan.rate)) (build.estimated_fee - surcharge)
    + surcharge

unfoldable pub sweep_p2sh_reveal : Plan → Terms → Build → ℕ → List TxOut → Result (List TxOut)
unfolding sweeps_reveal_surplus reveal_fee_kept uplift_reveal_for_commit pay_home
sweep_p2sh_reveal plan terms build legs outs =
    let kept =
      uplift_reveal_for_commit plan legs (build.output_satoshis) terms
        (reveal_fee_kept plan build) in
    let spent = build.output_satoshis + kept in
    if sweeps_reveal_surplus plan && ltb 0 legs
    then if leb (spent + plan.output_floor) legs then pay_home plan (legs - spent) outs else ok outs
    else ok outs

module _ (library : Library) (plan : Plan) (terms : Terms) where
  -- From the payments to the sweep, for a psbt that has its inputs.
  unfoldable pub finish_reveal : Spending → Psbt → Result Psbt
  unfolding emit_payments reveal_build settle_fees emit_pad sweep_p2sh_reveal
  finish_reveal s psbt =
      emit_payments library plan (plan.custom_outputs) (emission_of psbt s) >>= λ e.
      settle_fees (plan.dust_amount) (terms.max_cpfp_uplift_sat) none
        (reveal_build library plan terms e)
      >>= λ build. emit_pad plan (psbt.leg_inputs) (e.outputs) >>= λ padded.
          sweep_p2sh_reveal plan terms build (s.phase_leg_input_satoshis) padded >>= λ outs.
          ok (record psbt { outs = outs })

  -- A reveal without a chunk has no psbt to add outputs to.
  unfoldable pub finish_begun : Option Psbt → Spending → Result Psbt
  unfolding finish_reveal
  finish_begun none s = throw internal
  finish_begun (some psbt) s = finish_reveal s psbt

  unfoldable pub build_reveal : Reading → Request → Result Psbt
  unfolding emit_reveal_chunks finish_begun
  build_reveal reading request =
      emit_reveal_chunks library reading request (plan.encoding) (plan.chunks) init_spending
      >>= λ s. finish_begun (s.psbt) s
