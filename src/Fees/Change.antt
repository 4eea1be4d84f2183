-- ===== src/Fees/Change.antt =====
-- The change of a settled build, `computeChange` of src/XChainEncoder/build_transaction/
-- fee_settlement.js at the end of the settlement.
use xchain_encoder.Base.{
  ℕ, ◌+◌, ◌-◌, ◌≤◌, max, ◌≡◌, sym, ◌∙◌, ◌⊎◌, inl, inr, true, false, Option, arith,
}
use xchain_encoder.Failures.{ok}
use xchain_encoder.Fees.Settlement.{
  Build, AncestorPackage, refuse_excessive_fee, reaches_relay_minimum,
  refuse_insufficient_relay_fee, compute_change, settle_fees,
}
use xchain_encoder.Fees.Balance.{settled, settled-IsSettling}

-- What a computed change says of the build.
pub record IsBalanced (dust : ℕ) (before after : Build) : Type 0 where
  pub balance :
      before.p2sh_hash ≡ false
      → after.input_satoshis ≡ after.output_satoshis + after.estimated_fee + after.change_satoshis
  pub burned : (after.change_satoshis ≤ dust) ⊎ (before.change ≡ true)
  pub same_inputs : after.input_satoshis ≡ before.input_satoshis
  pub same_outputs : after.output_satoshis ≡ before.output_satoshis
  pub same_fee : after.estimated_fee ≡ before.estimated_fee

pub compute_change-IsBalanced :
    (dust : ℕ) (build after : Build)
    → compute_change dust build ≡ ok after
    → IsBalanced dust build after
unfolding compute_change
compute_change-IsBalanced dust build after h = record {
  balance = λ e. ground arith;
  burned = ground arith;
  same_inputs = ground arith;
  same_outputs = ground arith;
  same_fee = ground arith;
}

compute_change-ok :
    (dust : ℕ) (build : Build)
    → build.change ≡ true
    → build.output_satoshis + build.estimated_fee ≤ build.input_satoshis
    → (after : Build) × (compute_change dust build ≡ ok after)
unfolding compute_change
compute_change-ok dust build c h = (
  record build {
    change_satoshis = build.input_satoshis - (build.output_satoshis + build.estimated_fee);
  },
  ground arith,
)

-- The checks let through, the settlement is the change of the settled build.
pub settle_fees-checks :
    (dust bound : ℕ) (ancestors : Option AncestorPackage) (build after : Build)
    → settle_fees dust bound ancestors build ≡ ok after
    → (reaches_relay_minimum dust build ≡ true)
      × (refuse_excessive_fee dust build ≡ ok tt)
      × (compute_change dust (settled dust bound ancestors build) ≡ ok after)
unfolding settle_fees refuse_insufficient_relay_fee settled
settle_fees-checks dust bound ancestors build after h = (ground arith, ground arith, ground arith)

-- A single-transaction build that the settlement lets through is exactly balanced: its inputs, which
-- are those it had, are its outputs, the fee and the change, to the base unit. The fee is at
-- least the estimate and at least the dust threshold plus the surcharge; the outputs are not
-- lowered; and a change above the dust threshold has an address to go to.
pub settle_fees-balanced :
    (dust bound : ℕ) (ancestors : Option AncestorPackage) (build after : Build)
    → build.p2sh_hash ≡ false
    → settle_fees dust bound ancestors build ≡ ok after
    → (after.input_satoshis ≡ build.input_satoshis)
      × (after.input_satoshis ≡ after.output_satoshis + after.estimated_fee + after.change_satoshis)
      × (max (build.estimated_fee) (dust + build.soft_dust_surcharge) ≤ after.estimated_fee)
      × (build.output_satoshis ≤ after.output_satoshis)
      × ((after.change_satoshis ≤ dust) ⊎ (build.change ≡ true))
settle_fees-balanced dust bound ancestors build after kind h =
    let (_, _, c) = settle_fees-checks dust bound ancestors build after h in
    let s = settled-IsSettling dust bound ancestors build in
    let b = compute_change-IsBalanced dust (settled dust bound ancestors build) after c in
    (
      b.same_inputs ∙ s.same_inputs,
      b.balance (s.same_kind ∙ kind),
      omega (arith, b.same_fee, s.floored, s.raised),
      omega (arith, b.same_outputs, s.grown),
      elim (b.burned) [ inl x ↦ inl x | inr y ↦ inr (sym (s.same_change) ∙ y) ],
    )

-- The settlement never refuses a build that could pay: if the inputs cover the outputs and the
-- fee, lifted to the dust threshold and the surcharge, the supplied fee reaches the relay minimum
-- and is not excessive, and a change address is given, then whatever package the ancestors form it
-- returns a build, which is balanced.
pub settle_fees-funded :
    (dust bound : ℕ) (ancestors : Option AncestorPackage) (build : Build)
    → build.p2sh_hash ≡ false
    → build.change ≡ true
    → reaches_relay_minimum dust build ≡ true
    → refuse_excessive_fee dust build ≡ ok tt
    → build.output_satoshis + max (build.estimated_fee) (dust + build.soft_dust_surcharge)
      ≤ build.input_satoshis
    → (after : Build) × (settle_fees dust bound ancestors build ≡ ok after)
      × (after.input_satoshis ≡ after.output_satoshis + after.estimated_fee + after.change_satoshis)
unfolding settle_fees refuse_insufficient_relay_fee settled
settle_fees-funded dust bound ancestors build kind change relay fair funds =
    let s = settled-IsSettling dust bound ancestors build in
    let (after, e) =
      compute_change-ok dust (settled dust bound ancestors build) (s.same_change ∙ change)
        (s.funded kind funds) in
    let eq : settle_fees dust bound ancestors build ≡ ok after = rw (relay, fair) e in
    (after, eq, (settle_fees-balanced dust bound ancestors build after kind eq).1)
