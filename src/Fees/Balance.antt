-- ===== src/Fees/Balance.antt =====
-- What the settlement of src/XChainEncoder/build_transaction/fee_settlement.js does to the balance.
use xchain_encoder.Base.{
  ℕ, ◌+◌, ◌≤◌, min, max, ◌≡◌, refl, ◌∙◌, Bool, false, Option, none, some, arith,
}
use xchain_encoder.Fees.Policy.{package_fee_uplift_satoshis}
use xchain_encoder.Fees.Settlement.{
  RevealPrefund, Build, AncestorPackage, rate_ceiling, hard_ceiling, within, within_inputs,
  uplift_ancestor_fee, uplift_for_ancestors, floor_estimated_fee, apply_reveal_prefund,
  prefund_commit, prefund_reveal_package,
}

within-le : (allowed spent : ℕ) (limit : Option ℕ) → within allowed spent limit ≤ allowed
within-le allowed spent none = omega arith
within-le allowed spent (some limit) = omega arith

within-limit :
    (allowed spent : ℕ) (limit : Option ℕ) (cap : ℕ)
    → limit ≡ some cap
    → spent ≤ cap
    → spent + within allowed spent limit ≤ cap
within-limit allowed spent none cap e h = cc
within-limit allowed spent (some limit) cap e h = ground arith

within_inputs-le :
    (unbounded : Bool) (build : Build) (allowed : ℕ)
    → within_inputs unbounded build allowed ≤ allowed
within_inputs-le unbounded build allowed = ground arith

within_inputs-funded :
    (unbounded : Bool) (build : Build) (allowed : ℕ)
    → unbounded ≡ false
    → build.output_satoshis + build.estimated_fee ≤ build.input_satoshis
    → build.output_satoshis + build.estimated_fee + within_inputs unbounded build allowed
      ≤ build.input_satoshis
within_inputs-funded unbounded build allowed e h = ground arith

-- The uplift for unconfirmed ancestors only raises the fee, by no more than is wanted and than the
-- operator's bound. A fee within the hard ceiling, or within the rate cap, stays within it, and on
-- a build that selects inputs a fee that the inputs cover stays covered.
uplift_ancestor_fee-bounded :
    (dust bound wanted : ℕ) (build : Build)
    → let fee = build.estimated_fee in
      let fee' = uplift_ancestor_fee dust bound wanted build in
      (fee ≤ fee')
      × (fee' ≤ fee + min wanted bound)
      × (fee ≤ hard_ceiling dust build → fee' ≤ hard_ceiling dust build)
      × ((cap : ℕ)
          → rate_ceiling dust (build.estimated_tx_size) (build.cap_rate) ≡ some cap
          → fee ≤ cap
          → fee' ≤ cap)
      × (build.p2sh_hash ≡ false
          → build.output_satoshis + fee ≤ build.input_satoshis
          → build.output_satoshis + fee' ≤ build.input_satoshis)
unfolding uplift_ancestor_fee
uplift_ancestor_fee-bounded dust bound wanted build =
    let fee = build.estimated_fee in
    let limit = rate_ceiling dust (build.estimated_tx_size) (build.cap_rate) in
    let capped = within (min wanted bound) fee limit in
    let allowed = within capped fee (some (hard_ceiling dust build)) in
    let c = within-le (min wanted bound) fee limit in
    let a = within-le capped fee (some (hard_ceiling dust build)) in
    let i = within_inputs-le (build.p2sh_hash) build allowed in
    (
      omega arith,
      omega (arith, c, a, i),
      (λ h. omega (arith, i, within-limit capped fee (some (hard_ceiling dust build)) _ refl h)),
      (λ cap e h. omega (arith, i, a, within-limit (min wanted bound) fee limit cap e h)),
      (λ e h. omega (arith, within_inputs-funded (build.p2sh_hash) build allowed e h)),
    )

-- What the steps between the checks and the change keep of a build's figures.
pub record IsSettling (dust : ℕ) (before after : Build) : Type 0 where
  pub same_inputs : after.input_satoshis ≡ before.input_satoshis
  pub same_change : after.change ≡ before.change
  pub same_kind : after.p2sh_hash ≡ before.p2sh_hash
  pub floored : dust + before.soft_dust_surcharge ≤ after.estimated_fee
  pub raised : before.estimated_fee ≤ after.estimated_fee
  pub grown : before.output_satoshis ≤ after.output_satoshis
  pub funded :
      before.p2sh_hash ≡ false
      → before.output_satoshis + max (before.estimated_fee) (dust + before.soft_dust_surcharge)
        ≤ before.input_satoshis
      → after.output_satoshis + after.estimated_fee ≤ after.input_satoshis

uplift_for_ancestors-fields :
    (dust bound : ℕ) (ancestors : Option AncestorPackage) (build : Build)
    → let after = uplift_for_ancestors dust bound ancestors build in
      (after.input_satoshis ≡ build.input_satoshis)
      × (after.output_satoshis ≡ build.output_satoshis)
      × (after.change ≡ build.change)
      × (after.p2sh_hash ≡ build.p2sh_hash)
      × (after.soft_dust_surcharge ≡ build.soft_dust_surcharge)
      × (build.estimated_fee ≤ after.estimated_fee)
      × (build.p2sh_hash ≡ false
          → build.output_satoshis + build.estimated_fee ≤ build.input_satoshis
          → build.output_satoshis + after.estimated_fee ≤ build.input_satoshis)
unfolding uplift_for_ancestors
uplift_for_ancestors-fields dust bound none build =
    (refl, refl, refl, refl, refl, omega arith, λ e h. h)
uplift_for_ancestors-fields dust bound (some ancestors) build =
    let wanted =
      package_fee_uplift_satoshis (build.estimated_fee) (build.estimated_tx_size) (ancestors.size)
        (ancestors.fees) (build.rate) in
    let (up, _, _, _, keep) = uplift_ancestor_fee-bounded dust bound wanted build in
    ground (arith, up, keep)

prefund_commit-fields :
    (bound : ℕ) (build : Build) (prefund : Option RevealPrefund)
    → let after = prefund_commit bound build prefund in
      (after.input_satoshis ≡ build.input_satoshis)
      × (after.change ≡ build.change)
      × (after.p2sh_hash ≡ build.p2sh_hash)
      × (after.estimated_fee ≡ build.estimated_fee)
      × (build.output_satoshis ≤ after.output_satoshis)
      × (build.output_satoshis + build.estimated_fee ≤ build.input_satoshis
          → after.output_satoshis + after.estimated_fee ≤ after.input_satoshis)
unfolding prefund_commit apply_reveal_prefund
prefund_commit-fields bound build none = (refl, refl, refl, refl, omega arith, λ h. h)
prefund_commit-fields bound build (some prefund) = ground arith

-- The build that `computeChange` is given.
unfoldable pub settled : ℕ → ℕ → Option AncestorPackage → Build → Build
settled dust bound ancestors build =
    prefund_reveal_package bound
      (floor_estimated_fee dust (uplift_for_ancestors dust bound ancestors build))

pub settled-IsSettling :
    (dust bound : ℕ) (ancestors : Option AncestorPackage) (build : Build)
    → IsSettling dust build (settled dust bound ancestors build)
unfolding settled prefund_reveal_package floor_estimated_fee
settled-IsSettling dust bound ancestors build =
    let lifted = uplift_for_ancestors dust bound ancestors build in
    let lifted' = floor_estimated_fee dust lifted in
    let (ui, uo, uc, uk, us, uf, ub) = uplift_for_ancestors-fields dust bound ancestors build in
    let (pi, pc, pk, pf, po, pb) = prefund_commit-fields bound lifted' (lifted'.reveal_prefund) in
    record {
      same_inputs = pi ∙ ui;
      same_change = pc ∙ uc;
      same_kind = pk ∙ uk;
      floored = ground (arith, pf, us);
      raised = ground (arith, pf, uf);
      grown = omega (arith, po, uo);
      funded = λ e h. pb (ground (arith, ub e (omega arith), uo, ui, us));
    }
