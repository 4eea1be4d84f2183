-- ===== src/Fees/Settlement.antt =====
-- The steps of src/XChainEncoder/build_transaction/fee_settlement.js in the order in which
-- `buildTransaction` of src/XChainEncoder.js runs them. Rates are base units per kilobyte, as in
-- Fees/Policy; amounts are base units. `fee - surcharge` is compared as `fee` with a limit plus the
-- surcharge. The ancestor package is what the node's connector answered, or `none`.
use xchain_encoder.Base.{
  ℕ, ◌+◌, ◌-◌, ◌*◌, min, max, Bool, false, not, ◌&&◌, ◌||◌, Option, none, some, ltb, leb, ◌==◌,
  if◌then◌else◌,
}
use xchain_encoder.Failures.{
  Result, ok, throw, param_range, internal, operational, insufficient_funds,
  change_address_required, ◌>>◌, throw_if,
}
use xchain_encoder.Fees.Policy.{
  burn_backstop_multiplier, fee_for_vsize, package_fee_uplift_satoshis,
}

-- The amounts of `envelopeContext`: the value of the commit output, and the fee of the reveal, that
-- the envelope's reveal is built with.
pub record EnvelopeMoney : Type 0 where
  pub commit_value : ℕ
  pub reveal_fee : ℕ

-- `revealPrefund`, with the value that the psbt's output has which it points to, and the amounts of
-- `envelopeContext` where the build has one.
pub record RevealPrefund : Type 0 where
  pub reveal_fee : ℕ
  pub reveal_size : ℕ
  pub commit_value : ℕ
  pub envelope : Option EnvelopeMoney

-- `change` is whether a change address was given; `fee` and `caller_rate` whether the caller gave
-- a fee or a rate.
pub record Build : Type 0 where
  pub fee : Bool
  pub caller_rate : Bool
  pub p2sh_hash : Bool
  pub change : Bool
  pub cap_rate : Option ℕ
  pub node_rate : Option ℕ
  pub rate : ℕ
  pub relay_rate : ℕ
  pub estimated_tx_size : ℕ
  pub estimated_fee : ℕ
  pub soft_dust_surcharge : ℕ
  pub input_satoshis : ℕ
  pub output_satoshis : ℕ
  pub commit_ancestor_size : ℕ
  pub commit_ancestor_fee : ℕ
  pub reveal_prefund : Option RevealPrefund
  pub change_satoshis : ℕ

pub record AncestorPackage : Type 0 where
  pub size : ℕ
  pub fees : ℕ

-- `max(dustAmount, ceil(size * rate))`, absent where the rate is.
abbrev pub rate_ceiling : ℕ → ℕ → Option ℕ → Option ℕ
rate_ceiling dust size none = none
rate_ceiling dust size (some rate) = some (max dust (fee_for_vsize size rate))

-- The node's rate, or the build's own as a last resort.
abbrev pub reference_rate : Build → ℕ
reference_rate build = elim (build.node_rate) [ none ↦ build.rate | some rate ↦ rate ]

abbrev pub hard_ceiling : ℕ → Build → ℕ
hard_ceiling dust build =
    max dust
      (fee_for_vsize (build.estimated_tx_size) (reference_rate build) * burn_backstop_multiplier)

abbrev pub over : ℕ → ℕ → Option ℕ → Bool
over fee surcharge none = false
over fee surcharge (some limit) = ltb (limit + surcharge) fee

unfoldable pub refuse_excessive_fee : ℕ → Build → Result (Unit {0})
refuse_excessive_fee dust build =
    let cap = rate_ceiling dust (build.estimated_tx_size) (build.cap_rate) in
    throw_if (build.fee && over (build.estimated_fee) (build.soft_dust_surcharge) cap) param_range
    >> throw_if
        (build.fee
          && ltb (hard_ceiling dust build + build.soft_dust_surcharge) (build.estimated_fee))
        param_range

-- Whether the supplied fee reaches the relay minimum.
unfoldable pub reaches_relay_minimum : ℕ → Build → Bool
reaches_relay_minimum dust build =
    let minimum = fee_for_vsize (build.estimated_tx_size) (build.relay_rate) in
    let is_node_path = not (build.fee) && not (build.caller_rate) in
    let rate_fee_reaches =
      (if not (build.fee) && build.p2sh_hash
        then leb minimum (fee_for_vsize (build.estimated_tx_size) (build.rate))
        else leb (minimum + build.soft_dust_surcharge) (build.estimated_fee)) in
    rate_fee_reaches || (is_node_path && leb minimum dust)

unfoldable pub refuse_insufficient_relay_fee : ℕ → Build → Result (Unit {0})
unfolding reaches_relay_minimum
refuse_insufficient_relay_fee dust build =
    if reaches_relay_minimum dust build
    then ok tt
    else if not (build.fee) && not (build.caller_rate)
    then throw internal
    else throw param_range

-- `allowed = min(allowed, limit - spent)`: a limit already passed leaves nothing.
abbrev pub within : ℕ → ℕ → Option ℕ → ℕ
within allowed spent none = allowed
within allowed spent (some limit) = min allowed (limit - spent)

-- `headroom` of the inputs, which a reveal does not have.
abbrev pub within_inputs : Bool → Build → ℕ → ℕ
within_inputs unbounded build allowed =
    if unbounded
    then allowed
    else min allowed (build.input_satoshis - (build.output_satoshis + build.estimated_fee))

unfoldable pub uplift_ancestor_fee : ℕ → ℕ → ℕ → Build → ℕ
uplift_ancestor_fee dust bound wanted build =
    let cap = rate_ceiling dust (build.estimated_tx_size) (build.cap_rate) in
    let allowed = min wanted bound in
    let allowed = within allowed (build.estimated_fee) cap in
    let allowed = within allowed (build.estimated_fee) (some (hard_ceiling dust build)) in
    build.estimated_fee + within_inputs (build.p2sh_hash) build allowed

-- No package, or an empty one, leaves the ancestors at zero and the fee as it is.
unfoldable pub uplift_for_ancestors : ℕ → ℕ → Option AncestorPackage → Build → Build
unfolding uplift_ancestor_fee
uplift_for_ancestors dust bound none build = record build {
  commit_ancestor_size = 0;
  commit_ancestor_fee = 0;
}
uplift_for_ancestors dust bound (some ancestors) build =
    let wanted =
      package_fee_uplift_satoshis (build.estimated_fee) (build.estimated_tx_size) (ancestors.size)
        (ancestors.fees) (build.rate) in
    if (build.rate == 0) || ((bound == 0) || (ancestors.size == 0))
    then record build { commit_ancestor_size = 0; commit_ancestor_fee = 0 }
    else record build {
      commit_ancestor_size = ancestors.size;
      commit_ancestor_fee = ancestors.fees;
      estimated_fee =
          if ltb 0 wanted then uplift_ancestor_fee dust bound wanted build else build.estimated_fee;
    }

unfoldable pub floor_estimated_fee : ℕ → Build → Build
floor_estimated_fee dust build =
    let floor = dust + build.soft_dust_surcharge in
    record build {
      estimated_fee = if ltb (build.estimated_fee) floor then floor else build.estimated_fee;
    }

abbrev pub raised_money : ℕ → Option EnvelopeMoney → Option EnvelopeMoney
raised_money allowed none = none
raised_money allowed (some money) = some (record {
  commit_value = money.commit_value + allowed;
  reveal_fee = money.reveal_fee + allowed;
})

-- The psbt's output is raised by what is moved into it, and so are the amounts that go with it.
unfoldable pub apply_reveal_prefund : ℕ → ℕ → RevealPrefund → Build → Build
apply_reveal_prefund bound wanted prefund build =
    let allowed = within_inputs false build (min wanted bound) in
    record build {
      output_satoshis = build.output_satoshis + allowed;
      reveal_prefund = some (record prefund {
        reveal_fee = prefund.reveal_fee + allowed;
        commit_value = prefund.commit_value + allowed;
        envelope = raised_money allowed (prefund.envelope);
      });
    }

-- The prefund of the commit output, or of none.
unfoldable pub prefund_commit : ℕ → Build → Option RevealPrefund → Build
unfolding apply_reveal_prefund
prefund_commit bound build none = build
prefund_commit bound build (some prefund) =
    let wanted =
      package_fee_uplift_satoshis (prefund.reveal_fee) (prefund.reveal_size)
        (build.estimated_tx_size + build.commit_ancestor_size)
        (build.estimated_fee + build.commit_ancestor_fee) (build.rate) in
    if build.p2sh_hash || ((build.rate == 0) || ((bound == 0) || (wanted == 0)))
    then build
    else apply_reveal_prefund bound wanted prefund build

unfoldable pub prefund_reveal_package : ℕ → Build → Build
unfolding prefund_commit
prefund_reveal_package bound build = prefund_commit bound build (build.reveal_prefund)

-- A reveal's change may come out negative in the source, which emits a change output only where it
-- is positive; it is 0 here.
unfoldable pub compute_change : ℕ → Build → Result Build
compute_change dust build =
    let required = build.output_satoshis + build.estimated_fee in
    let change_satoshis = build.input_satoshis - required in
    throw_if (not (build.p2sh_hash) && ltb (build.input_satoshis) required)
      (operational insufficient_funds)
    >> throw_if (ltb dust change_satoshis && not (build.change))
        (operational change_address_required)
    >> ok (record build { change_satoshis = change_satoshis })

-- The run of `buildTransaction` from the relay check to the change.
unfoldable pub settle_fees : ℕ → ℕ → Option AncestorPackage → Build → Result Build
unfolding refuse_insufficient_relay_fee refuse_excessive_fee uplift_for_ancestors
    floor_estimated_fee prefund_reveal_package compute_change
settle_fees dust bound ancestors build =
    refuse_insufficient_relay_fee dust build
    >> refuse_excessive_fee dust build
    >> compute_change dust (
        prefund_reveal_package bound
          (floor_estimated_fee dust (uplift_for_ancestors dust bound ancestors build)))
