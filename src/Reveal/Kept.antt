-- ===== src/Reveal/Kept.antt =====
-- What a reveal keeps as its fee, in src/XChainEncoder/build_transaction/reveal_outputs.js, against the
-- fee that the legs were sized for.
use xchain_encoder.Base.{
  ℕ, ◌+◌, ◌-◌, ◌*◌, ◌≤◌, min, max, ◌≡◌, ap, inl, inr, Bool, true, false, ◌&&◌, Option, none, some,
  List, arith, ltb, leb, if◌then◌else◌, Bool-cases, Option-cases, length,
}
use xchain_encoder.Failures.{ok}
use xchain_encoder.Payload.Slices.{Bytes}
use xchain_encoder.Sizes.Estimator.{estimate_op_return_output, floored}
use xchain_encoder.Sizes.Reveals.{p2wsh_marker, estimate_p2wsh_reveal_tx}
use xchain_encoder.Fees.Policy.{fee_for_vsize, package_fee_uplift_satoshis}
use xchain_encoder.Fees.Settlement.{
  Build, settle_fees, uplift_for_ancestors, floor_estimated_fee, prefund_reveal_package,
  prefund_commit, compute_change,
}
use xchain_encoder.Fees.Balance.{settled}
use xchain_encoder.Fees.Change.{settle_fees-checks}
use xchain_encoder.Emission.Plan.{Plan}
use xchain_encoder.Emission.Legs.{is_p2sh, whole_reveal_size, payments_size}
use xchain_encoder.Reveal.Paid.{payments_size-add}
use xchain_encoder.Reveal.Sweep.{
  Terms, is_empty, reveal_size_for_fee, clamp_reveal_uplift, uplift_reveal_for_commit,
}

fee_for_vsize-add :
    (a b rate : ℕ) → fee_for_vsize (a + b) rate ≤ fee_for_vsize a rate + fee_for_vsize b rate
unfolding fee_for_vsize
fee_for_vsize-add a b rate =
    let e : (a + b) * rate ≡ a * rate + b * rate = grind arith in omega (arith, e)

fee_for_vsize_mono : (a b rate : ℕ) → a ≤ b → fee_for_vsize a rate ≤ fee_for_vsize b rate
unfolding fee_for_vsize
fee_for_vsize_mono a b rate h = let e : a * rate ≤ b * rate = grind arith in omega (arith, e)

floored-add : (n more : ℕ) (floor : Option ℕ) → floored (n + more) floor ≤ floored n floor + more
floored-add n more none = omega arith
floored-add n more (some floor) = ground arith

p2wsh_lem :
    (floor : Option ℕ) (chunks : List Bytes) (a b : ℕ)
    → estimate_p2wsh_reveal_tx floor chunks (a + b) ≤ estimate_p2wsh_reveal_tx floor chunks a + b
unfolding estimate_p2wsh_reveal_tx
p2wsh_lem floor chunks a b =
    let n = 10 + (36 + 1 + 4) * length chunks + estimate_op_return_output p2wsh_marker in
    let same : n + (a + b) ≡ n + a + b = omega arith in
    omega (arith, ap (λ t. floored t floor) same, floored-add (n + a) b floor)

pub reveal_fee-covered :
    (plan : Plan)
    → fee_for_vsize (reveal_size_for_fee plan) (plan.rate)
      ≤ fee_for_vsize (whole_reveal_size plan (plan.encoding)) (plan.rate)
        + fee_for_vsize (payments_size 0 (plan.custom_outputs)) (plan.rate)
unfolding reveal_size_for_fee whole_reveal_size
reveal_fee-covered plan =
    let paid = payments_size 0 (plan.custom_outputs) in
    let bytes = payments_size-add 43 (plan.custom_outputs) in
    let fits : reveal_size_for_fee plan ≤ whole_reveal_size plan (plan.encoding) + paid =
      elim (Bool-cases (is_p2sh (plan.encoding))) [
        | inl e ↦ rw (e, bytes) (omega arith)
        | inr e ↦
            rw (e, bytes) (p2wsh_lem (plan.min_standard_tx_non_witness_size) (plan.chunks) 43 paid)
      ] in
    omega (
      arith,
      fee_for_vsize_mono _ _ (plan.rate) fits,
      fee_for_vsize-add (whole_reveal_size plan (plan.encoding)) paid (plan.rate),
    )

-- What may stand for a fee: it is no lower, within the bound, and leaves the reserve.
abbrev IsWithin : ℕ → ℕ → ℕ → ℕ → ℕ → ℕ → Type 0
IsWithin legs output_satoshis bound reserve kept kept' =
    (kept ≤ kept')
    × (kept' ≤ kept + bound)
    × (output_satoshis + kept + reserve ≤ legs → output_satoshis + kept' + reserve ≤ legs)

clamp_reveal_uplift-IsWithin :
    (plan : Plan) (legs output_satoshis bound wanted kept : ℕ)
    → IsWithin legs output_satoshis bound
        (if is_empty (plan.custom_outputs) then plan.output_floor else 0)
        kept
        (clamp_reveal_uplift plan legs output_satoshis bound wanted kept)
unfolding clamp_reveal_uplift
clamp_reveal_uplift-IsWithin plan legs output_satoshis bound wanted kept =
    let reserve = if is_empty (plan.custom_outputs) then plan.output_floor else 0 in
    let spoken_for = output_satoshis + kept + reserve in
    elim (Bool-cases (leb legs spoken_for)) [
      | inl e ↦ rw e (omega arith, omega arith, λ h. h)
      | inr e ↦ elim (Bool-cases (ltb (legs - spoken_for) (min wanted bound))) [
        | inl f ↦ rw (e, f) (omega arith, ground (arith, f), λ h. omega arith)
        | inr f ↦ rw (e, f) (omega arith, omega arith, λ h. ground (arith, e, f))
      ]
    ]

gate_lem :
    (test : Bool) (legs output_satoshis bound reserve kept kept' : ℕ)
    → IsWithin legs output_satoshis bound reserve kept kept'
    → IsWithin legs output_satoshis bound reserve kept (if test then kept' else kept)
gate_lem true legs output_satoshis bound reserve kept kept' h = h
gate_lem false legs output_satoshis bound reserve kept kept' h = (omega arith, omega arith, λ g. g)

-- The uplift of a reveal only raises its fee, by no more than the operator's bound. If the legs hold
-- the outputs, the fee and the floor of a sweep where the reveal pays nothing else, they still do
-- with the uplift: it never takes the sweep's reserve.
pub uplift_reveal_for_commit-bounded :
    (plan : Plan) (legs output_satoshis kept : ℕ) (terms : Terms)
    → let kept' = uplift_reveal_for_commit plan legs output_satoshis terms kept in
      let reserve = if is_empty (plan.custom_outputs) then plan.output_floor else 0 in
      (kept ≤ kept')
      × (kept' ≤ kept + terms.max_cpfp_uplift_sat)
      × (output_satoshis + kept + reserve ≤ legs → output_satoshis + kept' + reserve ≤ legs)
unfolding uplift_reveal_for_commit
uplift_reveal_for_commit-bounded plan legs output_satoshis kept terms =
    elim (Option-cases (terms.commit_package)) [
      | inl e ↦ rw e (omega arith, omega arith, λ h. h)
      | inr (commit, e) ↦
          let wanted =
            package_fee_uplift_satoshis kept (reveal_size_for_fee plan) (commit.size) (commit.fees)
              (plan.rate) in
          let bound = terms.max_cpfp_uplift_sat in
          rw e (
            gate_lem (ltb 0 bound && (ltb 0 (plan.rate) && ltb 0 wanted)) legs output_satoshis bound
              (if is_empty (plan.custom_outputs) then plan.output_floor else 0) kept _
              (clamp_reveal_uplift-IsWithin plan legs output_satoshis bound wanted kept))
    ]

pub settled_reveal_lem :
    (dust bound : ℕ) (build after : Build)
    → build.p2sh_hash ≡ true
    → build.reveal_prefund ≡ none
    → settle_fees dust bound none build ≡ ok after
    → (after.estimated_fee ≡ max (build.estimated_fee) (dust + build.soft_dust_surcharge))
      × (after.output_satoshis ≡ build.output_satoshis)
      × (after.soft_dust_surcharge ≡ build.soft_dust_surcharge)
unfolding settled uplift_for_ancestors floor_estimated_fee prefund_reveal_package prefund_commit
    compute_change
settled_reveal_lem dust bound build after hash none' h =
    let (_, _, c) = settle_fees-checks dust bound none build after h in
    ground (arith, none', hash, c)
