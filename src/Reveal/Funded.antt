-- ===== src/Reveal/Funded.antt =====
-- The money of the two transactions of a chunked build: what the commit of
-- src/XChainEncoder/build_transaction/script_hash_legs.js sets aside is what the reveal of
-- reveal_outputs.js beside it pays, keeps and sweeps.
use xchain_encoder.Base.{
  ℕ, ◌+◌, ◌-◌, ◌≤◌, ◌<◌, max, ◌≡◌, refl, ◌∙◌, true, false, Option, none, some, List, [], ◌∷◌, map,
  arith, ◌==◌, if◌then◌else◌, length,
}
use xchain_encoder.Failures.{ok}
use xchain_encoder.Payload.Slices.{Bytes}
use xchain_encoder.Payload.Carriers.{Encoding, op_return, p2sh, p2wsh, multisign, taproot, auto}
use xchain_encoder.Sizes.Estimator.{estimate_output_size_for_address}
use xchain_encoder.Fees.Policy.{fee_for_vsize, soft_dust_surcharge_for}
use xchain_encoder.Emission.Plan.{Library, Payment, Plan, Emission, is_p2sh_family}
use xchain_encoder.Emission.Legs.{payments_size, whole_reveal_size, reveal_fee_needed}
use xchain_encoder.Emission.Payments.{
  reveal_payments_value, reveal_payments_size, reveal_payments_fee, emit_outputs,
}
use xchain_encoder.Emission.Covering.{IsUnpadded, emit_outputs-covers}
use xchain_encoder.Reveal.Matched.{IsTwoPhase}
use xchain_encoder.Reveal.Recovered.{family_lem}
use xchain_encoder.Reveal.Paid.{pay_total, payments_value-pay_total, payments_size-add}
use xchain_encoder.Reveal.Kept.{reveal_fee-covered}
use xchain_encoder.Reveal.Sweep.{is_empty, reveal_size_for_fee}

pub two_phase : (plan : Plan) (encoding : Encoding) → IsUnpadded plan encoding → IsTwoPhase encoding
two_phase plan p2sh h = tt
two_phase plan p2wsh h = tt
two_phase plan op_return h = absurd h
two_phase plan multisign h = absurd h
two_phase plan taproot h = absurd h
two_phase plan auto h = absurd h

size_pos : (script : Option (Option Bytes)) → 8 ≤ estimate_output_size_for_address script
unfolding estimate_output_size_for_address
size_pos none = omega arith
size_pos (some none) = omega arith
size_pos (some (some script)) = omega arith

eq_zero_lem : (n m : ℕ) → n ≡ m + 8 → (n == 0) ≡ false
eq_zero_lem n m h = ground arith

-- The payments take no bytes exactly when there are none.
empty_lem : (ps : List Payment) → (payments_size 0 ps == 0) ≡ is_empty ps
unfolding payments_size
empty_lem [] = refl
empty_lem (p ∷ ps) =
    let one = estimate_output_size_for_address (some (p.script)) in
    eq_zero_lem (payments_size (0 + one) ps) (payments_size 0 ps + (one - 8))
      (omega (arith, payments_size-add (0 + one) ps, size_pos (some (p.script))))

-- What the reveal owes: the larger of its size's fee and the dust threshold, and the surcharge.
abbrev pub fee_owed : Plan → ℕ
fee_owed plan =
    max (fee_for_vsize (reveal_size_for_fee plan) (plan.rate)) (plan.dust_amount)
    + soft_dust_surcharge_for (map (λ p. p.value) (plan.custom_outputs)) (plan.soft_dust_floor)

fees_lem :
    (ps : List Payment) (rate floor : ℕ)
    → let surcharge = soft_dust_surcharge_for (map (λ p. p.value) ps) floor in
      fee_for_vsize (payments_size 0 ps) rate + surcharge
      ≤ (if payments_size 0 ps == 0 then 0 else fee_for_vsize (payments_size 0 ps) rate + surcharge)
unfolding fee_for_vsize payments_size soft_dust_surcharge_for
fees_lem [] rate floor = omega arith
fees_lem (p ∷ ps) rate floor = rw (empty_lem (p ∷ ps)) (omega arith)

reveal_payments_fee-ge :
    (plan : Plan)
    → is_p2sh_family (plan.encoding) ≡ true
    → fee_for_vsize (payments_size 0 (plan.custom_outputs)) (plan.rate)
        + soft_dust_surcharge_for (map (λ p. p.value) (plan.custom_outputs)) (plan.soft_dust_floor)
      ≤ reveal_payments_fee plan
unfolding reveal_payments_fee reveal_payments_size
reveal_payments_fee-ge plan two =
    rw two (fees_lem (plan.custom_outputs) (plan.rate) (plan.soft_dust_floor))

reserve_lem :
    (plan : Plan)
    → is_p2sh_family (plan.encoding) ≡ true
    → (if reveal_payments_size plan == 0 then plan.output_floor else 0)
      ≡ (if is_empty (plan.custom_outputs) then plan.output_floor else 0)
unfolding reveal_payments_size
reserve_lem plan two = rw (two, empty_lem (plan.custom_outputs)) refl

needed_lem :
    (plan : Plan)
    → reveal_fee_needed plan (plan.encoding)
      ≡ max (fee_for_vsize (whole_reveal_size plan (plan.encoding)) (plan.rate)) (plan.dust_amount)
unfolding reveal_fee_needed
needed_lem plan = refl

paid_lem :
    (plan : Plan) (paid : ℕ)
    → is_p2sh_family (plan.encoding) ≡ true
    → reveal_payments_value plan ≡ ok paid
    → paid ≡ pay_total (plan.custom_outputs)
unfolding reveal_payments_value
paid_lem plan paid two h =
    payments_value-pay_total 0 (plan.custom_outputs) paid (rw two at h) ∙ omega arith

cons_lem : (cs : List Bytes) → 0 < length cs → (c : Bytes) × (rest : List Bytes) × (cs ≡ c ∷ rest)
cons_lem [] h = absurd (omega arith)
cons_lem (c ∷ cs) h = (c, cs, refl)

-- The legs of a commit hold the payments, the fee that the reveal owes, and the sweep's reserve.
pub commit-holds :
    (library : Library) (plan : Plan) (e : Emission)
    → 0 < length (plan.chunks)
    → IsUnpadded plan (plan.encoding)
    → emit_outputs library plan ≡ ok e
    → pay_total (plan.custom_outputs)
        + fee_owed plan
        + (if is_empty (plan.custom_outputs) then plan.output_floor else 0)
      ≤ e.output_satoshis
commit-holds library plan e some' leg h =
    let (chunk, chunks, split) = cons_lem (plan.chunks) some' in
    let (paid, p, sum, _) = emit_outputs-covers library plan chunk chunks e split leg h in
    let two = family_lem library plan (plan.encoding) (two_phase plan (plan.encoding) leg) in
    omega (
      arith,
      paid_lem plan paid two p,
      sum,
      reserve_lem plan two,
      reveal_payments_fee-ge plan two,
      needed_lem plan,
      reveal_fee-covered plan,
    )
