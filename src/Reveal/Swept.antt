-- ===== src/Reveal/Swept.antt =====
-- The sweep of a reveal's surplus in src/XChainEncoder/build_transaction/reveal_outputs.js, and when the
-- floor pad stays away.
use xchain_encoder.Base.{
  ℕ, suc, ◌+◌, ◌-◌, ◌*◌, ◌≤◌, ◌<◌, ◌≡◌, refl, ap, inl, inr, true, false, none, some, List, [], ◌∷◌,
  ◌++◌, map, arith, ltb, leb, if◌then◌else◌, lt→ltb, leb→le, Bool-cases, Option-cases, length,
}
use xchain_encoder.Failures.{ok_inj, ok}
use xchain_encoder.Payload.Slices.{Bytes}
use xchain_encoder.Payload.Carriers.{Encoding, op_return, p2sh, p2wsh, multisign, taproot, auto}
use xchain_encoder.Sizes.Framing.{compact_size_len}
use xchain_encoder.Sizes.Reveals.{TxIn, TxOut, stripped_tx_size, stripped_outputs_loop}
use xchain_encoder.Fees.Settlement.{Build}
use xchain_encoder.Emission.Plan.{Plan}
use xchain_encoder.Emission.Legs.{payments_size, reveal_needs_floor_pad}
use xchain_encoder.Emission.Covering.{IsUnpadded}
use xchain_encoder.Emission.Accounting.{outputs_value, outputs_value-snoc}
use xchain_encoder.Reveal.Legs.{LegInput}
use xchain_encoder.Reveal.Sweep.{
  Terms, is_empty, under_floor, unsigned_tx, pay_home, emit_pad, sweeps_reveal_surplus,
  reveal_fee_kept, uplift_reveal_for_commit, sweep_p2sh_reveal,
}
use xchain_encoder.Reveal.Paid.{stripped_outputs_loop-add, payments_size-add}
use xchain_encoder.Reveal.Kept.{uplift_reveal_for_commit-bounded}

pay_home_lem :
    (plan : Plan) (value : ℕ) (outs after : List TxOut)
    → pay_home plan value outs ≡ ok after
    → (script : Bytes) × (after ≡ outs ++ record { value = value; script = script } ∷ [])
unfolding pay_home
pay_home_lem plan value outs after h = elim (Option-cases (plan.change)) [
  | inr (none, e) ↦ absurd (ground (arith, e, h))
  | inr (some script, e) ↦ (script, ground (arith, e, h))
  | inl e ↦ elim (Option-cases (plan.caller_address)) [
    | inl f ↦ absurd (ground (arith, e, f, h))
    | inr (script, f) ↦ (script, ground (arith, e, f, h))
  ]
]

pub unpadded-sweeps :
    (plan : Plan) (encoding : Encoding)
    → plan.encoding ≡ encoding
    → IsUnpadded plan encoding
    → sweeps_reveal_surplus plan ≡ true
unfolding sweeps_reveal_surplus
unpadded-sweeps plan p2sh e h = rw e refl
unpadded-sweeps plan p2wsh e h = rw (e, h) refl
unpadded-sweeps plan op_return e h = absurd h
unpadded-sweeps plan multisign e h = absurd h
unpadded-sweeps plan taproot e h = absurd h
unpadded-sweeps plan auto e h = absurd h

-- A sweep out of legs that hold the outputs, the fee and the reserve.
pub sweep_p2sh_reveal_lem :
    (plan : Plan) (terms : Terms) (build : Build) (legs : ℕ) (outs after : List TxOut)
    → sweeps_reveal_surplus plan ≡ true
    → 0 < legs
    → build.output_satoshis
        + reveal_fee_kept plan build
        + (if is_empty (plan.custom_outputs) then plan.output_floor else 0)
      ≤ legs
    → sweep_p2sh_reveal plan terms build legs outs ≡ ok after
    → (kept : ℕ) × (outputs_value after + build.output_satoshis + kept ≡ outputs_value outs + legs)
      × (reveal_fee_kept plan build ≤ kept)
      × (kept ≤ reveal_fee_kept plan build + terms.max_cpfp_uplift_sat + plan.output_floor)
      × (is_empty (plan.custom_outputs) ≡ true
          → (home : TxOut) × (after ≡ outs ++ home ∷ []) × (plan.output_floor ≤ home.value))
unfolding sweep_p2sh_reveal
sweep_p2sh_reveal_lem plan terms build legs outs after sweeps pos held h =
    let fee = reveal_fee_kept plan build in
    let kept = uplift_reveal_for_commit plan legs (build.output_satoshis) terms fee in
    let (raised, bound, fits) =
      uplift_reveal_for_commit-bounded plan legs (build.output_satoshis) fee terms in
    let left = fits held in
    let live : ltb 0 legs ≡ true = lt→ltb 0 legs pos in
    let h' = rw (sweeps, live) at h in
    elim (Bool-cases (leb (build.output_satoshis + kept + plan.output_floor) legs)) [
      | inl e ↦
          let (script, same) =
            pay_home_lem plan (legs - (build.output_satoshis + kept)) outs after (rw e at h') in
          let home : TxOut = record {
            value = legs - (build.output_satoshis + kept);
            script = script;
          } in
          let room = leb→le (build.output_satoshis + kept + plan.output_floor) legs e in
          (
            kept,
            omega (arith, ap outputs_value same, outputs_value-snoc outs home, room),
            raised,
            omega (arith, bound),
            λ empty. (home, same, omega (arith, room)),
          )
      | inr e ↦
          let same : outs ≡ after = ok_inj (rw e at h') in
          let short : legs < build.output_satoshis + kept + plan.output_floor = ground (arith, e) in
          (
            legs - build.output_satoshis,
            omega (arith, ap outputs_value same, left),
            omega (arith, raised, left),
            omega (arith, bound, short),
            λ empty. absurd (
                let all : build.output_satoshis + kept + plan.output_floor ≤ legs =
                  rw empty at left in
                omega (arith, all, short)),
          )
    ]

compact_size_len-pos : (n : ℕ) → 1 ≤ compact_size_len n
unfolding compact_size_len
compact_size_len-pos n = ground arith

abbrev ins : List LegInput → List TxIn
ins inputs = map (λ l. record { hash = l.hash; vout = l.vout; sequence = l.sequence }) inputs

length-ins : (inputs : List LegInput) → length (ins inputs) ≡ length inputs
length-ins [] = refl
length-ins (i ∷ is) = ap suc (length-ins is)

stripped_tx_size-ge :
    (inputs : List LegInput) (outs : List TxOut)
    → 10 + 41 * length inputs + stripped_outputs_loop 0 outs
      ≤ stripped_tx_size (unsigned_tx inputs outs)
unfolding stripped_tx_size
stripped_tx_size-ge inputs outs = omega (
  arith,
  length-ins inputs,
  compact_size_len-pos (length (ins inputs)),
  compact_size_len-pos (length outs),
  stripped_outputs_loop-add
      (8
        + compact_size_len (length (ins inputs))
        + 41 * length (ins inputs)
        + compact_size_len (length outs))
      outs,
)

clear_lem :
    (plan : Plan) (size : ℕ)
    → reveal_needs_floor_pad plan ≡ false
    → payments_size (30 + 41 * length (plan.chunks)) (plan.custom_outputs) ≤ size
    → under_floor (plan.min_standard_tx_non_witness_size) size ≡ false
unfolding reveal_needs_floor_pad
clear_lem plan size h le = elim (Option-cases (plan.min_standard_tx_non_witness_size)) [
  | inl e ↦ rw e refl
  | inr (floor, e) ↦
      let bytes = payments_size (30 + 41 * length (plan.chunks)) (plan.custom_outputs) in
      let small : ltb bytes floor ≡ false = ground (arith, e, h) in rw e (ground (arith, small))
]

-- A reveal that needs no pad by the legs' estimate gets none by its real size.
pub emit_pad_lem :
    (plan : Plan) (encoding : Encoding) (inputs : List LegInput) (outs : List TxOut)
    → plan.encoding ≡ encoding
    → IsUnpadded plan encoding
    → length inputs ≡ length (plan.chunks)
    → (encoding ≡ p2wsh → 20 + payments_size 0 (plan.custom_outputs) ≤ stripped_outputs_loop 0 outs)
    → emit_pad plan inputs outs ≡ ok outs
unfolding emit_pad
emit_pad_lem plan p2sh inputs outs e h many bytes = rw e refl
emit_pad_lem plan p2wsh inputs outs e h many bytes =
    let clear = clear_lem plan (stripped_tx_size (unsigned_tx inputs outs)) h (
      omega (
        arith,
        bytes refl,
        many,
        stripped_tx_size-ge inputs outs,
        payments_size-add (30 + 41 * length (plan.chunks)) (plan.custom_outputs),
      )) in
    rw (e, clear) refl
emit_pad_lem plan op_return inputs outs e h many bytes = absurd h
emit_pad_lem plan multisign inputs outs e h many bytes = absurd h
emit_pad_lem plan taproot inputs outs e h many bytes = absurd h
emit_pad_lem plan auto inputs outs e h many bytes = absurd h
