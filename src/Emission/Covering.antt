-- ===== src/Emission/Covering.antt =====
-- What the legs of src/XChainEncoder/build_transaction/script_hash_legs.js leave the reveal to spend.
use xchain_encoder.Base.{
  ℕ, ◌+◌, ◌-◌, max, ◌≡◌, refl, sym, ap, ◌∙◌, subst, true, false, some, List, [], ◌∷◌, arith, ◌==◌,
  if◌then◌else◌, length,
}
use xchain_encoder.Failures.{ok}
use xchain_encoder.Payload.Slices.{Bytes}
use xchain_encoder.Payload.Carriers.{Encoding, op_return, p2sh, p2wsh, multisign, taproot, auto}
use xchain_encoder.Sizes.Estimator.{estimate_p2sh_output, estimate_p2wsh_output}
use xchain_encoder.Fees.Policy.{fee_for_vsize}
use xchain_encoder.Emission.Plan.{Library, Plan, Emission, is_p2sh_family, with_output}
use xchain_encoder.Emission.Legs.{
  chunk_size, base_legs_total, whole_reveal_size, reveal_fee_needed, top_up_first_leg,
  fold_payments, reveal_needs_floor_pad, pad_output_bytes, fund_p2sh_leg, fund_p2wsh_leg,
}
use xchain_encoder.Emission.Payments.{
  reveal_payments_size, reveal_payments_fee, reveal_payments_value, init_emission_state,
  emit_chunk_as, emit_data_outputs, emit_custom_outputs, emit_outputs,
}
use xchain_encoder.Emission.Accounting.{ok_lem, bind_lem}

-- The two-phase encodings whose reveal needs no pad output.
abbrev pub IsUnpadded : Plan → Encoding → Type 0
IsUnpadded plan p2sh = Unit
IsUnpadded plan p2wsh = reveal_needs_floor_pad plan ≡ false
IsUnpadded plan _ = ⊥

base_legs_total-sum :
    (plan : Plan) (encoding : Encoding) (sum : ℕ) (chunks : List Bytes)
    → base_legs_total plan encoding sum chunks ≡ sum + base_legs_total plan encoding 0 chunks
unfolding base_legs_total
base_legs_total-sum plan encoding sum [] = omega arith
base_legs_total-sum plan encoding sum (chunk ∷ chunks) =
    let share =
      max (fee_for_vsize (chunk_size plan encoding chunk) (plan.rate)) (plan.final_dust) in
    omega (
      arith,
      base_legs_total-sum plan encoding (sum + share) chunks,
      base_legs_total-sum plan encoding (0 + share) chunks,
    )

module _ (library : Library) (plan : Plan) where
  abbrev topped : Encoding → Bytes → Emission → ℕ × Emission
  topped encoding chunk e =
      top_up_first_leg plan encoding (reveal_payments_size plan == 0)
        (max (fee_for_vsize (chunk_size plan encoding chunk) (plan.rate)) (plan.final_dust)
          + e.reveal_custom_outputs_value
          + e.reveal_custom_outputs_fee)
        (fold_payments plan e)

  -- Either kind of leg is its topped-up share.
  leg_lem :
      (encoding : Encoding) (chunk : Bytes) (e : Emission)
      → IsUnpadded plan encoding
      → (script : Bytes) × (size : ℕ) × (emit_chunk_as library plan encoding chunk e
          ≡ ok (with_output script (topped encoding chunk e).0 size (topped encoding chunk e).1))
  unfolding emit_chunk_as fund_p2sh_leg fund_p2wsh_leg chunk_size pad_output_bytes
  leg_lem p2sh chunk e h = (library.p2sh_output chunk, estimate_p2sh_output, refl)
  leg_lem p2wsh chunk e h = (library.p2wsh_output chunk, estimate_p2wsh_output, rw h refl)
  leg_lem op_return chunk e h = absurd h
  leg_lem multisign chunk e h = absurd h
  leg_lem taproot chunk e h = absurd h
  leg_lem auto chunk e h = absurd h

  -- Emissions that have nothing left to fold or to top up.
  record IsLater (e next : Emission) (added : ℕ) : Type 0 where
    sum : next.output_satoshis ≡ e.output_satoshis + added
    funded : next.p2sh_reveal_headroom_funded ≡ true
    no_value : next.reveal_custom_outputs_value ≡ 0
    no_fee : next.reveal_custom_outputs_fee ≡ 0

  later_lem :
      (encoding : Encoding) (chunk script : Bytes) (size : ℕ) (e : Emission)
      → e.p2sh_reveal_headroom_funded ≡ true
      → e.reveal_custom_outputs_value ≡ 0
      → e.reveal_custom_outputs_fee ≡ 0
      → let next =
          with_output script (topped encoding chunk e).0 size (topped encoding chunk e).1 in
        IsLater e next
          (max (fee_for_vsize (chunk_size plan encoding chunk) (plan.rate)) (plan.final_dust))
        × (next.reveal_prefund ≡ e.reveal_prefund)
  unfolding top_up_first_leg
  later_lem encoding chunk script size e f v w = (
    record {
      sum = rw (f, v, w) (omega arith);
      funded = rw f refl;
      no_value = rw f refl;
      no_fee = rw f refl;
    },
    rw f refl,
  )

  first_lem :
      (encoding : Encoding) (chunk script : Bytes) (size : ℕ) (e : Emission)
      → e.p2sh_reveal_headroom_funded ≡ false
      → let next =
          with_output script (topped encoding chunk e).0 size (topped encoding chunk e).1 in
        let needed = reveal_fee_needed plan encoding in
        IsLater e next (
          max (fee_for_vsize (chunk_size plan encoding chunk) (plan.rate)) (plan.final_dust)
          + e.reveal_custom_outputs_value
          + e.reveal_custom_outputs_fee
          + (needed - base_legs_total plan encoding 0 (plan.chunks))
          + (if reveal_payments_size plan == 0 then plan.output_floor else 0))
        × (next.reveal_prefund
            ≡ some (record {
              output_index = length (e.outputs);
              reveal_size = whole_reveal_size plan encoding;
              reveal_fee = needed;
            }))
  unfolding top_up_first_leg
  first_lem encoding chunk script size e f = (
    record { sum = rw f refl; funded = rw f refl; no_value = rw f refl; no_fee = rw f refl },
    rw f refl,
  )

  family_lem : (encoding : Encoding) → IsUnpadded plan encoding → is_p2sh_family encoding ≡ true
  family_lem p2sh h = refl
  family_lem p2wsh h = refl
  family_lem op_return h = absurd h
  family_lem multisign h = absurd h
  family_lem taproot h = absurd h
  family_lem auto h = absurd h

  later_legs_lem :
      (chunks : List Bytes) (e after : Emission)
      → IsUnpadded plan (plan.encoding)
      → e.p2sh_reveal_headroom_funded ≡ true
      → e.reveal_custom_outputs_value ≡ 0
      → e.reveal_custom_outputs_fee ≡ 0
      → emit_data_outputs library plan chunks e ≡ ok after
      → (after.output_satoshis ≡ base_legs_total plan (plan.encoding) (e.output_satoshis) chunks)
        × (after.reveal_prefund ≡ e.reveal_prefund)
  unfolding emit_data_outputs base_legs_total
  later_legs_lem [] e after leg f v w h =
      (ap (λ x. x.output_satoshis) (sym (ok_lem h)), ap (λ x. x.reveal_prefund) (sym (ok_lem h)))
  later_legs_lem (chunk ∷ chunks) e after leg f v w h =
      let (next, g, k) = bind_lem (emit_chunk_as library plan (plan.encoding) chunk e) _ h in
      let (script, size, l) = leg_lem (plan.encoding) chunk e leg in
      let (r, prefund) =
        subst
          (λ x.
            IsLater e x (
              max (fee_for_vsize (chunk_size plan (plan.encoding) chunk) (plan.rate))
                (plan.final_dust))
            × (x.reveal_prefund ≡ e.reveal_prefund))
          (ok_lem (sym l ∙ g)) (later_lem (plan.encoding) chunk script size e f v w) in
      let (sum, same) = later_legs_lem chunks next after leg (r.funded) (r.no_value) (r.no_fee) k in
      (sum ∙ ap (λ n. base_legs_total plan (plan.encoding) n chunks) (r.sum), same ∙ prefund)

  -- Take a two-phase build of at least one chunk, P2SH or a P2WSH build whose reveal needs no pad
  -- output. Its legs together hold the larger of the chunks' own shares and the fee that the whole
  -- reveal needs, and on top of it the payments that the reveal makes, their fee, and the floor of a
  -- change output where it makes none. The first output is recorded as the one that holds the
  -- reveal's fee, with the whole reveal's size.
  pub emit_outputs-covers :
      (chunk : Bytes) (chunks : List Bytes) (e : Emission)
      → plan.chunks ≡ chunk ∷ chunks
      → IsUnpadded plan (plan.encoding)
      → emit_outputs library plan ≡ ok e
      → (paid : ℕ) × (reveal_payments_value plan ≡ ok paid)
        × (e.output_satoshis
            ≡ max
                (base_legs_total plan (plan.encoding) 0 (plan.chunks))
                (reveal_fee_needed plan (plan.encoding))
              + paid
              + reveal_payments_fee plan
              + (if reveal_payments_size plan == 0 then plan.output_floor else 0))
        × (e.reveal_prefund
            ≡ some (record {
              output_index = 0;
              reveal_size = whole_reveal_size plan (plan.encoding);
              reveal_fee = reveal_fee_needed plan (plan.encoding);
            }))
  unfolding emit_outputs init_emission_state emit_data_outputs base_legs_total
  emit_outputs-covers chunk chunks e split leg h =
      let (paid, p, g) = bind_lem (reveal_payments_value plan) _ h in
      let start = init_emission_state plan paid in
      let (emitted, d, c) = bind_lem (emit_data_outputs library plan (plan.chunks) start) _ g in
      let d' = subst (λ l. emit_data_outputs library plan l start ≡ ok emitted) split d in
      let (next, i, k) = bind_lem (emit_chunk_as library plan (plan.encoding) chunk start) _ d' in
      let (script, size, l) = leg_lem (plan.encoding) chunk start leg in
      let encoding = plan.encoding in
      let share =
        max (fee_for_vsize (chunk_size plan encoding chunk) (plan.rate)) (plan.final_dust) in
      let (r, prefund) =
        subst
          (λ x.
            IsLater start x (
              share
              + paid
              + reveal_payments_fee plan
              + (reveal_fee_needed plan encoding - base_legs_total plan encoding 0 (plan.chunks))
              + (if reveal_payments_size plan == 0 then plan.output_floor else 0))
            × (x.reveal_prefund
                ≡ some (record {
                  output_index = 0;
                  reveal_size = whole_reveal_size plan encoding;
                  reveal_fee = reveal_fee_needed plan encoding;
                })))
          (ok_lem (sym l ∙ i)) (first_lem encoding chunk script size start refl) in
      let (sum, kept) =
        later_legs_lem chunks next emitted leg (r.funded) (r.no_value) (r.no_fee) k in
      let base : base_legs_total plan encoding 0 (plan.chunks)
          ≡ base_legs_total plan encoding (0 + share) chunks =
        ap (base_legs_total plan encoding 0) split in
      let same : emitted ≡ e = ok_lem (rw (family_lem encoding leg, emit_custom_outputs) at c) in
      (
        paid,
        p,
        omega (
          arith,
          ap (λ x. x.output_satoshis) same,
          sum,
          r.sum,
          base,
          base_legs_total-sum plan encoding (0 + share) chunks,
          base_legs_total-sum plan encoding (next.output_satoshis) chunks,
        ),
        ap (λ x. x.reveal_prefund) (sym same) ∙ kept ∙ prefund,
      )
