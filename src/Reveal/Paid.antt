-- ===== src/Reveal/Paid.antt =====
-- What the payments of a reveal add to it: src/XChainEncoder/build_transaction/data_outputs.js on the
-- reveal's own psbt, and the fee of fee_settlement.js beside it.
use xchain_encoder.Base.{
  ℕ, ◌+◌, ◌≤◌, ◌≡◌, refl, sym, ap, ◌∙◌, subst, inl, inr, some, List, [], ◌∷◌, ◌++◌, map,
  append_assoc, append-nil, arith, ltb, Bool-cases, Option-cases, length,
}
use xchain_encoder.Failures.{ok}
use xchain_encoder.Payload.Slices.{Bytes}
use xchain_encoder.Sizes.Framing.{compact_size_len}
use xchain_encoder.Sizes.Estimator.{estimate_output_size_for_address}
use xchain_encoder.Sizes.Reveals.{TxOut, stripped_outputs_loop}
use xchain_encoder.Selection.State.{max_satoshi_u64}
use xchain_encoder.Emission.Plan.{Library, Payment, Plan, Emission, with_output}
use xchain_encoder.Emission.Legs.{payments_size}
use xchain_encoder.Emission.Payments.{payments_value, emit_payment, emit_payments}
use xchain_encoder.Emission.Accounting.{outputs_value, outputs_value-snoc, ok_lem, bind_lem}

abbrev pub pay_total : List Payment → ℕ
pay_total [] = 0
pay_total (p ∷ ps) = p.value + pay_total ps

pub payments_value-pay_total :
    (v : ℕ) (ps : List Payment) (paid : ℕ) → payments_value v ps ≡ ok paid → paid ≡ v + pay_total ps
unfolding payments_value
payments_value-pay_total v [] paid h = ground arith
payments_value-pay_total v (p ∷ ps) paid h = elim (Bool-cases (ltb max_satoshi_u64 (p.value))) [
  | inl e ↦ absurd (ground (arith, e))
  | inr e ↦ omega (arith, payments_value-pay_total (v + p.value) ps paid (rw e at h))
]

pub payments_size-add : (n : ℕ) (ps : List Payment) → payments_size n ps ≡ n + payments_size 0 ps
unfolding payments_size
payments_size-add n [] = omega arith
payments_size-add n (p ∷ ps) =
    let s = estimate_output_size_for_address (some (p.script)) in
    omega (arith, payments_size-add (n + s) ps, payments_size-add (0 + s) ps)

pub stripped_outputs_loop-add :
    (n : ℕ) (os : List TxOut) → stripped_outputs_loop n os ≡ n + stripped_outputs_loop 0 os
unfolding stripped_outputs_loop
stripped_outputs_loop-add n [] = omega arith
stripped_outputs_loop-add n (o ∷ os) =
    let s = 8 + compact_size_len (length (o.script)) + length (o.script) in
    omega (
      arith,
      stripped_outputs_loop-add (n + 8 + compact_size_len (length (o.script)) + length (o.script))
          os,
      stripped_outputs_loop-add (0 + 8 + compact_size_len (length (o.script)) + length (o.script))
          os,
    )

stripped_outputs_loop-snoc :
    (n : ℕ) (os : List TxOut) (o : TxOut)
    → stripped_outputs_loop n (os ++ o ∷ [])
      ≡ stripped_outputs_loop n os + 8 + compact_size_len (length (o.script)) + length (o.script)
unfolding stripped_outputs_loop
stripped_outputs_loop-snoc n [] o = refl
stripped_outputs_loop-snoc n (p ∷ os) o =
    stripped_outputs_loop-snoc (n + 8 + compact_size_len (length (p.script)) + length (p.script)) os
      o

size_lem :
    (script : Bytes)
    → estimate_output_size_for_address (some (some script))
      ≤ 8 + compact_size_len (length script) + length script
unfolding estimate_output_size_for_address compact_size_len
size_lem script = ground arith

-- What the payments add to an emission.
pub record IsPaid (ps : List Payment) (e after : Emission) : Type 0 where
  pub sum : after.output_satoshis ≡ e.output_satoshis + pay_total ps
  pub value : outputs_value (after.outputs) ≡ outputs_value (e.outputs) + pay_total ps
  pub values :
      map (λ o. o.value) (after.outputs) ≡ map (λ o. o.value) (e.outputs) ++ map (λ p. p.value) ps
  pub bytes :
      stripped_outputs_loop 0 (e.outputs) + payments_size 0 ps
      ≤ stripped_outputs_loop 0 (after.outputs)

map-snoc :
    (os : List TxOut) (o : TxOut)
    → map (λ x. x.value) (os ++ o ∷ []) ≡ map (λ x. x.value) os ++ o.value ∷ []
map-snoc [] o = refl
map-snoc (p ∷ os) o = ap (λ l. p.value ∷ l) (map-snoc os o)

module _ (library : Library) (plan : Plan) where
  emit_payment_lem :
      (p : Payment) (e next : Emission)
      → emit_payment library plan p e ≡ ok next
      → (script : Bytes) × (p.script ≡ some script) × (next ≡ with_output script (p.value) 43 e)
  unfolding emit_payment
  emit_payment_lem p e next h = elim (Option-cases (p.script)) [
    | inl f ↦ absurd (ground (arith, f))
    | inr (script, f) ↦ (script, f, ground (arith, f))
  ]

  pub emit_payments-IsPaid :
      (ps : List Payment) (e after : Emission)
      → emit_payments library plan ps e ≡ ok after
      → IsPaid ps e after
  unfolding emit_payments payments_size
  emit_payments-IsPaid [] e after h = subst (IsPaid [] e) (ok_lem h) (record {
    sum = omega arith;
    value = omega arith;
    values = sym (append-nil _);
    bytes = omega arith;
  })
  emit_payments-IsPaid (p ∷ ps) e after h =
      let (next, f, g) = bind_lem (emit_payment library plan p e) _ h in
      let (script, given, same) = emit_payment_lem p e next f in
      let out : TxOut = record { value = p.value; script = script } in
      let rest = emit_payments-IsPaid ps next after g in
      let outs : next.outputs ≡ e.outputs ++ out ∷ [] = ap (λ x. x.outputs) same in
      record {
        sum = omega (arith, rest.sum, ap (λ x. x.output_satoshis) same);
        value =
            omega (arith, rest.value, ap outputs_value outs, outputs_value-snoc (e.outputs) out);
        values =
            rest.values
            ∙ ap (λ l. map (λ x. x.value) l ++ map (λ q. q.value) ps) outs
            ∙ ap (λ l. l ++ map (λ q. q.value) ps) (map-snoc (e.outputs) out)
            ∙ append_assoc (map (λ x. x.value) (e.outputs)) _ _;
        bytes = omega (
          arith,
          rest.bytes,
          ap (stripped_outputs_loop 0) outs,
          stripped_outputs_loop-snoc 0 (e.outputs) out,
          size_lem script,
          ap (λ s. estimate_output_size_for_address (some s)) given,
          payments_size-add (0 + estimate_output_size_for_address (some (p.script))) ps,
        );
      }
