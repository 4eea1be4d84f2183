-- ===== src/Amounts/Accepted.antt =====
-- What src/common/validator/fee_and_utxo_checks.js accepts, and that the emission of
-- src/XChainEncoder/build_transaction/data_outputs.js never refuses it.
use xchain_encoder.Base.{
  ℕ, suc, ◌≤◌, ◌<◌, ◌≡◌, refl, ap, subst, inl, inr, true, false, ◌&&◌, Option, none, some, List, [],
  ◌∷◌, arith, ltb, ◌==◌, Bool-cases, length, All,
}
use xchain_encoder.Failures.{ok, param_range, throw_if, bind_inv, ok_inj, ◌>>◌}
use xchain_encoder.Payload.Slices.{Bytes}
use xchain_encoder.Selection.State.{max_satoshi_u64}
use xchain_encoder.Amounts.Values.{Amount, value_of, parse_satoshi_amount}
use xchain_encoder.Amounts.Spelled.{parse_satoshi_amount-bounded}
use xchain_encoder.Amounts.Checks.{
  max_custom_outputs, RawOutput, validate_address, assert_payment_over_dust, validate_custom_output,
  RawOutputs, absent, no_array, listed, validate_each, validate_custom_outputs,
}
use xchain_encoder.Emission.Plan.{Library, Payment, Plan, Emission, with_output}
use xchain_encoder.Emission.Payments.{emit_payment, emit_payments}

-- The payments that the accepted outputs become, each with its address's script.
abbrev pub payments_of : List Bytes → List Amount → List Payment
payments_of (script ∷ scripts) (a ∷ as') =
    record { script = some script; value = value_of a; is_fee_quote = false }
    ∷ payments_of scripts as'
payments_of _ _ = []

-- What an accepted output is worth.
abbrev pub IsPayable : ℕ → Amount → Type 0
IsPayable floor a = (0 < value_of a) × (value_of a ≤ max_satoshi_u64) × (floor ≤ value_of a)

checked_lem :
    (floor : ℕ) (value a : Amount)
    → (throw_if (value_of value == 0) param_range
        >> assert_payment_over_dust (value_of value) floor
        >> ok value)
      ≡ ok a
    → (value ≡ a) × (0 < value_of value) × (floor ≤ value_of value)
unfolding assert_payment_over_dust
checked_lem floor value a h = elim (Bool-cases (value_of value == 0)) [
  | inl e ↦ absurd (ground (arith, e))
  | inr e ↦ elim (Bool-cases (ltb 0 floor && ltb (value_of value) floor)) [
    | inl f ↦ absurd (ground (arith, e, f))
    | inr f ↦ (ok_inj (rw (e, f) at h), ground (arith, e), ground (arith, f))
  ]
]

validate_custom_output-IsPayable :
    (floor : ℕ) (o : Option RawOutput) (a : Amount)
    → validate_custom_output floor o ≡ ok a
    → IsPayable floor a
unfolding validate_custom_output
validate_custom_output-IsPayable floor none a h = absurd (ground arith)
validate_custom_output-IsPayable floor (some output) a h =
    let (value, both, h2) =
      bind_inv (validate_address (output.address) >> parse_satoshi_amount true (output.amount)) _
        h in
    let (u, _, parsed) = bind_inv (validate_address (output.address)) _ both in
    let (same, pos, over) = checked_lem floor value a h2 in
    let (_, within, _, _, _) = parse_satoshi_amount-bounded true (output.amount) value parsed in
    subst (IsPayable floor) same (pos, within, over)

validate_each-IsPayable :
    (floor : ℕ) (os : List (Option RawOutput)) (as' : List Amount)
    → validate_each floor os ≡ ok as'
    → All (IsPayable floor) as' × (length as' ≡ length os)
unfolding validate_each
validate_each-IsPayable floor [] as' h =
    subst (λ l. All (IsPayable floor) l × (length l ≡ 0)) (ok_inj h) (tt, refl)
validate_each-IsPayable floor (o ∷ os) as' h =
    let (a, first, h1) = bind_inv (validate_custom_output floor o) _ h in
    let (rest, others, h2) = bind_inv (validate_each floor os) _ h1 in
    let (all, many) = validate_each-IsPayable floor os rest others in
    subst (λ l. All (IsPayable floor) l × (length l ≡ suc (length os))) (ok_inj h2)
      ((validate_custom_output-IsPayable floor o a first, all), ap suc many)

module _ (library : Library) (plan : Plan) where
  pays_lem :
      (script : Bytes) (a : Amount) (e : Emission)
      → IsPayable (plan.payment_output_floor) a
      → emit_payment library plan
          (record { script = some script; value = value_of a; is_fee_quote = false })
          e
        ≡ ok (with_output script (value_of a) 43 e)
  unfolding emit_payment
  pays_lem script a e (pos, within, over) =
      let n = value_of a in
      let fits : ltb max_satoshi_u64 n ≡ false = ground arith in
      let some' : (n == 0) ≡ false = ground arith in
      let clear : ltb n (plan.payment_output_floor) ≡ false = ground arith in
      rw (fits, some', clear) refl

  emits_lem :
      (scripts : List Bytes) (as' : List Amount) (e : Emission)
      → All (IsPayable (plan.payment_output_floor)) as'
      → (after : Emission) × (emit_payments library plan (payments_of scripts as') e ≡ ok after)
  unfolding emit_payments
  emits_lem [] as' e h = (e, refl)
  emits_lem (s ∷ ss) [] e h = (e, refl)
  emits_lem (s ∷ ss) (a ∷ as') e (h, hs) =
      let (after, done) = emits_lem ss as' (with_output s (value_of a) 43 e) hs in
      (after, rw (pays_lem s a e h) done)

  -- Payments that the boundary accepts are never refused where they are emitted: if the checks of a
  -- request accept its outputs by the coin's floor, they are at most a hundred, each accepted amount
  -- is above zero, at least that floor and at most 2^64-1, and the emission of the outputs with the
  -- scripts of their addresses, under the same floor, succeeds from every state.
  pub validate_custom_outputs-emits :
      (outputs : RawOutputs) (amounts : List Amount) (scripts : List Bytes) (e : Emission)
      → validate_custom_outputs (plan.payment_output_floor) outputs ≡ ok (some amounts)
      → (length amounts ≤ max_custom_outputs)
        × All (IsPayable (plan.payment_output_floor)) amounts
        × ((after : Emission) × (emit_payments library plan (payments_of scripts amounts) e
              ≡ ok after))
  unfolding validate_custom_outputs
  validate_custom_outputs-emits absent amounts scripts e h = absurd (ground arith)
  validate_custom_outputs-emits no_array amounts scripts e h = absurd (ground arith)
  validate_custom_outputs-emits (listed outputs) amounts scripts e h =
      let few' = throw_if (ltb max_custom_outputs (length outputs)) param_range in
      let (found, both, h1) =
        bind_inv (few' >> validate_each (plan.payment_output_floor) outputs) _ h in
      let (u, few, each) = bind_inv few' _ both in
      let same : found ≡ amounts = let e = ok_inj h1 in cc in
      let (all, many) = validate_each-IsPayable (plan.payment_output_floor) outputs found each in
      let bound : length outputs ≤ max_custom_outputs = ground (arith, few) in
      subst
        (λ as'.
          (length as' ≤ max_custom_outputs)
          × All (IsPayable (plan.payment_output_floor)) as'
          × ((after : Emission) × (emit_payments library plan (payments_of scripts as') e
                ≡ ok after)))
        same (omega (arith, many, bound), all, emits_lem scripts found e all)
