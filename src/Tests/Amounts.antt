-- ===== src/Tests/Amounts.antt =====
-- The amounts of src/common/validator on a DOGE output above 2^53-1 base units.
use xchain_encoder.Base.{
  ℕ, ◌≤◌, ◌<◌, ◌≡◌, refl, ◌⊎◌, Bool, true, false, some, [], ◌∷◌, replicate, All,
}
use xchain_encoder.Failures.{ok, throw, internal, param_range}
use xchain_encoder.Selection.State.{max_satoshi_u64}
use xchain_encoder.Amounts.Values.{
  max_safe_integer, Text, Number, plus, number, bigint, text, small, big, parse_satoshi_amount,
  narrow_u64, as_sat_value, verify_u64, to_string, json_safe_sat, raw_of,
}
use xchain_encoder.Amounts.RoundTrip.{json_safe_sat-read}
use xchain_encoder.Amounts.Digits.{IsSpelled}
use xchain_encoder.Amounts.Spelled.{parse_satoshi_amount-bounded}
use xchain_encoder.Amounts.Checks.{
  RawOutputs, listed, validate_fee, validate_outpoint, validate_custom_outputs,
}
use xchain_encoder.Amounts.Accepted.{IsPayable, payments_of, validate_custom_outputs-emits}
use xchain_encoder.Emission.Plan.{Emission}
use xchain_encoder.Emission.Payments.{init_emission_state, emit_payments}
use xchain_encoder.Tests.Emission.{plain, two_legs}

abbrev whale : ℕ
whale = 9007199254740993

json_safe_sat-read_example :
    (whale ≤ max_satoshi_u64
      → (parse_satoshi_amount true (json_safe_sat (big whale)) ≡ ok (narrow_u64 whale))
        × (parse_satoshi_amount true (text (to_string whale)) ≡ ok (narrow_u64 whale))
        × (parse_satoshi_amount true (raw_of (narrow_u64 whale)) ≡ ok (narrow_u64 whale))
        × (as_sat_value (big whale) ≡ narrow_u64 whale)
        × (verify_u64 (raw_of (narrow_u64 whale)) ≡ ok whale))
    × (max_satoshi_u64 < whale
        → (parse_satoshi_amount true (text (to_string whale)) ≡ throw param_range)
          × (verify_u64 (bigint false whale) ≡ throw internal))
json_safe_sat-read_example = json_safe_sat-read whale

-- " 0546 ", and "5e2".
padded_text : parse_satoshi_amount false (text (32 ∷ 48 ∷ 53 ∷ 52 ∷ 54 ∷ 32 ∷ [])) ≡ ok (small 546)
unfolding parse_satoshi_amount
padded_text = refl

scientific_text : parse_satoshi_amount true (text (53 ∷ 101 ∷ 50 ∷ [])) ≡ throw param_range
unfolding parse_satoshi_amount
scientific_text = refl

parse_satoshi_amount-bounded_example :
    ((text (32 ∷ 48 ∷ 53 ∷ 52 ∷ 54 ∷ 32 ∷ []) ≡ bigint false 546)
      ⊎ (text (32 ∷ 48 ∷ 53 ∷ 52 ∷ 54 ∷ 32 ∷ []) ≡ number (plus 546))
      ⊎ ((s : Text) × (text (32 ∷ 48 ∷ 53 ∷ 52 ∷ 54 ∷ 32 ∷ []) ≡ text s) × IsSpelled s 546))
    × (546 ≤ max_satoshi_u64)
    × (◌≡◌ {A = Bool} false false → 546 ≤ max_safe_integer)
    × (small 546 ≡ narrow_u64 546)
    × ((n : Number) → text (32 ∷ 48 ∷ 53 ∷ 52 ∷ 54 ∷ 32 ∷ []) ≡ number n → 546 ≤ max_safe_integer)
parse_satoshi_amount-bounded_example =
    parse_satoshi_amount-bounded false (text (32 ∷ 48 ∷ 53 ∷ 52 ∷ 54 ∷ 32 ∷ [])) (small 546)
      padded_text

abbrev asked : RawOutputs
asked = listed (some (record { address = some (49 ∷ []); amount = number (plus 5000) }) ∷ [])

asked_accepted : validate_custom_outputs 546 asked ≡ ok (some (small 5000 ∷ []))
unfolding validate_custom_outputs
asked_accepted = refl

validate_custom_outputs-emits_example :
    (1 ≤ 100)
    × All (IsPayable 546) (small 5000 ∷ [])
    × ((after : Emission) × (emit_payments plain two_legs
            (payments_of ((1 ∷ []) ∷ []) (small 5000 ∷ []))
            (init_emission_state two_legs 0)
          ≡ ok after))
validate_custom_outputs-emits_example =
    validate_custom_outputs-emits plain two_legs asked (small 5000 ∷ []) ((1 ∷ []) ∷ [])
      (init_emission_state two_legs 0) asked_accepted

fee_is_capped : validate_fee (some (number (plus 2100000000001))) ≡ throw param_range
unfolding validate_fee
fee_is_capped = refl

outpoint_is_lowered :
    validate_outpoint (some (replicate 64 65)) (number (plus 1)) ≡ ok (replicate 64 97, 1)
unfolding validate_outpoint
outpoint_is_lowered = refl
