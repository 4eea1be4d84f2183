-- ===== src/Amounts/Checks.antt =====
-- The fee, dust, outpoint and payment checks of src/common/validator/fee_and_utxo_checks.js. `none` is a
-- value that is null, undefined or, for a fee or a dust, false.
use xchain_encoder.Base.{
  ℕ, ◌+◌, Bool, true, not, ◌&&◌, ◌||◌, Option, none, some, List, [], ◌∷◌, ltb, leb, ◌==◌,
  if◌then◌else◌, length,
}
use xchain_encoder.Failures.{Result, ok, throw, param_type, param_range, throw_if, ◌>>=◌, ◌>>◌}
use xchain_encoder.Amounts.Values.{
  Text, Number, plus, minus, Raw, Amount, value_of, to_exact_int, parse_satoshi_amount,
}

abbrev pub max_fee_satoshis : ℕ
max_fee_satoshis = 2100000000000

abbrev pub max_custom_outputs : ℕ
max_custom_outputs = 100

unfoldable pub capped_amount : Option Number → Result ℕ
capped_amount (some (plus n)) = if ltb max_fee_satoshis n then throw param_range else ok n
capped_amount (some (minus n)) = throw param_range
capped_amount _ = throw param_type

unfoldable pub validate_fee : Option Raw → Result (Option ℕ)
unfolding capped_amount to_exact_int
validate_fee none = ok none
validate_fee (some fee) = capped_amount (to_exact_int fee) >>= λ n. ok (some n)

unfoldable pub validate_dust : Option Raw → Result (Option ℕ)
unfolding capped_amount to_exact_int
validate_dust none = ok none
validate_dust (some dust) = capped_amount (to_exact_int dust) >>= λ n. ok (some n)

-- The amount of a fee quote: positive, and within the same cap.
unfoldable pub fee_quote_amount : Option Number → Result ℕ
fee_quote_amount (some (plus n)) =
    throw_if (n == 0) param_range >> throw_if (ltb max_fee_satoshis n) param_range >> ok n
fee_quote_amount _ = throw param_range

unfoldable pub is_hex : ℕ → Bool
is_hex c = (leb 48 c && leb c 57) || ((leb 65 c && leb c 70) || (leb 97 c && leb c 102))

unfoldable pub all_hex : Text → Bool
unfolding is_hex
all_hex [] = true
all_hex (c ∷ cs) = is_hex c && all_hex cs

unfoldable pub lower_hex : Text → Text
lower_hex [] = []
lower_hex (c ∷ cs) = (if leb 65 c && leb c 90 then c + 32 else c) ∷ lower_hex cs

unfoldable pub wire_index : Option Number → Result ℕ
wire_index (some (plus n)) = if ltb 0xffffffff n then throw param_type else ok n
wire_index _ = throw param_type

-- `none` is a txid that is no string.
unfoldable pub validate_outpoint : Option Text → Raw → Result (Text × ℕ)
unfolding all_hex lower_hex wire_index to_exact_int
validate_outpoint none vout = throw param_type
validate_outpoint (some txid) vout =
    throw_if (not ((length txid == 64) && all_hex txid)) param_type
    >> wire_index (to_exact_int vout)
    >>= λ index. ok (lower_hex txid, index)

-- A floor of 0 asks for nothing.
unfoldable pub assert_payment_over_dust : ℕ → ℕ → Result (Unit {0})
assert_payment_over_dust value floor = throw_if (ltb 0 floor && ltb value floor) param_range

-- `validateAddress`; `none` is what is no string.
unfoldable pub validate_address : Option Text → Result (Unit {0})
validate_address none = throw param_type
validate_address (some address) =
    throw_if ((length address == 0) || ltb 100 (length address)) param_type

-- `none` is what is no object.
pub record RawOutput : Type 0 where
  pub address : Option Text
  pub amount : Raw

unfoldable pub validate_custom_output : ℕ → Option RawOutput → Result Amount
unfolding validate_address parse_satoshi_amount assert_payment_over_dust
validate_custom_output floor none = throw param_type
validate_custom_output floor (some output) =
    validate_address (output.address) >> parse_satoshi_amount true (output.amount) >>= λ value.
    throw_if (value_of value == 0) param_range
    >> assert_payment_over_dust (value_of value) floor
    >> ok value

unfoldable pub validate_each : ℕ → List (Option RawOutput) → Result (List Amount)
unfolding validate_custom_output
validate_each floor [] = ok []
validate_each floor (o ∷ os) =
    validate_custom_output floor o >>= λ a. validate_each floor os >>= λ as'. ok (a ∷ as')

-- What stands in place of the outputs: null or undefined, something that is no array, or an array.
pub data RawOutputs : Type 0 where
  absent no_array : RawOutputs
  listed : List (Option RawOutput) → RawOutputs

-- The outputs stay the caller's; what is returned is their parsed amounts.
unfoldable pub validate_custom_outputs : ℕ → RawOutputs → Result (Option (List Amount))
unfolding validate_each
validate_custom_outputs floor absent = ok none
validate_custom_outputs floor no_array = throw param_type
validate_custom_outputs floor (listed outputs) =
    throw_if (ltb max_custom_outputs (length outputs)) param_range
    >> validate_each floor outputs
    >>= λ as'. ok (some as')
