-- ===== src/Amounts/Values.antt =====
-- `toExactInt` and `parseSatoshiAmount` of src/common/validator/value_checks.js, `verifyU64` and `narrowU64` of
-- src/build/apply_bufferutils_patch/u64.js, and `asSatValue` and `jsonSafeSat` of
-- src/XChainEncoder/script_amount_helpers.js. A number that a text spells above 2^53-1 is kept exact
-- here, where the source has the nearest double: it is only compared with smaller limits.
use xchain_encoder.Base.{
  ℕ, zero, suc, ◌+◌, ◌-◌, ◌*◌, ◌/◌, ◌%◌, Bool, true, false, not, ◌&&◌, ◌||◌, Option, none, some,
  List, [], ◌∷◌, ltb, leb, ◌==◌, if◌then◌else◌,
}
use xchain_encoder.Failures.{Result, ok, throw, internal, param_range}
use xchain_encoder.Selection.State.{max_satoshi_u64}

abbrev pub max_safe_integer : ℕ
max_safe_integer = 0x1fffffffffffff

-- Characters by their codes.
abbrev pub Text : Type 0
Text = List ℕ

-- A JavaScript number: an integer, one with a fraction, or not a number or infinite. `minus n` is
-- -(n + 1).
pub data Number : Type 0 where
  plus minus : ℕ → Number
  fractional : Bool → Number
  infinite : Bool → Number
  nan : Number

-- A caller's value.
pub data Raw : Type 0 where
  number : Number → Raw
  bigint : Bool → ℕ → Raw
  text : Text → Raw
  other : Raw

-- What the money path carries: a Number or a BigInt.
pub data Amount : Type 0 where
  small big : ℕ → Amount

abbrev pub value_of : Amount → ℕ
value_of (small n) = n
value_of (big n) = n

-- The white space of `trim`.
abbrev pub is_space : ℕ → Bool
is_space c =
    (leb 9 c && leb c 13)
    || ((c == 32)
        || ((c == 160)
            || ((c == 0x1680)
                || ((leb 0x2000 c && leb c 0x200a)
                    || ((leb 0x2028 c && leb c 0x2029)
                        || ((c == 0x202f)
                            || ((c == 0x205f) || ((c == 0x3000) || (c == 0xfeff)))))))))

abbrev pub is_digit : ℕ → Bool
is_digit c = leb 48 c && leb c 57

unfoldable pub trim_start : Text → Text
trim_start [] = []
trim_start (c ∷ cs) = let rest = trim_start cs in if is_space c then rest else c ∷ cs

abbrev pub is_nil : Text → Bool
is_nil [] = true
is_nil (c ∷ cs) = false

unfoldable pub trim_end : Text → Text
trim_end [] = []
trim_end (c ∷ cs) = let rest = trim_end cs in if is_space c && is_nil rest then [] else c ∷ rest

unfoldable pub trim : Text → Text
unfolding trim_start trim_end
trim s = trim_end (trim_start s)

-- One or more digits, and nothing else.
unfoldable pub all_digits : Text → Bool
all_digits [] = true
all_digits (c ∷ cs) = is_digit c && all_digits cs

unfoldable pub read_digits : ℕ → Text → ℕ
read_digits n [] = n
read_digits n (c ∷ cs) = read_digits (n * 10 + (c - 48)) cs

-- The digits' number below zero; "-0" is no lower than 0.
abbrev pub negative : ℕ → Number
negative zero = plus 0
negative (suc n) = minus n

-- `/^-?\d+$/` and `Number`.
unfoldable pub read_decimal : Text → Option Number
unfolding all_digits read_digits
read_decimal [] = none
read_decimal (c ∷ cs) =
    if c == 45
    then if is_nil cs || not (all_digits cs) then none else some (negative (read_digits 0 cs))
    else if all_digits (c ∷ cs)
    then some (plus (read_digits 0 (c ∷ cs)))
    else none

-- `none` is NaN.
unfoldable pub to_exact_int : Raw → Option Number
unfolding trim read_decimal
to_exact_int (number (plus n)) = some (plus n)
to_exact_int (number (minus n)) = some (minus n)
to_exact_int (number (fractional below)) = none
to_exact_int (number (infinite below)) = none
to_exact_int (number nan) = none
to_exact_int (text s) = read_decimal (trim s)
to_exact_int (bigint below n) = none
to_exact_int other = none

abbrev pub is_text : Raw → Bool
is_text (text s) = true
is_text _ = false

-- Past the safe integers, only a text may be read as a BigInt, and only where the field allows it.
abbrev pub wide_amount : Bool → ℕ → Result Amount
wide_amount allowed n =
    if allowed
    then if ltb max_satoshi_u64 n then throw param_range else ok (big n)
    else throw param_range

unfoldable pub parse_bigint : Bool → Bool → ℕ → Result Amount
parse_bigint allow_big true n = throw param_range
parse_bigint allow_big false n =
    if leb n max_safe_integer then ok (small n) else wide_amount allow_big n

unfoldable pub parse_number : Bool → Option Number → Result Amount
parse_number allowed (some (plus n)) =
    if leb n max_safe_integer then ok (small n) else wide_amount allowed n
parse_number allowed _ = throw param_range

-- `bigint below n` has a sign of its own: -n with n above zero.
unfoldable pub parse_satoshi_amount : Bool → Raw → Result Amount
unfolding to_exact_int parse_bigint parse_number
parse_satoshi_amount allow_big (bigint below n) = parse_bigint allow_big below n
parse_satoshi_amount allow_big raw = parse_number (allow_big && is_text raw) (to_exact_int raw)

unfoldable pub narrow_u64 : ℕ → Amount
narrow_u64 n = if leb n max_safe_integer then small n else big n

-- A Number or a BigInt, bounds-checked before it is written as 64 bits.
unfoldable pub verify_u64 : Raw → Result ℕ
verify_u64 (number (plus n)) = if ltb max_safe_integer n then throw internal else ok n
verify_u64 (number (minus n)) = throw internal
verify_u64 (number (fractional below)) = throw internal
verify_u64 (number (infinite below)) = throw internal
verify_u64 (number nan) = throw internal
verify_u64 (bigint true n) = throw internal
verify_u64 (bigint false n) = if ltb max_satoshi_u64 n then throw internal else ok n
verify_u64 (text s) = throw internal
verify_u64 other = throw internal

-- A BigInt that a Number can hold becomes one.
unfoldable pub as_sat_value : Amount → Amount
as_sat_value (small n) = small n
as_sat_value (big n) = if leb n max_safe_integer then small n else big n

-- `toString`, on fuel that the number itself gives.
unfoldable pub digits : ℕ → ℕ → Text → Text
digits zero n acc = acc
digits (suc fuel) n acc =
    let rest = digits fuel (n / 10) ((48 + n % 10) ∷ acc) in
    if ltb n 10 then (48 + n) ∷ acc else rest

unfoldable pub to_string : ℕ → Text
unfolding digits
to_string n = digits (suc n) n []

unfoldable pub json_safe_sat : Amount → Raw
unfolding to_string
json_safe_sat (small n) = number (plus n)
json_safe_sat (big n) = if leb n max_safe_integer then number (plus n) else text (to_string n)

abbrev pub raw_of : Amount → Raw
raw_of (small n) = number (plus n)
raw_of (big n) = bigint false n
