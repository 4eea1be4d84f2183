-- ===== src/Amounts/Spelled.antt =====
-- What the parser of src/common/validator/value_checks.js accepts as an amount.
use xchain_encoder.Base.{
  ◌≤◌, ◌≡◌, refl, ◌⊎◌, inl, inr, Bool, true, false, ◌&&◌, Option, none, some, arith,
}
use xchain_encoder.Failures.{ok}
use xchain_encoder.Selection.State.{max_satoshi_u64}
use xchain_encoder.Amounts.Values.{
  max_safe_integer, Text, Number, plus, minus, fractional, infinite, nan, Raw, number, bigint, text,
  other, Amount, small, big, value_of, to_exact_int, is_text, parse_number, parse_satoshi_amount,
  narrow_u64,
}
use xchain_encoder.Amounts.Digits.{IsSpelled, text_lem, number_lem, other_lem}

-- What the parse of a number that is exact returns.
record IsParsed (allowed : Bool) (o : Option Number) (a : Amount) : Type 0 where
  spelled : o ≡ some (plus (value_of a))
  within : value_of a ≤ max_satoshi_u64
  safe : allowed ≡ false → value_of a ≤ max_safe_integer
  narrow : a ≡ narrow_u64 (value_of a)

parse_number-IsParsed :
    (allowed : Bool) (o : Option Number) (a : Amount)
    → parse_number allowed o ≡ ok a
    → IsParsed allowed o a
unfolding parse_number narrow_u64
parse_number-IsParsed allowed none a h = absurd (ground arith)
parse_number-IsParsed allowed (some (minus n)) a h = absurd (ground arith)
parse_number-IsParsed allowed (some (fractional below)) a h = absurd (ground arith)
parse_number-IsParsed allowed (some (infinite below)) a h = absurd (ground arith)
parse_number-IsParsed allowed (some nan) a h = absurd (ground arith)
parse_number-IsParsed allowed (some (plus n)) (small m) h = record {
  spelled = ground arith;
  within = ground arith;
  safe = λ e. ground arith;
  narrow = ground arith;
}
parse_number-IsParsed allowed (some (plus n)) (big m) h = record {
  spelled = ground arith;
  within = ground arith;
  safe = λ e. ground arith;
  narrow = ground arith;
}

-- Where the value is no BigInt.
settled_lem :
    (allow_big : Bool) (raw : Raw) (a : Amount)
    → parse_number (allow_big && is_text raw) (to_exact_int raw) ≡ ok a
    → (is_text raw ≡ false → value_of a ≤ max_safe_integer)
      × (to_exact_int raw ≡ some (plus (value_of a)))
      × (value_of a ≤ max_satoshi_u64)
      × (allow_big ≡ false → value_of a ≤ max_safe_integer)
      × (a ≡ narrow_u64 (value_of a))
settled_lem allow_big raw a h =
    let p = parse_number-IsParsed (allow_big && is_text raw) (to_exact_int raw) a h in
    (
      (λ e. p.safe (ground (arith, e))),
      p.spelled,
      p.within,
      (λ e. p.safe (ground (arith, e))),
      p.narrow,
    )

-- What is accepted as an amount is worth exactly what was given: a BigInt that is not negative, a
-- JavaScript number that is that integer, or a text that is its decimal digits, of any number, with
-- white space around them, or a minus sign before the digits of zero. It is at most 2^64-1, and at most
-- 2^53-1 where the field does not allow more; it is a Number exactly up to 2^53-1; and a JavaScript
-- number above that is never accepted, since it may have been rounded before.
pub parse_satoshi_amount-bounded :
    (allow_big : Bool) (raw : Raw) (a : Amount)
    → parse_satoshi_amount allow_big raw ≡ ok a
    → ((raw ≡ bigint false (value_of a))
        ⊎ (raw ≡ number (plus (value_of a)))
        ⊎ ((s : Text) × (raw ≡ text s) × IsSpelled s (value_of a)))
      × (value_of a ≤ max_satoshi_u64)
      × (allow_big ≡ false → value_of a ≤ max_safe_integer)
      × (a ≡ narrow_u64 (value_of a))
      × ((n : Number) → raw ≡ number n → value_of a ≤ max_safe_integer)
unfolding parse_satoshi_amount narrow_u64
parse_satoshi_amount-bounded allow_big (bigint true n) a h = absurd (ground arith)
parse_satoshi_amount-bounded allow_big (bigint false n) (small m) h =
    (inl (ground arith), ground arith, λ e. ground arith, ground arith, λ k e. ground arith)
parse_satoshi_amount-bounded allow_big (bigint false n) (big m) h = (
  inl (ground arith),
  ground arith,
  λ e. ground arith,
  ground arith,
  λ k e. absurd (ground arith),
)
parse_satoshi_amount-bounded allow_big (number k) a h =
    let (plain, spelled, within, safe, narrow) = settled_lem allow_big (number k) a h in
    (inr (inl (number_lem k (value_of a) spelled)), within, safe, narrow, λ n e. plain refl)
parse_satoshi_amount-bounded allow_big (text s) a h =
    let (plain, spelled, within, safe, narrow) = settled_lem allow_big (text s) a h in
    (
      inr (inr (s, refl, text_lem s (value_of a) spelled)),
      within,
      safe,
      narrow,
      λ n e. absurd (ground (arith, e)),
    )
parse_satoshi_amount-bounded allow_big other a h =
    let (plain, spelled, within, safe, narrow) = settled_lem allow_big other a h in
    absurd (other_lem (value_of a) spelled)
