-- ===== src/Amounts/RoundTrip.antt =====
-- An amount that src/XChainEncoder/script_amount_helpers.js reports is read back by
-- src/common/validator/value_checks.js, and what that parser accepts.
use xchain_encoder.Base.{
  ℕ, zero, suc, ◌+◌, ◌/◌, ◌%◌, ◌≤◌, ◌<◌, ◌≡◌, refl, ap, ◌∙◌, inl, inr, true, false, some, [], ◌∷◌,
  arith, ltb, leb, ◌==◌, if◌then◌else◌, Bool-cases,
}
use xchain_encoder.Failures.{ok, throw, internal, param_range}
use xchain_encoder.Selection.State.{max_satoshi_u64}
use xchain_encoder.Amounts.Values.{
  max_safe_integer, Text, plus, bigint, text, big, is_space, is_digit, trim_start, trim_end,
  all_digits, read_digits, read_decimal, to_exact_int, parse_number, parse_satoshi_amount,
  narrow_u64, as_sat_value, verify_u64, digits, to_string, json_safe_sat, raw_of,
}

digit_lem : (n : ℕ) → n < 10 → is_digit (48 + n) ≡ true
digit_lem n h = ground arith

space_lem : (c : ℕ) → is_digit c ≡ true → (is_space c ≡ false) × ((c == 45) ≡ false)
space_lem c h = (ground arith, ground arith)

digits-all_digits :
    (fuel n : ℕ) (acc : Text) → all_digits acc ≡ true → all_digits (digits fuel n acc) ≡ true
unfolding digits all_digits
digits-all_digits zero n acc h = h
digits-all_digits (suc fuel) n acc h = elim (Bool-cases (ltb n 10)) [
  | inl e ↦ rw e (ground (arith, digit_lem n))
  | inr e ↦
      rw e
        (digits-all_digits fuel (n / 10) ((48 + n % 10) ∷ acc) (ground (arith, digit_lem (n % 10))))
]

digits-read :
    (fuel n : ℕ) (acc : Text) → n < fuel → read_digits 0 (digits fuel n acc) ≡ read_digits n acc
unfolding digits read_digits
digits-read zero n acc h = absurd (omega arith)
digits-read (suc fuel) n acc h = elim (Bool-cases (ltb n 10)) [
  | inl e ↦ rw e (ap (λ t. read_digits t acc) (omega arith))
  | inr e ↦
      let small' : n / 10 < fuel = ground (arith, e) in
      rw e (
        digits-read fuel (n / 10) ((48 + n % 10) ∷ acc) small'
        ∙ ap (λ t. read_digits t acc) (omega arith))
]

cons_digits :
    (fuel n : ℕ) (acc : Text) → n < fuel → (c : ℕ) × (cs : Text) × (digits fuel n acc ≡ c ∷ cs)
unfolding digits
cons_digits zero n acc h = absurd (omega arith)
cons_digits (suc fuel) n acc h = elim (Bool-cases (ltb n 10)) [
  | inl e ↦ rw e (48 + n, acc, refl)
  | inr e ↦ rw e (cons_digits fuel (n / 10) ((48 + n % 10) ∷ acc) (ground (arith, e)))
]

trim_start_lem : (s : Text) → all_digits s ≡ true → trim_start s ≡ s
unfolding trim_start all_digits
trim_start_lem [] h = refl
trim_start_lem (c ∷ cs) h = rw ((space_lem c (ground arith)).0) refl

trim_end_lem : (s : Text) → all_digits s ≡ true → trim_end s ≡ s
unfolding trim_end all_digits
trim_end_lem [] h = refl
trim_end_lem (c ∷ cs) h = rw ((space_lem c (ground arith)).0, trim_end_lem cs (ground arith)) refl

read_decimal_lem :
    (s : Text)
    → all_digits s ≡ true
    → (c : ℕ) (cs : Text) → s ≡ c ∷ cs
    → read_decimal s ≡ some (plus (read_digits 0 s))
unfolding read_decimal all_digits
read_decimal_lem [] h c cs e = absurd (ground arith)
read_decimal_lem (d ∷ ds) h c cs e = rw ((space_lem d (ground arith)).1, h) refl

to_string-exact : (n : ℕ) → to_exact_int (text (to_string n)) ≡ some (plus n)
unfolding to_exact_int to_string
to_string-exact n =
    let s = digits (suc n) n [] in
    let all = digits-all_digits (suc n) n [] refl in
    let (c, cs, e) = cons_digits (suc n) n [] (omega arith) in
    rw (trim_start_lem s all, trim_end_lem s all)
      (read_decimal_lem s all c cs e
        ∙ ap (λ t. some (plus t)) (digits-read (suc n) n [] (omega arith)))

parse_number_text :
    (n : ℕ)
    → parse_number true (some (plus n))
      ≡ (if ltb max_satoshi_u64 n then throw param_range else ok (narrow_u64 n))
unfolding parse_number narrow_u64
parse_number_text n = ground arith

parse_text_lem :
    (n : ℕ) → parse_satoshi_amount true (text (to_string n)) ≡ parse_number true (some (plus n))
unfolding parse_satoshi_amount
parse_text_lem n = ap (parse_number true) (to_string-exact n)

-- An amount survives every way that the encoder hands it on. A value of at most 64 bits, reported as
-- JSON, printed as a decimal text, or kept as the Number or BigInt that it narrows to, is parsed back,
-- where the field allows large amounts, to exactly that narrowed amount, and the serializer's check
-- returns the value itself; a larger value is refused as a text and by that check.
pub json_safe_sat-read :
    (n : ℕ)
    → let a = narrow_u64 n in
      (n ≤ max_satoshi_u64
        → (parse_satoshi_amount true (json_safe_sat (big n)) ≡ ok a)
          × (parse_satoshi_amount true (text (to_string n)) ≡ ok a)
          × (parse_satoshi_amount true (raw_of a) ≡ ok a)
          × (as_sat_value (big n) ≡ a)
          × (verify_u64 (raw_of a) ≡ ok n))
      × (max_satoshi_u64 < n
          → (parse_satoshi_amount true (text (to_string n)) ≡ throw param_range)
            × (verify_u64 (bigint false n) ≡ throw internal))
unfolding json_safe_sat narrow_u64 as_sat_value verify_u64 parse_satoshi_amount
json_safe_sat-read n =
    let printed = parse_text_lem n ∙ parse_number_text n in
    (
      (λ fits. elim (Bool-cases (leb n max_safe_integer)) [
        | inl e ↦ (
          ground (arith, e),
          printed ∙ ground (arith, e),
          ground (arith, e),
          ground (arith, e),
          ground (arith, e),
        )
        | inr e ↦ (
          ground (arith, e, printed),
          printed ∙ ground (arith, e),
          ground (arith, e),
          ground (arith, e),
          ground (arith, e),
        )
      ]),
      (λ over. (ground (arith, printed), ground arith)),
    )
