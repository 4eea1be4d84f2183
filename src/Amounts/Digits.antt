-- ===== src/Amounts/Digits.antt =====
-- Texts that `toExactInt` of src/common/validator/value_checks.js reads, against the decimal digits of
-- numbers, written apart from it.
use xchain_encoder.Base.{
  ℕ, zero, suc, ◌+◌, ◌-◌, ◌*◌, ◌<◌, ◌≡◌, refl, sym, ap, ◌∙◌, subst, ◌⊎◌, inl, inr, true, false, not,
  ◌&&◌, ◌||◌, Option, some, [], ◌∷◌, ◌++◌, append_assoc, append-nil, arith, ◌==◌, Bool-cases, All,
}
use xchain_encoder.Amounts.Values.{
  Text, Number, plus, minus, fractional, infinite, nan, number, text, other, is_space, is_digit,
  is_nil, negative, trim, trim_start, trim_end, all_digits, read_digits, read_decimal, to_exact_int,
}

-- The decimal digits of a number, leading zeros allowed: one digit, or digits with another behind.
pub data Spells : Text → ℕ → Type 0 where
  one : (d : ℕ) → d < 10 → Spells ((48 + d) ∷ []) d
  more : (s : Text) (n d : ℕ) → Spells s n → d < 10 → Spells (s ++ (48 + d) ∷ []) (n * 10 + d)

-- White space, the digits, or a minus sign and the digits of zero, and white space.
pub record IsSpelled (s : Text) (n : ℕ) : Type 0 where
  pub before : Text
  pub digits : Text
  pub after : Text
  pub parts : s ≡ before ++ (digits ++ after)
  pub space_before : All (λ c. is_space c ≡ true) before
  pub space_after : All (λ c. is_space c ≡ true) after
  pub spells :
      Spells digits n ⊎ ((n ≡ 0) × ((zeros : Text) × (digits ≡ 45 ∷ zeros) × Spells zeros 0))

trim_start-parts :
    (s : Text)
    → (before : Text) × (s ≡ before ++ trim_start s) × All (λ c. is_space c ≡ true) before
unfolding trim_start
trim_start-parts [] = ([], refl, tt)
trim_start-parts (c ∷ cs) = elim (Bool-cases (is_space c)) [
  | inr e ↦ ([], rw e refl, tt)
  | inl e ↦
      let (before, parts, all) = trim_start-parts cs in
      (c ∷ before, rw e (ap (◌∷◌ c) parts), (e, all))
]

nil_lem : (s : Text) → is_nil s ≡ true → s ≡ []
nil_lem [] h = refl
nil_lem (c ∷ cs) h = absurd (ground arith)

trim_end-parts :
    (s : Text) → (after : Text) × (s ≡ trim_end s ++ after) × All (λ c. is_space c ≡ true) after
unfolding trim_end
trim_end-parts [] = ([], refl, tt)
trim_end-parts (c ∷ cs) =
    let (after, parts, all) = trim_end-parts cs in
    elim (Bool-cases (is_space c && is_nil (trim_end cs))) [
      | inr e ↦ (after, rw e (ap (◌∷◌ c) parts), all)
      | inl e ↦ (
        c ∷ after,
        rw e
            (ap (◌∷◌ c) (parts ∙ ap (λ t. t ++ after) (nil_lem (trim_end cs) (ground (arith, e))))),
        (ground (arith, e), all),
      )
    ]

-- A digit's value, and the digit that the value writes.
digit_of : (c : ℕ) → is_digit c ≡ true → (48 + (c - 48) ≡ c) × (c - 48 < 10)
digit_of c h = (ground arith, ground arith)

read_digits-Spells :
    (s : Text) (n : ℕ) (cs : Text)
    → Spells s n
    → all_digits cs ≡ true
    → Spells (s ++ cs) (read_digits n cs)
unfolding read_digits all_digits
read_digits-Spells s n [] spelled h = subst (λ t. Spells t n) (sym (append-nil s)) spelled
read_digits-Spells s n (c ∷ cs) spelled h =
    let (same, low) = digit_of c (ground arith) in
    let next : Spells (s ++ c ∷ []) (n * 10 + (c - 48)) =
      subst (λ d. Spells (s ++ d ∷ []) (n * 10 + (c - 48))) same (more s n (c - 48) spelled low) in
    subst (λ t. Spells t (read_digits (n * 10 + (c - 48)) cs)) (append_assoc s (c ∷ []) cs)
      (read_digits-Spells (s ++ c ∷ []) (n * 10 + (c - 48)) cs next (ground arith))

all_digits-Spells :
    (c : ℕ) (cs : Text) → all_digits (c ∷ cs) ≡ true → Spells (c ∷ cs) (read_digits 0 (c ∷ cs))
unfolding read_digits all_digits
all_digits-Spells c cs h =
    let (same, low) = digit_of c (ground arith) in
    let none' : c - 48 ≡ 0 + (c - 48) = omega arith in
    subst (λ k. Spells (c ∷ cs) (read_digits k cs)) none'
      (read_digits-Spells (c ∷ []) (c - 48) cs
        (subst (λ d. Spells (d ∷ []) (c - 48)) same (one (c - 48) low)) (ground arith))

plus_lem : {m n : ℕ} → ◌≡◌ {A = Option Number} (some (plus m)) (some (plus n)) → m ≡ n
plus_lem h = cc

negative_lem :
    (m n : ℕ) → ◌≡◌ {A = Option Number} (some (negative m)) (some (plus n)) → (m ≡ 0) × (n ≡ 0)
negative_lem zero n h = (refl, sym (plus_lem h))
negative_lem (suc m) n h = absurd (ground arith)

minus_lem :
    (c : ℕ) (cs : Text)
    → c ≡ 45
    → (is_nil cs || not (all_digits cs)) ≡ false
    → read_digits 0 cs ≡ 0
    → (zeros : Text) × (◌≡◌ {A = Text} (c ∷ cs) (45 ∷ zeros)) × Spells zeros 0
minus_lem c [] e h z = absurd (ground arith)
minus_lem c (d ∷ ds) e h z = (
  d ∷ ds,
  ap (λ x. x ∷ d ∷ ds) e,
  subst (Spells (d ∷ ds)) z (all_digits-Spells d ds (ground (arith, h))),
)

read_decimal-Spells :
    (s : Text) (n : ℕ)
    → read_decimal s ≡ some (plus n)
    → Spells s n ⊎ ((n ≡ 0) × ((zeros : Text) × (s ≡ 45 ∷ zeros) × Spells zeros 0))
unfolding read_decimal
read_decimal-Spells [] n h = absurd (ground arith)
read_decimal-Spells (c ∷ cs) n h = elim (Bool-cases (c == 45)) [
  | inr plain ↦ elim (Bool-cases (all_digits (c ∷ cs))) [
    | inr bad ↦ absurd (ground (arith, plain, bad))
    | inl all ↦
        let same : read_digits 0 (c ∷ cs) ≡ n = plus_lem (rw (plain, all) at h) in
        inl (subst (Spells (c ∷ cs)) same (all_digits-Spells c cs all))
  ]
  | inl minus' ↦ elim (Bool-cases (is_nil cs || not (all_digits cs))) [
    | inl bad ↦ absurd (ground (arith, minus', bad))
    | inr good ↦
        let (zero', none') = negative_lem (read_digits 0 cs) n (rw (minus', good) at h) in
        inr (none', minus_lem c cs (ground (arith, minus')) good zero')
  ]
]

pub text_lem : (s : Text) (n : ℕ) → to_exact_int (text s) ≡ some (plus n) → IsSpelled s n
unfolding to_exact_int trim
text_lem s n h =
    let (before, parts, all) = trim_start-parts s in
    let (after, parts', all') = trim_end-parts (trim_start s) in
    record {
      before = before;
      digits = trim_end (trim_start s);
      after = after;
      parts = parts ∙ ap (λ t. before ++ t) parts';
      space_before = all;
      space_after = all';
      spells = read_decimal-Spells (trim_end (trim_start s)) n h;
    }

pub number_lem :
    (k : Number) (n : ℕ) → to_exact_int (number k) ≡ some (plus n) → number k ≡ number (plus n)
unfolding to_exact_int
number_lem (plus m) n h = ap (λ x. number (plus x)) (plus_lem h)
number_lem (minus m) n h = absurd (ground arith)
number_lem (fractional below) n h = absurd (ground arith)
number_lem (infinite below) n h = absurd (ground arith)
number_lem nan n h = absurd (ground arith)

pub other_lem : (n : ℕ) → to_exact_int other ≡ some (plus n) → ⊥
unfolding to_exact_int
other_lem n h = ground arith
