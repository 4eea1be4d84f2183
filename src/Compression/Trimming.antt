-- ===== src/Compression/Trimming.antt =====
-- The fields that the padding and the trimming of src/build/compression.js leave alone.
use xchain_encoder.Base.{
  ℕ, zero, suc, ◌≡◌, refl, sym, ap, ◌∙◌, ◌≢◌, ◌⊎◌, inl, inr, true, ◌&&◌, List, [], ◌∷◌, arith,
  if◌then◌else◌, Bool-cases, set,
}
use xchain_encoder.Compression.Fields.{Text, is_empty, field_or_empty, pad_fields, strip_fields}

empty-nil : {A : Type 0} (xs : List A) → is_empty xs ≡ true → xs ≡ []
empty-nil [] h = refl
empty-nil (x ∷ xs) h = absurd (ground arith)

-- A field is popped with all that follow it, or kept.
strip_fields-cases :
    (part : Text) (parts : List Text)
    → ((part ≡ []) × (strip_fields parts ≡ []) × (strip_fields (part ∷ parts) ≡ []))
      ⊎ (strip_fields (part ∷ parts) ≡ part ∷ strip_fields parts)
unfolding strip_fields
strip_fields-cases part parts = elim (Bool-cases (is_empty part && is_empty (strip_fields parts))) [
  | inl e ↦ inl (
    empty-nil part (ground (arith, e)),
    empty-nil (strip_fields parts) (ground (arith, e)),
    rw e refl,
  )
  | inr e ↦ inr (rw e refl)
]

strip_fields-cons :
    (part : Text) (xs ys : List Text)
    → strip_fields xs ≡ strip_fields ys
    → strip_fields (part ∷ xs) ≡ strip_fields (part ∷ ys)
unfolding strip_fields
strip_fields-cons part xs ys e =
    ap (λ rest. if is_empty part && is_empty rest then [] else part ∷ rest) e

strip_fields-strip_fields :
    (parts : List Text) → strip_fields (strip_fields parts) ≡ strip_fields parts
unfolding strip_fields
strip_fields-strip_fields [] = refl
strip_fields-strip_fields (part ∷ parts) = elim (strip_fields-cases part parts) [
  | inl (_, _, e) ↦ ap strip_fields e ∙ sym e
  | inr e ↦
      ap strip_fields e
      ∙ strip_fields-cons part (strip_fields parts) parts (strip_fields-strip_fields parts)
]

pub strip_fields-field :
    (parts : List Text) (i : ℕ) → field_or_empty (strip_fields parts) i ≡ field_or_empty parts i
unfolding strip_fields
strip_fields-field [] i = refl
strip_fields-field (part ∷ parts) zero = elim (strip_fields-cases part parts) [
  | inl (p, _, e) ↦ ap (λ l. field_or_empty l zero) e ∙ sym p
  | inr e ↦ ap (λ l. field_or_empty l zero) e
]
strip_fields-field (part ∷ parts) (suc i) = elim (strip_fields-cases part parts) [
  | inl (_, s, e) ↦
      ap (λ l. field_or_empty l (suc i)) e
      ∙ ap (λ l. field_or_empty l i) (sym s)
      ∙ strip_fields-field parts i
  | inr e ↦ ap (λ l. field_or_empty l (suc i)) e ∙ strip_fields-field parts i
]

-- Fields that were trimmed, set again.
abbrev pub set_trimmed : ℕ → Text → List Text → List Text
set_trimmed n next parts = strip_fields (set (pad_fields (suc n) parts) n next)

-- Setting a field again, of fields that were padded, set and trimmed.
pub set_trimmed-set_trimmed :
    (n : ℕ) (parts : List Text) (value next : Text)
    → set_trimmed n next (set_trimmed n value parts) ≡ set_trimmed n next parts
unfolding pad_fields strip_fields
set_trimmed-set_trimmed zero [] value next = elim (strip_fields-cases value []) [
  | inl (_, _, e) ↦ ap (set_trimmed zero next) e
  | inr e ↦ ap (set_trimmed zero next) e
]
set_trimmed-set_trimmed zero (part ∷ parts) value next = elim (strip_fields-cases value parts) [
  | inl (_, s, e) ↦ ap (set_trimmed zero next) e ∙ strip_fields-cons next [] parts (sym s)
  | inr e ↦
      ap (set_trimmed zero next) e
      ∙ strip_fields-cons next (strip_fields parts) parts (strip_fields-strip_fields parts)
]
set_trimmed-set_trimmed (suc n) [] value next =
    elim (strip_fields-cases [] (set (pad_fields (suc n) []) n value)) [
      | inl (_, _, e) ↦ ap (set_trimmed (suc n) next) e
      | inr e ↦
          ap (set_trimmed (suc n) next) e
          ∙ strip_fields-cons [] (set (pad_fields (suc n) (set_trimmed n value [])) n next)
              (set (pad_fields (suc n) []) n next) (set_trimmed-set_trimmed n [] value next)
    ]
set_trimmed-set_trimmed (suc n) (part ∷ parts) value next =
    let later = set_trimmed-set_trimmed n parts value next in
    elim (strip_fields-cases part (set (pad_fields (suc n) parts) n value)) [
      | inl (p, s, e) ↦
          ap (set_trimmed (suc n) next) e
          ∙ strip_fields-cons [] (set (pad_fields (suc n) []) n next)
              (set (pad_fields (suc n) parts) n next) (ap (set_trimmed n next) (sym s) ∙ later)
          ∙ ap (λ q. strip_fields (q ∷ set (pad_fields (suc n) parts) n next)) (sym p)
      | inr e ↦
          ap (set_trimmed (suc n) next) e
          ∙ strip_fields-cons part (set (pad_fields (suc n) (set_trimmed n value parts)) n next)
              (set (pad_fields (suc n) parts) n next) later
    ]

pub set-same :
    (n : ℕ) (parts : List Text) (value : Text)
    → field_or_empty (set (pad_fields (suc n) parts) n value) n ≡ value
unfolding pad_fields
set-same zero [] value = refl
set-same zero (part ∷ parts) value = refl
set-same (suc n) [] value = set-same n [] value
set-same (suc n) (part ∷ parts) value = set-same n parts value

pad_fields-field :
    (n i : ℕ) (parts : List Text) → field_or_empty (pad_fields n parts) i ≡ field_or_empty parts i
unfolding pad_fields
pad_fields-field zero i parts = refl
pad_fields-field (suc n) zero [] = refl
pad_fields-field (suc n) (suc i) [] = pad_fields-field n i []
pad_fields-field (suc n) zero (part ∷ parts) = refl
pad_fields-field (suc n) (suc i) (part ∷ parts) = pad_fields-field n i parts

pub set-other :
    (n i : ℕ) (parts : List Text) (value : Text)
    → i ≢ n
    → field_or_empty (set (pad_fields (suc n) parts) n value) i ≡ field_or_empty parts i
unfolding pad_fields
set-other zero zero parts value h = absurd (h refl)
set-other zero (suc i) [] value h = refl
set-other zero (suc i) (part ∷ parts) value h = refl
set-other (suc n) zero [] value h = refl
set-other (suc n) zero (part ∷ parts) value h = refl
set-other (suc n) (suc i) [] value h = set-other n i [] value (λ e. h (ap suc e))
set-other (suc n) (suc i) (part ∷ parts) value h = set-other n i parts value (λ e. h (ap suc e))
