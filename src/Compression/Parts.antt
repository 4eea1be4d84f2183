-- ===== src/Compression/Parts.antt =====
-- Splitting and joining the ACTION strings of src/build/compression.js.
use xchain_encoder.Base.{
  ℕ, zero, suc, ◌≡◌, refl, sym, ap, ◌∙◌, subst, ◌≢◌, inl, inr, ◌&&◌, List, [], ◌∷◌, ◌++◌, arith,
  ℕ_discrete, Bool-cases, All, set,
}
use xchain_encoder.Compression.Fields.{
  Text, pipe, is_empty, extend, split, join, pad_fields, strip_fields, strip_after_two, set_field,
  compression_field_index,
}

-- A part holds no separator.
abbrev pub IsPart : Text → Type 0
IsPart part = All (λ c. c ≢ pipe) part

split_other : (c : ℕ) (cs : Text) → c ≢ pipe → split (c ∷ cs) ≡ extend c (split cs)
unfolding split
split_other c cs h = ground arith

split_separator : (c : ℕ) (cs : Text) → c ≡ pipe → [] ∷ split cs ≡ split (c ∷ cs)
unfolding split
split_separator c cs h = ground arith

split-part : (part : Text) → IsPart part → split part ≡ part ∷ []
unfolding split
split-part [] h = refl
split-part (c ∷ part) h = split_other c part h.0 ∙ ap (extend c) (split-part part h.1)

split-append : (part rest : Text) → IsPart part → split (part ++ pipe ∷ rest) ≡ part ∷ split rest
unfolding split
split-append [] rest h = refl
split-append (c ∷ part) rest h =
    split_other c (part ++ pipe ∷ rest) h.0 ∙ ap (extend c) (split-append part rest h.1)

pub split-join :
    (part : Text) (parts : List Text)
    → All IsPart (part ∷ parts)
    → split (join (part ∷ parts)) ≡ part ∷ parts
unfolding join
split-join part [] h = split-part part h.0
split-join part (next ∷ parts) h =
    split-append part (join (next ∷ parts)) h.0 ∙ ap (◌∷◌ part) (split-join next parts h.1)

extend-IsPart :
    (c : ℕ) (parts : List Text) → c ≢ pipe → All IsPart parts → All IsPart (extend c parts)
extend-IsPart c [] n h = ((n, tt), tt)
extend-IsPart c (part ∷ parts) n h = ((n, h.0), h.1)

pub split-IsPart : (t : Text) → All IsPart (split t)
unfolding split
split-IsPart [] = (tt, tt)
split-IsPart (c ∷ cs) = elim (ℕ_discrete c pipe) [
  | yes e ↦ subst (All IsPart) (split_separator c cs e) (tt, split-IsPart cs)
  | no n ↦
      subst (All IsPart) (sym (split_other c cs n)) (extend-IsPart c (split cs) n (split-IsPart cs))
]

pad_fields-IsPart : (n : ℕ) (parts : List Text) → All IsPart parts → All IsPart (pad_fields n parts)
unfolding pad_fields
pad_fields-IsPart zero parts h = h
pad_fields-IsPart (suc n) [] h = (tt, pad_fields-IsPart n [] tt)
pad_fields-IsPart (suc n) (part ∷ parts) h = (h.0, pad_fields-IsPart n parts h.1)

set-IsPart :
    (parts : List Text) (i : ℕ) (value : Text)
    → IsPart value
    → All IsPart parts
    → All IsPart (set parts i value)
set-IsPart [] i value v h = tt
set-IsPart (part ∷ parts) zero value v h = (v, h.1)
set-IsPart (part ∷ parts) (suc i) value v h = (h.0, set-IsPart parts i value v h.1)

strip_fields-IsPart : (parts : List Text) → All IsPart parts → All IsPart (strip_fields parts)
unfolding strip_fields
strip_fields-IsPart [] h = tt
strip_fields-IsPart (part ∷ parts) h =
    let rest = strip_fields-IsPart parts h.1 in
    elim (Bool-cases (is_empty part && is_empty (strip_fields parts))) [
      | inl e ↦ rw e tt
      | inr e ↦ rw e (h.0, rest)
    ]

strip_after_two-IsPart : (parts : List Text) → All IsPart parts → All IsPart (strip_after_two parts)
strip_after_two-IsPart [] h = h
strip_after_two-IsPart (action ∷ []) h = h
strip_after_two-IsPart (action ∷ version ∷ parts) h =
    (h.0, (h.1.0, strip_fields-IsPart parts h.1.1))

pub set_field-IsPart :
    (parts : List Text) (value : Text)
    → IsPart value
    → All IsPart parts
    → All IsPart (set_field parts value)
unfolding set_field
set_field-IsPart parts value v h =
    strip_after_two-IsPart _
      (set-IsPart _ compression_field_index value v (pad_fields-IsPart 11 parts h))
