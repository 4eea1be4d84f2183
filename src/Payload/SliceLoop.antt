-- ===== src/Payload/SliceLoop.antt =====
-- The slicing loop of src/XChainEncoder/payload_encodings.js: with the length of the data as fuel it
-- covers the data, in chunks that are full but for the last.
use xchain_encoder.Base.{
  ℕ, zero, suc, ◌+◌, ◌-◌, ◌≤◌, ◌<◌, List, [], ◌∷◌, ◌++◌, ltb, length, take, drop, concat,
  length-take, length-drop, Bool-cases, ◌⊎◌, inl, inr, ◌≡◌, refl, ap, arith, sym,
}
use xchain_encoder.Payload.Slices.{Bytes, slice_loop, subarray}

drop_all : (n : ℕ) (xs : Bytes) → length xs ≤ n → drop n xs ≡ []
drop_all zero [] h = refl
drop_all zero (x ∷ xs) h = absurd (omega arith)
drop_all (suc n) [] h = refl
drop_all (suc n) (x ∷ xs) h = drop_all n xs (omega arith)

pub drop-drop : (i n : ℕ) (xs : Bytes) → drop (i + n) xs ≡ drop n (drop i xs)
drop-drop zero n xs = let e : zero + n ≡ n = omega arith in rw e
drop-drop (suc i) n [] =
    let e : suc i + n ≡ suc (i + n) = omega arith in rw e (sym (drop_all n [] (omega arith)))
drop-drop (suc i) n (x ∷ xs) =
    let e : suc i + n ≡ suc (i + n) = omega arith in rw e (drop-drop i n xs)

take-drop_rest : (n : ℕ) (xs : Bytes) → take n xs ++ drop (length (take n xs)) xs ≡ xs
take-drop_rest zero xs = refl
take-drop_rest (suc n) [] = refl
take-drop_rest (suc n) (x ∷ xs) = ap (◌∷◌ x) (take-drop_rest n xs)

-- The chunk that the loop cuts at `i`.
length-next :
    (xs : Bytes) (size i : ℕ)
    → i < length xs
    → 1 ≤ size
    → (1 ≤ length (subarray xs i (i + size)))
      × (length (subarray xs i (i + size)) ≤ size)
      × (i + length (subarray xs i (i + size)) ≤ length xs)
length-next xs size i h k = omega (arith, length-take (i + size - i) (drop i xs), length-drop i xs)

next_full :
    (xs : Bytes) (size i : ℕ)
    → i + length (subarray xs i (i + size)) < length xs
    → length (subarray xs i (i + size)) ≡ size
next_full xs size i h = omega (arith, length-take (i + size - i) (drop i xs), length-drop i xs)

pub concat-slice_loop :
    (fuel : ℕ) (xs : Bytes) (size i : ℕ)
    → 1 ≤ size
    → length xs ≤ i + fuel
    → concat (slice_loop fuel xs size i) ≡ drop i xs
unfolding slice_loop
concat-slice_loop zero xs size i h k = sym (drop_all i xs (omega arith))
concat-slice_loop (suc fuel) xs size i h k = elim (Bool-cases (ltb i (length xs))) [
  | inl more ↦
      rw
        (
          more,
          concat-slice_loop fuel xs size (i + length (subarray xs i (i + size))) h
              (let b = length-next xs size i (ground arith) h in omega arith),
          drop-drop i (length (subarray xs i (i + size))) xs,
        )
        (take-drop_rest (i + size - i) (drop i xs))
  | inr done ↦ rw done (sym (drop_all i xs (ground arith)))
]

-- Every chunk but the last is full, and the last is not empty.
abbrev pub Full : ℕ → List Bytes → Type 0
Full n [] = Unit {0}
Full n (c ∷ []) = (1 ≤ length c) × (length c ≤ n)
Full n (c ∷ d ∷ cs) = (length c ≡ n) × Full n (d ∷ cs)

Full-cons :
    (n : ℕ) (c : Bytes) (cs : List Bytes)
    → (1 ≤ length c) × (length c ≤ n)
    → ((cs ≡ []) ⊎ (length c ≡ n))
    → Full n cs
    → Full n (c ∷ cs)
Full-cons n c [] b s f = b
Full-cons n c (d ∷ cs) b (inl e) f = absurd (ground arith)
Full-cons n c (d ∷ cs) b (inr e) f = (e, f)

slice_loop_ends :
    (fuel : ℕ) (xs : Bytes) (size i : ℕ) → (slice_loop fuel xs size i ≡ []) ⊎ (i < length xs)
unfolding slice_loop
slice_loop_ends zero xs size i = inl refl
slice_loop_ends (suc fuel) xs size i = ground arith

pub slice_loop-Full :
    (fuel : ℕ) (xs : Bytes) (size i : ℕ) → 1 ≤ size → Full size (slice_loop fuel xs size i)
unfolding slice_loop
slice_loop-Full zero xs size i h = tt
slice_loop-Full (suc fuel) xs size i h = elim (Bool-cases (ltb i (length xs))) [
  | inl more ↦ rw more (
      let b = length-next xs size i (ground arith) h in
      Full-cons size (subarray xs i (i + size)) _ (b.0, b.1)
        (elim (slice_loop_ends fuel xs size (i + length (subarray xs i (i + size)))) [
          | inl e ↦ inl e
          | inr lt ↦ inr (next_full xs size i lt)
        ])
        (slice_loop-Full fuel xs size (i + length (subarray xs i (i + size))) h))
  | inr done ↦ rw done tt
]
