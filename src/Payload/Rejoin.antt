-- ===== src/Payload/Rejoin.antt =====
-- What the slicers of src/XChainEncoder/payload_encodings.js guarantee: the chunks concatenate to
-- the data, and each of them is one script push that the decoder reads back as bytes.
use xchain_encoder.Base.{
  ℕ, ◌-◌, ◌≤◌, ◌<◌, List, [], ◌∷◌, ◌++◌, true, false, length, take, drop, concat, All, All-append,
  take-append-drop, length-append, length-take, length-drop, ◌≡◌, ◌≢◌, ap, ◌∙◌, arith, sym,
}
use xchain_encoder.Payload.SliceLoop.{Full, concat-slice_loop, slice_loop-Full}
use xchain_encoder.Payload.Rebalance.{
  Full-tail, concat-append, concat-two, shifted, degenerate, rebalance_cases,
}
use xchain_encoder.Payload.Slices.{
  Bytes, is_minimal_op_single_byte, slice_loop, rebalance, slice_script_hash_chunks,
  slice_envelope_chunks,
}

concat-shifted : (p l : Bytes) → concat (shifted p l) ≡ p ++ l
concat-shifted p l =
    concat-two (take (length p - 1) (p ++ l)) (drop (length p - 1) (p ++ l))
    ∙ take-append-drop (length p - 1) (p ++ l)

concat-rebalance :
    (xs : Bytes) (cs : List Bytes) (n : ℕ)
    → 1 ≤ n
    → Full n cs
    → concat cs ≡ xs
    → concat (rebalance xs cs) ≡ xs
concat-rebalance xs cs n pos f e =
    rebalance_cases (λ r. concat r ≡ xs) xs cs n pos f e (λ _. e)
      (λ init p l _ _ parts.
        concat-append init (p ∷ l ∷ []) ∙ ap (◌++◌ (concat init)) (concat-two p l) ∙ sym parts)
      (λ init p l _ _ parts.
        concat-append init (shifted p l) ∙ ap (◌++◌ (concat init)) (concat-shifted p l) ∙ sym parts)

-- One chunk as the carriers need it: not empty, within one script element, and no single byte that
-- the script compiler would write as a bare opcode.
pub record IsPush (n : ℕ) (c : Bytes) : Type 0 where
  pub nonempty : 1 ≤ length c
  pub fits : length c ≤ n
  pub no_opcode : is_minimal_op_single_byte c ≡ false

IsPush-of_length : (n : ℕ) (c : Bytes) → 2 ≤ length c → length c ≤ n → IsPush n c
unfolding is_minimal_op_single_byte
IsPush-of_length n c h k = ground arith

All-IsPush_of_full :
    (n : ℕ) (cs : List Bytes) → 2 ≤ n → All (λ c. length c ≡ n) cs → All (IsPush n) cs
All-IsPush_of_full n [] h a = tt
All-IsPush_of_full n (c ∷ cs) h a =
    (IsPush-of_length n c (omega arith) (omega arith), All-IsPush_of_full n cs h a.1)

IsPush-short :
    (xs : Bytes) (cs : List Bytes) (n : ℕ)
    → Full n cs
    → concat cs ≡ xs
    → length xs ≢ 1
    → length cs < 2
    → All (IsPush n) cs
unfolding is_minimal_op_single_byte
IsPush-short xs [] n f e one h = tt
IsPush-short xs (c ∷ []) n f e one h =
    let k : length c ≢ 1 = λ q. one (ap length (sym e) ∙ length-append c [] ∙ omega arith) in
    (ground arith, tt)
IsPush-short xs (c ∷ d ∷ cs) n f e one h = absurd (omega arith)

IsPush-keep :
    (n : ℕ) (init : List Bytes) (p l : Bytes)
    → 3 ≤ n
    → Full n (init ++ p ∷ l ∷ [])
    → degenerate l ≡ false
    → All (IsPush n) (init ++ p ∷ l ∷ [])
unfolding is_minimal_op_single_byte
IsPush-keep n init p l h f d =
    let (a, b, x, y) = Full-tail n init p l f in
    All-append (IsPush n) init (p ∷ l ∷ []) (All-IsPush_of_full n init (omega arith) a)
      (IsPush-of_length n p (omega arith) (omega arith), (ground arith, tt))

length-shifted :
    (p l : Bytes)
    → 1 ≤ length p
    → length l ≡ 1
    → (length (take (length p - 1) (p ++ l)) ≡ length p - 1)
      × (length (drop (length p - 1) (p ++ l)) ≡ 2)
length-shifted p l h k = omega (
  arith,
  length-take (length p - 1) (p ++ l),
  length-drop (length p - 1) (p ++ l),
  length-append p l,
)

IsPush-shift :
    (n : ℕ) (init : List Bytes) (p l : Bytes)
    → 3 ≤ n
    → Full n (init ++ p ∷ l ∷ [])
    → degenerate l ≡ true
    → All (IsPush n) (init ++ shifted p l)
IsPush-shift n init p l h f d =
    let (a, b, x, y) = Full-tail n init p l f in
    let s = length-shifted p l (omega arith) (ground arith) in
    All-append (IsPush n) init (shifted p l) (All-IsPush_of_full n init (omega arith) a) (
      IsPush-of_length n _ (omega arith) (omega arith),
      (IsPush-of_length n _ (omega arith) (omega arith), tt),
    )

module _ (xs : Bytes) (n : ℕ) (h : 3 ≤ n) where
  sliced : concat (slice_loop (length xs) xs n 0) ≡ xs
  sliced = concat-slice_loop (length xs) xs n 0 (omega arith) (omega arith)

  sliced-Full : Full n (slice_loop (length xs) xs n 0)
  sliced-Full = slice_loop-Full (length xs) xs n 0 (omega arith)

  rejoined : concat (rebalance xs (slice_loop (length xs) xs n 0)) ≡ xs
  rejoined = concat-rebalance xs _ n (omega arith) sliced-Full sliced

  pushes : length xs ≢ 1 → All (IsPush n) (rebalance xs (slice_loop (length xs) xs n 0))
  pushes one =
      rebalance_cases (All (IsPush n)) xs _ n (omega arith) sliced-Full sliced
        (IsPush-short xs _ n sliced-Full sliced one)
        (λ init p l f d _. IsPush-keep n init p l h f d)
        (λ init p l f d _. IsPush-shift n init p l h f d)

-- At every chunk size of at least three the P2SH/P2WSH slicer loses, adds and reorders nothing: its
-- chunks, repartitioned final pair included, concatenate to the data; and if the data is not one
-- single byte, every chunk is non-empty, within the chunk size, and no lone byte that compiles to a
-- bare opcode.
pub slice_script_hash_chunks-pushes :
    (xs : Bytes) (n : ℕ)
    → 3 ≤ n
    → (concat (slice_script_hash_chunks xs n) ≡ xs)
      × (length xs ≢ 1 → All (IsPush n) (slice_script_hash_chunks xs n))
unfolding slice_script_hash_chunks
slice_script_hash_chunks-pushes xs n h = (rejoined xs n h, pushes xs n h)

-- The envelope slicer cuts the same way at 520 bytes, for every payload: the pushes concatenate to
-- the data; and if the data is not one single byte, every push is non-empty, at most 520 bytes, and
-- no lone byte that compiles to a bare opcode.
pub slice_envelope_chunks-pushes :
    (xs : Bytes)
    → (concat (slice_envelope_chunks xs) ≡ xs)
      × (length xs ≢ 1 → All (IsPush 520) (slice_envelope_chunks xs))
unfolding slice_envelope_chunks
slice_envelope_chunks-pushes xs = (rejoined xs 520 (omega arith), pushes xs 520 (omega arith))
