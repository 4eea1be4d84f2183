-- ===== src/Payload/Rebalance.antt =====
-- The repartition of the final two chunks in src/XChainEncoder/payload_encodings.js, by cases.
use xchain_encoder.Base.{
  ℕ, suc, ◌+◌, ◌-◌, ◌≤◌, ◌<◌, List, [], ◌∷◌, ◌++◌, Bool, true, false, ◌&&◌, ltb, leb, ◌==◌,
  if◌then◌else◌, length, take, drop, set, concat, All, length-append, drop-length-append,
  append_assoc, append-nil, Bool-cases, inl, inr, ◌≡◌, refl, ap, ◌∙◌, arith, sym, subst,
}
use xchain_encoder.Payload.Slices.{Bytes, byte_at, chunk_at, is_minimal_byte, rebalance, subarray}
use xchain_encoder.Payload.SliceLoop.{Full, drop-drop}

-- The last two chunks, named.
unsnoc :
    (cs : List Bytes)
    → 2 ≤ length cs
    → (init : List Bytes) × (p : Bytes) × (l : Bytes) × (cs ≡ init ++ p ∷ l ∷ [])
unsnoc [] h = absurd (omega arith)
unsnoc (c ∷ []) h = absurd (omega arith)
unsnoc (c ∷ d ∷ []) h = ([], c, d, refl)
unsnoc (c ∷ d ∷ e ∷ cs) h =
    let (init, p, l, q) = unsnoc (d ∷ e ∷ cs) (omega arith) in (c ∷ init, p, l, ap (◌∷◌ c) q)

chunk_at-append :
    (init rest : List Bytes) (k : ℕ) → chunk_at (init ++ rest) (length init + k) ≡ chunk_at rest k
chunk_at-append [] rest k = let e : 0 + k ≡ k = omega arith in rw e
chunk_at-append (c ∷ init) rest k =
    let e : suc (length init) + k ≡ suc (length init + k) = omega arith in
    rw e (chunk_at-append init rest k)

set-append :
    (init rest : List Bytes) (k : ℕ) (a : Bytes)
    → set (init ++ rest) (length init + k) a ≡ init ++ set rest k a
set-append [] rest k a = let e : 0 + k ≡ k = omega arith in rw e
set-append (c ∷ init) rest k a =
    let e : suc (length init) + k ≡ suc (length init + k) = omega arith in
    rw e (ap (◌∷◌ c) (set-append init rest k a))

pub concat-append : (xss yss : List Bytes) → concat (xss ++ yss) ≡ concat xss ++ concat yss
concat-append [] yss = refl
concat-append (xs ∷ xss) yss = rw (concat-append xss yss) (sym (append_assoc xs _ _))

take-length_append : (xs ys : Bytes) (k : ℕ) → drop (length xs + k) (xs ++ ys) ≡ drop k ys
take-length_append xs ys k =
    drop-drop (length xs) k (xs ++ ys) ∙ ap (drop k) (drop-length-append xs ys)

-- The pair that replaces the last two chunks.
abbrev pub shifted : Bytes → Bytes → List Bytes
shifted p l = take (length p - 1) (p ++ l) ∷ drop (length p - 1) (p ++ l) ∷ []

abbrev pub degenerate : Bytes → Bool
degenerate l = (length l == 1) && is_minimal_byte (byte_at l 0)

module _ (xs c q : Bytes) (k : ℕ) (e : xs ≡ c ++ q) (len : length q ≡ k + 1) (pos : 1 ≤ k) where
  length-xs : length xs ≡ length c + (k + 1)
  length-xs = rw (e, length-append c q) (omega arith)

  reslice-last : drop (length xs - 2) xs ≡ drop (k - 1) q
  reslice-last =
      let i : length xs - 2 ≡ length c + (k - 1) = omega (arith, length-xs) in
      rw i (ap (drop (length c + (k - 1))) e ∙ take-length_append c q (k - 1))

  reslice-prev : subarray xs (length xs - 1 - k) (length xs - 2) ≡ take (k - 1) q
  reslice-prev =
      let i : length xs - 1 - k ≡ length c + 0 = omega (arith, length-xs) in
      let j : length xs - 2 - (length xs - 1 - k) ≡ k - 1 = omega (arith, length-xs) in
      rw (j, i)
        (ap (λ ys. take (k - 1) (drop (length c + 0) ys)) e
          ∙ ap (take (k - 1)) (take-length_append c q 0))

-- `rebalance` over chunks whose last two are named.
rebalance_split :
    (xs : Bytes) (init : List Bytes) (p l : Bytes)
    → xs ≡ concat init ++ (p ++ l)
    → 1 ≤ length p
    → rebalance xs (init ++ p ∷ l ∷ [])
      ≡ (if degenerate l then init ++ shifted p l else init ++ p ∷ l ∷ [])
unfolding rebalance
rebalance_split xs init p l e h =
    let n : length (init ++ p ∷ l ∷ []) ≡ length init + 2 = length-append init (p ∷ l ∷ []) in
    let n1 : length (init ++ p ∷ l ∷ []) - 1 ≡ length init + 1 = omega arith in
    let n2 : length (init ++ p ∷ l ∷ []) - 2 ≡ length init + 0 = omega arith in
    let two : leb 2 (length (init ++ p ∷ l ∷ [])) ≡ true = ground arith in
    rw (n1, n2, two, chunk_at-append init (p ∷ l ∷ []) 1, chunk_at-append init (p ∷ l ∷ []) 0)
      (elim (Bool-cases (degenerate l)) [
        | inl d ↦
            let one : length (p ++ l) ≡ length p + 1 =
              length-append p l ∙ ap (◌+◌ (length p)) (ground arith) in
            rw
              (
                d,
                reslice-prev xs (concat init) (p ++ l) (length p) e one h,
                reslice-last xs (concat init) (p ++ l) (length p) e one h,
                set-append init (p ∷ l ∷ []) 0 (take (length p - 1) (p ++ l)),
              )
              (set-append init (take (length p - 1) (p ++ l) ∷ l ∷ []) 1
                (drop (length p - 1) (p ++ l)))
        | inr d ↦ rw d
      ])

-- `rebalance` leaves less than two chunks alone.
rebalance_short : (xs : Bytes) (cs : List Bytes) → length cs < 2 → rebalance xs cs ≡ cs
unfolding rebalance
rebalance_short xs cs h = let t : leb 2 (length cs) ≡ false = ground arith in rw t

pub Full-tail :
    (n : ℕ) (init : List Bytes) (p l : Bytes)
    → Full n (init ++ p ∷ l ∷ [])
    → All (λ c. length c ≡ n) init × (length p ≡ n) × (1 ≤ length l) × (length l ≤ n)
Full-tail n [] p l f = (tt, f.0, f.1.0, f.1.1)
Full-tail n (c ∷ []) p l f = ((f.0, tt), f.1.0, f.1.1.0, f.1.1.1)
Full-tail n (c ∷ d ∷ init) p l f =
    let (a, b, x, y) = Full-tail n (d ∷ init) p l f.1 in ((f.0, a), b, x, y)

pub concat-two : (p l : Bytes) → concat (p ∷ l ∷ []) ≡ p ++ l
concat-two p l = ap (◌++◌ p) (append-nil l)

-- The three ways through `rebalance`.
pub rebalance_cases {ℓ} :
    (P : List Bytes → Type ℓ) (xs : Bytes) (cs : List Bytes) (n : ℕ)
    → 1 ≤ n
    → Full n cs
    → concat cs ≡ xs
    → (length cs < 2 → P cs)
    → ((init : List Bytes) (p l : Bytes)
        → Full n (init ++ p ∷ l ∷ [])
        → degenerate l ≡ false
        → xs ≡ concat init ++ (p ++ l)
        → P (init ++ p ∷ l ∷ []))
    → ((init : List Bytes) (p l : Bytes)
        → Full n (init ++ p ∷ l ∷ [])
        → degenerate l ≡ true
        → xs ≡ concat init ++ (p ++ l)
        → P (init ++ shifted p l))
    → P (rebalance xs cs)
rebalance_cases P xs cs n pos f e short keep shift = elim (Bool-cases (ltb (length cs) 2)) [
  | inl lt ↦ rw (rebalance_short xs cs (ground arith)) (short (ground arith))
  | inr ge ↦
      let (init, p, l, q) = unsnoc cs (ground arith) in
      let f' : Full n (init ++ p ∷ l ∷ []) = subst (Full n) q f in
      let parts : xs ≡ concat init ++ (p ++ l) =
        sym e
        ∙ ap concat q
        ∙ concat-append init (p ∷ l ∷ [])
        ∙ ap (◌++◌ (concat init)) (concat-two p l) in
      let t = Full-tail n init p l f' in
      rw (q, rebalance_split xs init p l parts (omega arith))
        (elim (Bool-cases (degenerate l)) [
          | inl d ↦ rw d (shift init p l f' d parts)
          | inr d ↦ rw d (keep init p l f' d parts)
        ])
]
