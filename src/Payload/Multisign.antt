-- ===== src/Payload/Multisign.antt =====
-- The MULTISIGN carrier: every chunk is one full 64-byte slot, and the reader gets the data back.
use xchain_encoder.Base.{
  ℕ, zero, suc, ◌+◌, ◌-◌, ◌≤◌, ◌<◌, ◌≡◌, refl, sym, ap, ◌∙◌, inl, inr, List, [], ◌∷◌, ◌++◌, map,
  append_assoc, append-nil, arith, ltb, Bool-cases, length, take, drop, replicate, concat, All,
  length-append, length-replicate, take-length-append,
}
use xchain_encoder.Payload.SliceLoop.{Full, concat-slice_loop, slice_loop-Full}
use xchain_encoder.Payload.Slices.{Bytes, subarray, slice_loop}
use xchain_encoder.Payload.Carriers.{magic_word, multisign_chunk, multisign_loop, multisign_payload}

-- The multisign loop cuts as the slicer does, and wraps each chunk.
multisign_loop-slices :
    (fuel : ℕ) (xs magic : Bytes) (size i : ℕ)
    → multisign_loop fuel xs magic size i ≡ map (multisign_chunk magic) (slice_loop fuel xs size i)
unfolding multisign_loop slice_loop
multisign_loop-slices zero xs magic size i = refl
multisign_loop-slices (suc fuel) xs magic size i = elim (Bool-cases (ltb i (length xs))) [
  | inl more ↦
      rw (more, multisign_loop-slices fuel xs magic size (i + length (subarray xs i (i + size))))
  | inr done ↦ rw done
]

-- What the reader keeps of a chunk: all but the magic word.
abbrev pub strip_magic : Bytes → Bytes
strip_magic = drop 4

multisign_chunk_parts :
    (c : Bytes)
    → length c ≤ 60
    → multisign_chunk magic_word c ≡ magic_word ++ (c ++ replicate (60 - length c) 0)
unfolding multisign_chunk
multisign_chunk_parts c h = elim (Bool-cases (ltb (length (magic_word ++ c)) 64)) [
  | inl short ↦ let e : 64 - length (magic_word ++ c) ≡ 60 - length c = omega arith in rw (short, e)
  | inr full ↦
      let e : 60 - length c ≡ 0 = ground arith in
      rw (full, e) (ap (◌++◌ magic_word) (sym (append-nil c)))
]

abbrev pub IsSlot : Bytes → Type 0
IsSlot c = (length c ≡ 64) × (take 4 c ≡ magic_word)

multisign_chunk-IsSlot : (c : Bytes) → length c ≤ 60 → IsSlot (multisign_chunk magic_word c)
multisign_chunk-IsSlot c h = rw (multisign_chunk_parts c h) (
  omega (
    arith,
    length-append c (replicate (60 - length c) 0),
    length-replicate {0} {A = ℕ} (60 - length c) 0,
  ),
  refl,
)

slots : (cs : List Bytes) → Full 60 cs → All IsSlot (map (multisign_chunk magic_word) cs)
slots [] f = tt
slots (c ∷ []) f = (multisign_chunk-IsSlot c f.1, tt)
slots (c ∷ d ∷ cs) f = (multisign_chunk-IsSlot c (omega arith), slots (d ∷ cs) f.1)

-- Only the last chunk has a pad.
stripped :
    (cs : List Bytes)
    → Full 60 cs
    → (pad : ℕ) × (pad < 60)
      × (concat (map strip_magic (map (multisign_chunk magic_word) cs))
          ≡ concat cs ++ replicate pad 0)
stripped [] f = (0, omega arith, refl)
stripped (c ∷ []) f = (
  60 - length c,
  omega arith,
  rw (multisign_chunk_parts c f.1) (
      append-nil (c ++ replicate (60 - length c) 0)
      ∙ ap (λ z. z ++ replicate (60 - length c) 0) (sym (append-nil c))),
)
stripped (c ∷ d ∷ cs) f =
    let (pad, lt, e) = stripped (d ∷ cs) f.1 in
    let full : 60 - length c ≡ 0 = omega arith in
    (
      pad,
      lt,
      rw (multisign_chunk_parts c (omega arith), full, e, append-nil c)
          (sym (append_assoc c (concat (d ∷ cs)) (replicate pad 0))),
    )

-- Every MULTISIGN chunk is exactly 64 bytes and begins with the magic word, so both of its 32-byte
-- key halves are complete; and the chunks without their magic words concatenate to the data
-- followed by fewer than 60 zero bytes, so the data is the prefix of its own length.
pub multisign_payload-slots :
    (xs : Bytes)
    → All IsSlot (multisign_payload xs magic_word)
      × ((pad : ℕ) × (pad < 60)
          × (concat (map strip_magic (multisign_payload xs magic_word)) ≡ xs ++ replicate pad 0))
      × (take (length xs) (concat (map strip_magic (multisign_payload xs magic_word))) ≡ xs)
unfolding multisign_payload
multisign_payload-slots xs =
    let f = slice_loop-Full (length xs) xs 60 0 (omega arith) in
    let e = concat-slice_loop (length xs) xs 60 0 (omega arith) (omega arith) in
    let (pad, lt, q) = stripped (slice_loop (length xs) xs 60 0) f in
    rw (multisign_loop-slices (length xs) xs magic_word 60 0) (
      slots _ f,
      (pad, lt, q ∙ ap (λ z. z ++ replicate pad 0) e),
      ap (take (length xs)) (q ∙ ap (λ z. z ++ replicate pad 0) e)
          ∙ take-length-append xs (replicate pad 0),
    )
