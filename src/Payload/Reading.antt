-- ===== src/Payload/Reading.antt =====
-- The scripts that P2SH, P2WSH and TAPROOT payloads compile to, read back. Of bitcoinjs-lib's script
-- compiler the code relies on one thing: `decompile` returns the elements that were compiled, as
-- long as every push is a non-empty buffer of at most 520 bytes which is no minimal opcode, and every
-- opcode is OP_0 or one from OP_NOP on, which is the opcode's own byte and no prefix of a push.
use xchain_encoder.Base.{
  ℕ, zero, suc, ◌+◌, ◌-◌, ◌≤◌, ◌<◌, ◌≡◌, refl, sym, ◌∙◌, subst, ◌≢◌, ◌⊎◌, inl, inr, Bool, true,
  false, ◌&&◌, Option, none, some, List, [], ◌∷◌, ◌++◌, map, arith, ltb, leb, ◌==◌, if◌then◌else◌,
  Bool-cases, length, drop, concat, All, length-drop, All-append,
}
use xchain_encoder.Failures.{ok}
use xchain_encoder.Payload.Slices.{
  Bytes, is_minimal_op_single_byte, slice_script_hash_chunks, slice_envelope_chunks,
}
use xchain_encoder.Payload.Rejoin.{
  IsPush, slice_script_hash_chunks-pushes, slice_envelope_chunks-pushes,
}
use xchain_encoder.Payload.Carriers.{
  Encoding, op_return, p2sh, magic_word, ScriptElement, push, op, op_0, op_if, op_endif,
  op_checksig, op_drop, op_dup, op_hash160, op_equalverify, is_p2sh, p2sh_size, pw2sh_size,
  op_return_size, redeem_elements, envelope_elements, script_hash_payload, envelope_payload,
  buffers, scripts, prepare_data,
}

abbrev pub IsByte : ℕ → Type 0
IsByte b = b < 256

-- An element that a script keeps: OP_NOP is 0x61, and OP_NOP10, the last opcode, 0xb9.
abbrev pub IsFaithful : ScriptElement → Type 0
IsFaithful (push c) = IsPush 520 c × All IsByte c
IsFaithful (op n) = (n ≡ op_0) ⊎ ((0x61 ≤ n) × (n ≤ 0xb9))

-- The data that a redeem or witness script carries: its first element, if that is a push.
unfoldable pub leading_push : List ScriptElement → Bytes
leading_push (push c ∷ es) = c
leading_push _ = []

-- The pushes up to OP_ENDIF, concatenated, and the elements after it.
unfoldable pub read_body : List ScriptElement → Option (Bytes × List ScriptElement)
read_body [] = none
read_body (push c ∷ es) = elim (read_body es) [
  | none ↦ none
  | some (rest, tail) ↦ some (c ++ rest, tail)
]
read_body (op n ∷ es) = if n == op_endif then some ([], es) else none

-- OP_0 OP_IF <magic> <format> body OP_ENDIF: the header's two pushes and the body.
unfoldable pub read_envelope : List ScriptElement → Option (Bytes × Bytes × Bytes)
read_envelope (op a ∷ op b ∷ push magic ∷ push format ∷ es) =
    let body : Option (Bytes × Bytes × Bytes) = elim (read_body es) [
      | none ↦ none
      | some (bs, _) ↦ some (magic, format, bs)
    ] in
    if (a == op_0) && (b == op_if) then body else none
read_envelope _ = none

read_body-chunks :
    (cs : List Bytes) (es : List ScriptElement)
    → read_body (map push cs ++ op op_endif ∷ es) ≡ some (concat cs, es)
unfolding read_body
read_body-chunks [] es = refl
read_body-chunks (c ∷ cs) es = rw (read_body-chunks cs es)

Faithful-chunks :
    (cs : List Bytes) → All (IsPush 520) cs → All (All IsByte) cs → All IsFaithful (map push cs)
Faithful-chunks [] h b = tt
Faithful-chunks (c ∷ cs) h b = ((h.0, b.0), Faithful-chunks cs h.1 b.1)

All-left : (xs ys : Bytes) → All IsByte (xs ++ ys) → All IsByte xs × All IsByte ys
All-left [] ys h = (tt, h)
All-left (x ∷ xs) ys h = let (left, right) = All-left xs ys h.1 in ((h.0, left), right)

All-drop : (n : ℕ) (xs : Bytes) → All IsByte xs → All IsByte (drop n xs)
All-drop zero xs h = h
All-drop (suc n) [] h = tt
All-drop (suc n) (x ∷ xs) h = All-drop n xs h.1

-- The chunks of bytes are bytes.
All-concat : (cs : List Bytes) → All IsByte (concat cs) → All (All IsByte) cs
All-concat [] h = tt
All-concat (c ∷ cs) h = let (first, rest) = All-left c (concat cs) h in (first, All-concat cs rest)

opcode_lem : (n : ℕ) → 0x61 ≤ n → n ≤ 0xb9 → IsFaithful (op n)
opcode_lem n low high = inr (low, high)

IsPush-mono : {m n : ℕ} (cs : List Bytes) → m ≤ n → All (IsPush m) cs → All (IsPush n) cs
IsPush-mono [] h a = tt
IsPush-mono (c ∷ cs) h a = (
  record { nonempty = a.0.nonempty; fits = omega arith; no_opcode = a.0.no_opcode },
  IsPush-mono cs h a.1,
)

IsPush-long : (c : Bytes) → 2 ≤ length c → length c ≤ 520 → IsPush 520 c
unfolding is_minimal_op_single_byte
IsPush-long c h k = ground arith

format-IsPush : IsPush 520 (0x00 ∷ [])
unfolding is_minimal_op_single_byte
format-IsPush = record { nonempty = omega arith; fits = omega arith; no_opcode = refl }

magic_word-bytes : All IsByte magic_word
magic_word-bytes = (omega arith, (omega arith, (omega arith, (omega arith, tt))))

chunk_size : (e : Encoding) → (if is_p2sh e then p2sh_size else pw2sh_size) - 44 ≡ 476
chunk_size e = elim (Bool-cases (is_p2sh e)) [ inl h ↦ rw h | inr h ↦ rw h ]

module _ {Script : Type 0} (compile : List ScriptElement → Script)
    (decompile : Script → List ScriptElement)
    (decompile-compile : (es : List ScriptElement)
      → All IsFaithful es
      → decompile (compile es) ≡ es) where
  read_chunks :
      (hash : Bytes) (cs : List Bytes)
      → length hash ≡ 20
      → All IsByte hash
      → All (IsPush 520) cs
      → All (All IsByte) cs
      → concat
          (map (λ s. leading_push (decompile s)) (map (λ c. compile (redeem_elements hash c)) cs))
        ≡ concat cs
  unfolding leading_push redeem_elements
  read_chunks hash [] h k a b = refl
  read_chunks hash (c ∷ cs) h k a b =
      let hash_push : IsFaithful (push hash) = (IsPush-long hash (omega arith) (omega arith), k) in
      rw (
        decompile-compile (redeem_elements hash c) (
          (a.0, b.0),
          (
            opcode_lem op_drop (omega arith) (omega arith),
            (
              opcode_lem op_dup (omega arith) (omega arith),
              (
                opcode_lem op_hash160 (omega arith) (omega arith),
                (
                  hash_push,
                  (
                    opcode_lem op_equalverify (omega arith) (omega arith),
                    (opcode_lem op_checksig (omega arith) (omega arith), tt),
                  ),
                ),
              ),
            ),
          ),
        ),
        read_chunks hash cs h k a.1 b.1,
      )

  -- Take a compiler of scripts that keeps their elements where each push is a buffer of 1 to 520 bytes,
  -- no minimal opcode, and each opcode is OP_0 or lies from OP_NOP to OP_NOP10. On either encoding, for
  -- every payload of bytes that is not one single byte, and a caller hash of 20 bytes, the P2SH/P2WSH
  -- payload is built, and the data read from the leading pushes of its scripts, in order, is the
  -- payload.
  pub script_hash_payload-read :
      (xs : Bytes) (encoding : Encoding) (hash : Bytes)
      → length xs ≢ 1
      → length hash ≡ 20
      → All IsByte xs
      → All IsByte hash
      → (ss : List Script) × (script_hash_payload compile xs encoding (ok hash) ≡ ok ss)
        × (concat (map (λ s. leading_push (decompile s)) ss) ≡ xs)
  unfolding script_hash_payload
  script_hash_payload-read xs encoding hash h k bytes hash_bytes =
      let p = slice_script_hash_chunks-pushes xs 476 (omega arith) in
      rw (chunk_size encoding) (
        map (λ c. compile (redeem_elements hash c)) (slice_script_hash_chunks xs 476),
        refl,
        read_chunks hash (slice_script_hash_chunks xs 476) k hash_bytes
              (IsPush-mono (slice_script_hash_chunks xs 476) (omega arith) (p.1 h))
              (All-concat (slice_script_hash_chunks xs 476) (subst (All IsByte) (sym p.0) bytes))
            ∙ p.0,
      )

  -- Take a compiler of scripts that keeps their elements where each push is a buffer of 1 to 520 bytes,
  -- no minimal opcode, and each opcode is OP_0 or lies from OP_NOP to OP_NOP10. For every payload of
  -- bytes that is not one single byte and every key of 33 bytes that passes the key check, the TAPROOT
  -- leaf is built; it reads back as the magic word, the format byte 0 and the payload,
  -- and the internal key is the key without its prefix byte.
  pub envelope_payload-read :
      (xs key : Bytes) (valid_key : Bytes → Bool)
      → length xs ≢ 1
      → length key ≡ 33
      → valid_key key ≡ true
      → All IsByte xs
      → All IsByte key
      → (s : Script) × (envelope_payload compile xs (some key) valid_key magic_word
          ≡ ok (s, drop 1 key))
        × (read_envelope (decompile s) ≡ some (magic_word, 0x00 ∷ [], xs))
  unfolding envelope_payload envelope_elements read_envelope
  envelope_payload-read xs key valid_key h k v bytes key_bytes =
      let p = slice_envelope_chunks-pushes xs in
      let cs = slice_envelope_chunks xs in
      let tail = op op_endif ∷ push (drop 1 key) ∷ op op_checksig ∷ [] in
      let key_push : IsFaithful (push (drop 1 key)) = (
        IsPush-long (drop 1 key) (omega (arith, length-drop 1 key))
            (omega (arith, length-drop 1 key)),
        All-drop 1 key key_bytes,
      ) in
      let magic_push : IsFaithful (push magic_word) =
        (IsPush-long magic_word (omega arith) (omega arith), magic_word-bytes) in
      let chunk_bytes = All-concat cs (subst (All IsByte) (sym p.0) bytes) in
      let faithful : All IsFaithful (envelope_elements magic_word (drop 1 key) cs) = (
        inl refl,
        (
          opcode_lem op_if (omega arith) (omega arith),
          (
            magic_push,
            (
              (format-IsPush, (omega arith, tt)),
              All-append IsFaithful (map push cs) tail (Faithful-chunks cs (p.1 h) chunk_bytes) (
                opcode_lem op_endif (omega arith) (omega arith),
                (key_push, (opcode_lem op_checksig (omega arith) (omega arith), tt)),
              ),
            ),
          ),
        ),
      ) in
      rw v (
        compile (envelope_elements magic_word (drop 1 key) cs),
        refl,
        rw (
          decompile-compile (envelope_elements magic_word (drop 1 key) cs) faithful,
          read_body-chunks cs (push (drop 1 key) ∷ op op_checksig ∷ []),
          p.0,
        ),
      )

-- With the encoding omitted and the caller's hash resolved the payload is always built: as one
-- OP_RETURN buffer, the magic word and the data, of at most 80 bytes, exactly if that fits, and as
-- P2SH scripts otherwise.
prepare_data-default :
    {Script : Type 0} (compile : List ScriptElement → Script) (valid_key : Bytes → Bool)
    (xs hash : Bytes) (key : Option Bytes)
    → ((length xs ≤ 76)
        × (prepare_data compile valid_key xs none (ok hash) key
            ≡ ok (buffers ((magic_word ++ xs) ∷ []) op_return))
        × (length (magic_word ++ xs) ≤ 80))
      ⊎ ((76 < length xs)
          × (ss : List Script) × (prepare_data compile valid_key xs none (ok hash) key
              ≡ ok (scripts ss p2sh)))
unfolding prepare_data script_hash_payload
prepare_data-default compile valid_key xs hash key =
    elim (Bool-cases (leb (length xs + length magic_word) op_return_size)) [
      | inl fits ↦
          let short : ltb 76 (length xs) ≡ false = ground arith in
          inl (ground arith, rw (fits, short), ground arith)
      | inr long ↦ inr (
        ground arith,
        map (λ c. compile (redeem_elements hash c)) (slice_script_hash_chunks xs 476),
        rw long,
      )
    ]
