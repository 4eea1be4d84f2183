-- ===== src/Sizes/Framing.antt =====
-- `compiledPushSize` and `envelopePushSize` of src/common/validator/action_data_checks.js, and the
-- compactSize varint of src/XChainEncoder/script_amount_helpers.js (whose width is computed once
-- more in src/build/tx_size_estimator.js).
use xchain_encoder.Base.{
  ℕ, ◌+◌, ◌*◌, ◌/◌, ◌%◌, ◌^◌, ◌≤◌, ◌<◌, ◌≡◌, Option, none, some, [], ◌∷◌, ◌++◌, arith, dec_lt, ltb,
  leb, ◌==◌, if◌then◌else◌, length, All,
}
use xchain_encoder.Payload.Slices.{Bytes}

abbrev pub op_return_push_overhead : ℕ
op_return_push_overhead = 3

unfoldable pub compiled_push_size : ℕ → ℕ
compiled_push_size n =
    if leb n 75 then n + 1 else if leb n 255 then n + 2 else n + op_return_push_overhead

unfoldable pub envelope_push_size : ℕ → ℕ
unfolding compiled_push_size
envelope_push_size n = compiled_push_size n + (if ltb 0xffff n then 2 else 0)

unfoldable pub compact_size_len : ℕ → ℕ
compact_size_len n =
    if ltb n 253 then 1 else if leb n 0xffff then 3 else if leb n 0xffffffff then 5 else 9

-- `writeUInt16LE` and `writeUInt32LE`.
abbrev pub u16_le : ℕ → Bytes
u16_le n = (n % 256) ∷ (n / 256) ∷ []

abbrev pub u32_le : ℕ → Bytes
u32_le n = (n % 256) ∷ (n / 256 % 256) ∷ (n / 65536 % 256) ∷ (n / 16777216) ∷ []

-- `none` is the RangeError of `writeUInt32LE`.
unfoldable pub compact_size_buffer : ℕ → Option Bytes
compact_size_buffer n =
    if ltb n 253
    then some (n ∷ [])
    else if leb n 0xffff
    then some (0xfd ∷ u16_le n)
    else if leb n 0xffffffff
    then some (0xfe ∷ u32_le n)
    else none

-- A reader of the wire format, written without the encoder.
abbrev read_u16 : Bytes → Option (ℕ × Bytes)
read_u16 (c ∷ d ∷ rest) = some (c + 256 * d, rest)
read_u16 _ = none

abbrev read_u32 : Bytes → Option (ℕ × Bytes)
read_u32 (c ∷ d ∷ e ∷ f ∷ rest) = some (c + 256 * d + 65536 * e + 16777216 * f, rest)
read_u32 _ = none

-- Eight-byte lengths do not occur.
unfoldable pub read_compact_size : Bytes → Option (ℕ × Bytes)
read_compact_size [] = none
read_compact_size (b ∷ rest) =
    if b == 0xfd
    then read_u16 rest
    else if b == 0xfe
    then read_u32 rest
    else if b == 0xff
    then none
    else some (b, rest)

-- Every number below 2^32 is written, in as many bytes as `compactSizeLen` says, each of them below
-- 256, and reads back with whatever follows it untouched; every larger number is refused.
compact_size_buffer-read :
    (n : ℕ) (rest : Bytes)
    → (n < 2 ^ 32
        → (bs : Bytes) × (compact_size_buffer n ≡ some bs)
          × (length bs ≡ compact_size_len n)
          × All (λ b. b < 256) bs
          × (read_compact_size (bs ++ rest) ≡ some (n, rest)))
      × (2 ^ 32 ≤ n → compact_size_buffer n ≡ none)
unfolding compact_size_buffer compact_size_len read_compact_size
compact_size_buffer-read n rest = (
  (λ h. elim (dec_lt n 253) [
    | yes small ↦ (n ∷ [], ground arith, ground arith, (omega arith, tt), ground arith)
    | no more ↦ elim (dec_lt n 65536) [
      | yes mid ↦ (0xfd ∷ u16_le n, ground arith, ground arith, omega arith, ground arith)
      | no large ↦ (0xfe ∷ u32_le n, ground arith, ground arith, omega arith, ground arith)
    ]
  ]),
  (λ h. ground arith),
)
