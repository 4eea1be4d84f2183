-- ===== src/Payload/Slices.antt =====
-- The two chunk slicers of src/XChainEncoder/payload_encodings.js. A buffer is the list of its
-- bytes. The loop `while (i < data.length)` takes fuel; the length of the data is enough for it.
use xchain_encoder.Base.{
  ℕ, zero, suc, ◌+◌, ◌-◌, Bool, false, ◌&&◌, ◌||◌, List, [], ◌∷◌, ltb, leb, ◌==◌, if◌then◌else◌,
  length, take, drop, set,
}

abbrev pub Bytes : Type 0
Bytes = List ℕ

-- Buffer.subarray(start, end), for start and end within the buffer or beyond it.
abbrev pub subarray : Bytes → ℕ → ℕ → Bytes
subarray data' start end = take (end - start) (drop start data')

abbrev pub byte_at : Bytes → ℕ → ℕ
byte_at [] i = 0
byte_at (b ∷ bs) zero = b
byte_at (b ∷ bs) (suc i) = byte_at bs i

abbrev pub chunk_at : List Bytes → ℕ → Bytes
chunk_at [] i = []
chunk_at (c ∷ cs) zero = c
chunk_at (c ∷ cs) (suc i) = chunk_at cs i

-- The range test shared by the slicers and by `isMinimalOpSingleByte`.
abbrev pub is_minimal_byte : ℕ → Bool
is_minimal_byte b = (leb 1 b && leb b 16) || (b == 129)

unfoldable pub is_minimal_op_single_byte : Bytes → Bool
is_minimal_op_single_byte buf = if length buf == 1 then is_minimal_byte (byte_at buf 0) else false

unfoldable pub slice_loop : ℕ → Bytes → ℕ → ℕ → List Bytes
slice_loop zero data' size i = []
slice_loop (suc fuel) data' size i =
    let next = subarray data' i (i + size) in
    let rest = next ∷ slice_loop fuel data' size (i + length next) in
    if ltb i (length data') then rest else []

-- The repartition of the final two chunks, both re-sliced from the data.
unfoldable pub rebalance : Bytes → List Bytes → List Bytes
rebalance data' chunks =
    let n = length chunks in
    let last = chunk_at chunks (n - 1) in
    let prev_start = length data' - 1 - length (chunk_at chunks (n - 2)) in
    if leb 2 n && ((length last == 1) && is_minimal_byte (byte_at last 0))
    then set (set chunks (n - 2) (subarray data' prev_start (length data' - 2))) (n - 1)
        (drop (length data' - 2) data')
    else chunks

unfoldable pub slice_script_hash_chunks : Bytes → ℕ → List Bytes
unfolding slice_loop rebalance
slice_script_hash_chunks data' chunks_size =
    rebalance data' (slice_loop (length data') data' chunks_size 0)

abbrev pub taproot_envelope_chunk_size : ℕ
taproot_envelope_chunk_size = 520

unfoldable pub slice_envelope_chunks : Bytes → List Bytes
unfolding slice_loop rebalance
slice_envelope_chunks data' =
    rebalance data' (slice_loop (length data') data' taproot_envelope_chunk_size 0)
