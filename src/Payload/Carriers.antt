-- ===== src/Payload/Carriers.antt =====
-- The carriers of src/XChainEncoder/payload_encodings.js and their dispatch, `prepareData` of
-- src/XChainEncoder/payload_preparation.js. The script compiler of bitcoinjs-lib is a parameter;
-- so are the resolved HASH160 of the caller and the curve check of the envelope key.
use xchain_encoder.Base.{
  ℕ, zero, suc, ◌+◌, ◌-◌, Bool, true, false, not, Option, none, some, List, [], ◌∷◌, ◌++◌, map, ltb,
  leb, if◌then◌else◌, length, drop, replicate,
}
use xchain_encoder.Failures.{Result, ok, throw, param_type, param_range, ◌>>=◌, ◌>>◌, throw_if}
use xchain_encoder.Payload.Slices.{Bytes, subarray, slice_script_hash_chunks, slice_envelope_chunks}

pub data Encoding : Type 0 where
  op_return p2sh multisign p2wsh taproot auto : Encoding

abbrev pub op_return_size : ℕ
op_return_size = 80

abbrev pub p2sh_size : ℕ
p2sh_size = 520

abbrev pub pw2sh_size : ℕ
pw2sh_size = 520

abbrev pub multisign_size : ℕ
multisign_size = 69

-- "XCHN".
abbrev pub magic_word : Bytes
magic_word = 0x58 ∷ 0x43 ∷ 0x48 ∷ 0x4e ∷ []

-- An element handed to `bitcoin.script.compile`.
pub data ScriptElement : Type 0 where
  push : Bytes → ScriptElement
  op : ℕ → ScriptElement

abbrev pub op_0 : ℕ
op_0 = 0x00

abbrev pub op_if : ℕ
op_if = 0x63

abbrev pub op_endif : ℕ
op_endif = 0x68

abbrev pub op_drop : ℕ
op_drop = 0x75

abbrev pub op_dup : ℕ
op_dup = 0x76

abbrev pub op_equalverify : ℕ
op_equalverify = 0x88

abbrev pub op_hash160 : ℕ
op_hash160 = 0xa9

abbrev pub op_checksig : ℕ
op_checksig = 0xac

unfoldable pub op_return_payload : Bytes → Bytes → Result (List Bytes)
op_return_payload data' magic =
    let chunks_size = op_return_size - length magic in
    if ltb chunks_size (length data') then throw param_range else ok ((magic ++ data') ∷ [])

-- One MULTISIGN chunk: the magic word, the data, and zeros up to the 64-byte slot.
unfoldable pub multisign_chunk : Bytes → Bytes → Bytes
multisign_chunk magic next =
    let chunk = magic ++ next in
    if ltb (length chunk) 64 then chunk ++ replicate (64 - length chunk) 0 else chunk

unfoldable pub multisign_loop : ℕ → Bytes → Bytes → ℕ → ℕ → List Bytes
unfolding multisign_chunk
multisign_loop zero data' magic size i = []
multisign_loop (suc fuel) data' magic size i =
    let next = subarray data' i (i + size) in
    let rest =
      multisign_chunk magic next ∷ multisign_loop fuel data' magic size (i + length next) in
    if ltb i (length data') then rest else []

unfoldable pub multisign_payload : Bytes → Bytes → List Bytes
unfolding multisign_loop
multisign_payload data' magic =
    multisign_loop (length data') data' magic (multisign_size - length magic - 1 - 1 - 1 - 1 - 1) 0

-- The gate around one chunk: the data is dropped, and a P2PKH spend follows.
unfoldable pub redeem_elements : Bytes → Bytes → List ScriptElement
redeem_elements hash chunk =
    push chunk
    ∷ op op_drop
    ∷ op op_dup
    ∷ op op_hash160
    ∷ push hash
    ∷ op op_equalverify
    ∷ op op_checksig
    ∷ []

unfoldable pub envelope_elements : Bytes → Bytes → List Bytes → List ScriptElement
envelope_elements magic key chunks =
    op op_0
    ∷ op op_if
    ∷ push magic
    ∷ push (0x00 ∷ [])
    ∷ (map push chunks ++ (op op_endif ∷ push key ∷ op op_checksig ∷ []))

abbrev pub is_p2sh : Encoding → Bool
is_p2sh p2sh = true
is_p2sh _ = false

module _ {Script : Type 0} (compile : List ScriptElement → Script) where
  unfoldable pub script_hash_payload : Bytes → Encoding → Result Bytes → Result (List Script)
  unfolding redeem_elements slice_script_hash_chunks
  script_hash_payload data' encoding caller_hash160 = do
    let chunks_size = (if is_p2sh encoding then p2sh_size else pw2sh_size) - 44
    hash ← caller_hash160
    ok (map (λ c. compile (redeem_elements hash c)) (slice_script_hash_chunks data' chunks_size))

  -- The key as its 33 bytes: none is given, or `validateCompressedPubKey` refuses it, or the
  -- envelope's x-only internal key is the 32 bytes after its prefix.
  unfoldable pub envelope_payload :
      Bytes → Option Bytes → (Bytes → Bool) → Bytes → Result (Script × Bytes)
  unfolding envelope_elements slice_envelope_chunks
  envelope_payload data' none valid_key magic = throw param_type
  envelope_payload data' (some compressed_pub_key) valid_key magic = do
    throw_if (not (valid_key compressed_pub_key)) param_type
    let internal_pubkey = drop 1 compressed_pub_key
    ok (
      compile (envelope_elements magic internal_pubkey (slice_envelope_chunks data')),
      internal_pubkey,
    )

-- What `prepareData` returns: the buffers, or the compiled scripts, with the encoding used.
pub data Prepared (Script : Type 0) : Type 0 where
  buffers : List Bytes → Encoding → Prepared Script
  scripts : List Script → Encoding → Prepared Script
  envelope : Script → Bytes → Encoding → Prepared Script

-- An omitted encoding is OP_RETURN where the payload fits one, and P2SH otherwise.
unfoldable pub default_encoding : Bytes → Option Encoding → Encoding
default_encoding data' (some encoding) = encoding
default_encoding data' none =
    if leb (length data' + length magic_word) op_return_size then op_return else p2sh

module _ {Script : Type 0} (compile : List ScriptElement → Script) (valid_key : Bytes → Bool) where
  unfoldable pub dispatch_encoding :
      Bytes → Encoding → Result Bytes → Option Bytes → Result (Prepared Script)
  unfolding op_return_payload script_hash_payload multisign_payload envelope_payload
  dispatch_encoding data' op_return hash key = do
    bs ← op_return_payload data' magic_word
    ok (buffers bs op_return)
  dispatch_encoding data' p2sh hash key = do
    ss ← script_hash_payload compile data' p2sh hash
    ok (scripts ss p2sh)
  dispatch_encoding data' p2wsh hash key = do
    ss ← script_hash_payload compile data' p2wsh hash
    ok (scripts ss p2wsh)
  dispatch_encoding data' multisign hash key =
      ok (buffers (multisign_payload data' magic_word) multisign)
  dispatch_encoding data' taproot hash key = do
    (s, internal_pubkey) ← envelope_payload compile data' key valid_key magic_word
    ok (envelope s internal_pubkey taproot)
  dispatch_encoding data' auto hash key = throw param_type

  unfoldable pub prepare_data :
      Bytes → Option Encoding → Result Bytes → Option Bytes → Result (Prepared Script)
  unfolding default_encoding dispatch_encoding
  prepare_data data' encoding hash key =
      dispatch_encoding data' (default_encoding data' encoding) hash key
