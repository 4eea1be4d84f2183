-- ===== src/Sizes/Choice.antt =====
-- `selectEncoding` of src/XChainEncoder/size_estimation.js.
use xchain_encoder.Base.{
  ◌<◌, ◌≡◌, ◌≢◌, ◌⊎◌, Bool, true, false, Option, none, [], ◌∷◌, ◌++◌, arith, length,
}
use xchain_encoder.Payload.Slices.{Bytes}
use xchain_encoder.Failures.{ok}
use xchain_encoder.Payload.Carriers.{
  op_return, p2sh, p2wsh, taproot, multisign, auto, magic_word, op_return_payload,
}
use xchain_encoder.Sizes.Reveals.{select_encoding}

-- For every network, stream, key and signer, the chosen encoding is one of four: OP_RETURN, and
-- then the stream is one that `opReturnPayload` accepts; P2SH, on a network without Segwit; P2WSH
-- on one with Segwit, where the key is missing or the signer did not affirm tapscript; or TAPROOT
-- on one with Segwit, with a key and a signer that did. In the last three the stream is one that
-- OP_RETURN has no room for. It is never MULTISIGN and never AUTO.
select_encoding-lanes :
    (segwit : Bool) (stream : Bytes) (key : Option Bytes) (signer : Bool)
    → (select_encoding segwit (length stream) key signer ≢ multisign)
      × (select_encoding segwit (length stream) key signer ≢ auto)
      × (select_encoding segwit (length stream) key signer ≡ op_return
          → op_return_payload stream magic_word ≡ ok ((magic_word ++ stream) ∷ []))
      × (select_encoding segwit (length stream) key signer ≢ op_return → 76 < length stream)
      × (select_encoding segwit (length stream) key signer ≡ p2sh → segwit ≡ false)
      × (select_encoding segwit (length stream) key signer ≡ p2wsh
          → (segwit ≡ true) × ((key ≡ none) ⊎ (signer ≡ false)))
      × (select_encoding segwit (length stream) key signer ≡ taproot
          → (segwit ≡ true) × (signer ≡ true) × (key ≢ none))
unfolding select_encoding op_return_payload
select_encoding-lanes segwit stream key signer = (
  ground arith,
  ground arith,
  ground arith,
  ground arith,
  ground arith,
  ground arith,
  ground arith,
)
