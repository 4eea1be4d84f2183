-- ===== src/Selection/Scripts.antt =====
-- Which kind of input a candidate is: `isSegwitUTXO` of src/XChainEncoder/payload_preparation.js, and
-- nested_segwit.js and legacy_p2sh.js of src/XChainEncoder/build_transaction. What bitcoinjs-lib
-- computes is a parameter: the elements of a script, HASH160, and the output scripts of payments.
use xchain_encoder.Base.{
  Bool, false, not, ◌&&◌, ◌||◌, Option, none, some, List, [], ◌∷◌, leb, ◌==◌, if◌then◌else◌, length,
}
use xchain_encoder.Payload.Slices.{Bytes, subarray, byte_at}
use xchain_encoder.Payload.Carriers.{ScriptElement, push, op}
use xchain_encoder.Sizes.Estimator.{bytes_eq}

-- [version opcode][2..40 byte push].
abbrev pub is_witness_program : List ScriptElement → Bool
is_witness_program (op version ∷ push program ∷ []) =
    ((version == 0x00) || (leb 0x51 version && leb version 0x60))
    && (leb 2 (length program) && leb (length program) 40)
is_witness_program _ = false

unfoldable pub is_segwit_utxo : (Bytes → Option (List ScriptElement)) → Bytes → Bool
is_segwit_utxo decompile script = elim (decompile script) [
  | none ↦ false
  | some elements ↦ is_witness_program elements
]

-- OP_HASH160 <20> OP_EQUAL.
unfoldable pub is_p2sh_script : Bytes → Bool
is_p2sh_script script =
    (length script == 23)
    && ((byte_at script 0 == 0xa9) && ((byte_at script 1 == 0x14) && (byte_at script 22 == 0x87)))

-- The keys of the request that are hex, decoded.
abbrev pub is_compressed_pubkey : Bytes → Bool
is_compressed_pubkey key = (length key == 33) && (leb 2 (byte_at key 0) && leb (byte_at key 0) 3)

abbrev pub opens : (Bytes → Bytes) → Bytes → Option Bytes → Bool
opens p2sh_output script none = false
opens p2sh_output script (some redeem) = bytes_eq (p2sh_output redeem) script

module _ (p2wpkh_output : Bytes → Option Bytes) (p2sh_output : Bytes → Bytes) where
  -- The first compressed key whose P2WPKH script opens the output.
  unfoldable pub redeem_loop : Bytes → List Bytes → Option Bytes
  unfolding bytes_eq
  redeem_loop script [] = none
  redeem_loop script (key ∷ keys) =
      let rest = redeem_loop script keys in
      if is_compressed_pubkey key && opens p2sh_output script (p2wpkh_output key)
      then p2wpkh_output key
      else rest

  unfoldable pub nested_p2wpkh_redeem : Bool → List Bytes → Bytes → Option Bytes
  unfolding redeem_loop is_p2sh_script
  nested_p2wpkh_redeem supports_segwit keys script =
      if not supports_segwit || not (is_p2sh_script script) then none else redeem_loop script keys

-- The caller's redeem script, decoded; `none` for one that is no hex.
unfoldable pub matching_legacy_redeem_script : (Bytes → Bytes) → Option Bytes → Bytes → Option Bytes
unfolding is_p2sh_script bytes_eq
matching_legacy_redeem_script hash160 none script = none
matching_legacy_redeem_script hash160 (some redeem) script =
    if is_p2sh_script script && bytes_eq (hash160 redeem) (subarray script 2 22)
    then some redeem
    else none
