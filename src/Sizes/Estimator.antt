-- ===== src/Sizes/Estimator.antt =====
-- The estimators of src/build/tx_size_estimator.js. A script is its bytes, so the tests on its hex
-- are tests on its first and last bytes. What bitcoinjs-lib decodes is a parameter: the p2ms payment
-- of a redeem script, HASH160, and the output scripts of a serialized transaction.
use xchain_encoder.Base.{
  ℕ, ◌+◌, ◌-◌, ◌*◌, ◌/◌, Bool, true, false, not, ◌&&◌, ◌||◌, Option, none, some, List, [], ◌∷◌, ltb,
  leb, ◌==◌, if◌then◌else◌, length, get_elem?, take, drop,
}
use xchain_encoder.Payload.Slices.{Bytes, subarray}
use xchain_encoder.Sizes.Framing.{compiled_push_size, compact_size_len}

-- `bitcoin.payments.p2ms({ output })`: m, n and the public keys.
pub record Multisig : Type 0 where
  pub m : ℕ
  pub n : ℕ
  pub pubkeys : List Bytes

unfoldable pub pushed_sizes : List Bytes → ℕ
unfolding compiled_push_size
pushed_sizes [] = 0
pushed_sizes (k ∷ ks) = compiled_push_size (length k) + pushed_sizes ks

-- The input's size from its parsed redeem script; `none` where the code returns null.
unfoldable pub multisig_input_size : Bytes → Multisig → Option ℕ
unfolding compiled_push_size compact_size_len pushed_sizes
multisig_input_size redeem_script ms =
    let redeem_script_length = 3 + pushed_sizes (ms.pubkeys) in
    let redeem_push_prefix = compiled_push_size redeem_script_length - redeem_script_length in
    let script_sig_length =
      1 + ms.m * compiled_push_size 73 + redeem_push_prefix + redeem_script_length in
    if ltb (ms.m) 1 || ltb (ms.n) (ms.m) || not (length (ms.pubkeys) == ms.n)
    then none
    else if not (redeem_script_length == length redeem_script)
    then none
    else some (40 + compact_size_len script_sig_length + script_sig_length)

-- `p2ms` throws on what is no multisig script.
unfoldable pub legacy_p2sh_multisig_input_size : (Bytes → Option Multisig) → Bytes → Option ℕ
unfolding multisig_input_size
legacy_p2sh_multisig_input_size p2ms redeem_script = elim (p2ms redeem_script) [
  | none ↦ none
  | some ms ↦ multisig_input_size redeem_script ms
]

unfoldable pub bytes_eq : Bytes → Bytes → Bool
bytes_eq [] [] = true
bytes_eq (a ∷ as') (b ∷ bs) = a == b && bytes_eq as' bs
bytes_eq _ _ = false

abbrev pub starts_with : Bytes → Bytes → Bool
starts_with p xs = bytes_eq (take (length p) xs) p

abbrev pub ends_with : Bytes → Bytes → Bool
ends_with p xs = leb (length p) (length xs) && bytes_eq (drop (length xs - length p) xs) p

abbrev pub size_or {ℓ} : {A : Type ℓ} → Option A → A → A
size_or none d = d
size_or (some x) d = x

-- A PSBT input as the estimator reads it.
pub record PsbtInput : Type 0 where
  pub witness_script : Option Bytes
  pub non_witness_utxo : Option Bytes
  pub index : ℕ
  pub redeem_script : Option Bytes

module _ (p2ms : Bytes → Option Multisig) (hash160 : Bytes → Bytes) where
  -- The P2SH branch: a matching redeem script with a size, or the fallback.
  unfoldable pub p2sh_input_size : Bytes → Option Bytes → ℕ
  unfolding legacy_p2sh_multisig_input_size bytes_eq
  p2sh_input_size script none = 289
  p2sh_input_size script (some redeem) =
      if (length script == 23) && bytes_eq (hash160 redeem) (subarray script 2 22)
      then size_or (legacy_p2sh_multisig_input_size p2ms redeem) 289
      else 289

  unfoldable pub legacy_input_size : Bytes → Option Bytes → ℕ
  unfolding p2sh_input_size bytes_eq
  legacy_input_size script redeem =
      if starts_with (0x76 ∷ 0xa9 ∷ 0x14 ∷ []) script && ends_with (0x88 ∷ 0xac ∷ []) script
      then 180
      else if starts_with (0xa9 ∷ 0x14 ∷ []) script && ends_with (0x87 ∷ []) script
      then p2sh_input_size script redeem
      else 350

  unfoldable pub input_size_for_script : Bytes → Bool → Option Bytes → ℕ
  unfolding legacy_input_size bytes_eq
  input_size_for_script script is_segwit redeem =
      if is_segwit && starts_with (0x00 ∷ 0x14 ∷ []) script
      then 68
      else if is_segwit && starts_with (0x00 ∷ 0x20 ∷ []) script
      then 105
      else if is_segwit
          && ((length script == 23)
              && (starts_with (0xa9 ∷ 0x14 ∷ []) script && ends_with (0x87 ∷ []) script))
      then 91
      else if is_segwit && starts_with (0x51 ∷ 0x20 ∷ []) script
      then 58
      else legacy_input_size script redeem

  -- The output's script of a decoded previous transaction; `none` where it did not decode.
  unfoldable pub decoded_input_size : Option (List Bytes) → ℕ → Option Bytes → ℕ
  unfolding input_size_for_script
  decoded_input_size none index redeem = 350
  decoded_input_size (some outs) index redeem = elim (get_elem? outs index) [
    | none ↦ 180
    | some script ↦ input_size_for_script script false redeem
  ]

  unfoldable pub estimate_input_size : (Bytes → Option (List Bytes)) → PsbtInput → ℕ
  unfolding input_size_for_script decoded_input_size
  estimate_input_size tx_outs utxo = elim (utxo.witness_script) [
    | some script ↦ input_size_for_script script true (utxo.redeem_script)
    | none ↦ elim (utxo.non_witness_utxo) [
      | some tx ↦ decoded_input_size (tx_outs tx) (utxo.index) (utxo.redeem_script)
      | none ↦ 350
    ]
  ]

unfoldable pub estimate_op_return_output : Bytes → ℕ
unfolding compiled_push_size compact_size_len
estimate_op_return_output data' =
    let script_length = 1 + compiled_push_size (length data') in
    8 + compact_size_len script_length + script_length

abbrev pub estimate_p2sh_output : ℕ
estimate_p2sh_output = 32

abbrev pub estimate_p2wsh_output : ℕ
estimate_p2wsh_output = 43

abbrev pub estimate_taproot_output : ℕ
estimate_taproot_output = 43

abbrev pub estimate_multisign_output : ℕ
estimate_multisign_output = 114

-- `none` for no address; the output script of an address, or `none` where it does not parse.
unfoldable pub estimate_output_size_for_address : Option (Option Bytes) → ℕ
estimate_output_size_for_address none = 43
estimate_output_size_for_address (some none) = 43
estimate_output_size_for_address (some (some script)) =
    8 + (if ltb (length script) 0xfd then 1 else 3) + length script

-- Math.ceil(n / 4).
abbrev pub ceil_quarter : ℕ → ℕ
ceil_quarter n = (n + 3) / 4

-- `if (strippedFloor && bytes < strippedFloor) bytes = strippedFloor`.
abbrev pub floored : ℕ → Option ℕ → ℕ
floored bytes none = bytes
floored bytes (some floor) = if ltb bytes floor then floor else bytes

unfoldable pub estimate_envelope_reveal_tx : ℕ → ℕ → Option ℕ → ℕ
unfolding compact_size_len
estimate_envelope_reveal_tx envelope_script_length outputs_bytes stripped_floor =
    let witness_bytes =
      2
      + 1
      + (1 + 65)
      + (compact_size_len envelope_script_length + envelope_script_length)
      + (1 + 33) in
    let non_witness_bytes = 10 + (36 + 1 + 4) + outputs_bytes in
    floored non_witness_bytes stripped_floor + ceil_quarter witness_bytes + 2

unfoldable pub estimate_p2sh_input_with_redeem : Bytes → ℕ
unfolding compiled_push_size
estimate_p2sh_input_with_redeem redeem =
    let sig_push : ℕ = 1 + 72 in
    let pubkey_push : ℕ = 1 + 33 in
    let redeem_push = compiled_push_size (length redeem) - length redeem in
    let script_sig = sig_push + pubkey_push + redeem_push + length redeem in
    let script_varint = if ltb script_sig 253 then 1 else 3 in 40 + script_varint + script_sig
