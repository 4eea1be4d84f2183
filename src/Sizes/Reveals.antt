-- ===== src/Sizes/Reveals.antt =====
-- src/XChainEncoder/size_estimation.js: the choice of an encoding by size, the stripped size of a
-- transaction, and the size of the reveals, for each leg alone and for the whole transaction. A
-- network is its Segwit support and its floor on stripped sizes (`none` where the floor is not set).
use xchain_encoder.Base.{
  ℕ, ◌+◌, ◌*◌, max, Bool, Option, none, some, List, [], ◌∷◌, ◌++◌, ltb, leb, if◌then◌else◌, length,
}
use xchain_encoder.Payload.Slices.{Bytes}
use xchain_encoder.Payload.Carriers.{
  Encoding, op_return, p2sh, p2wsh, taproot, op_return_size, magic_word,
}
use xchain_encoder.Sizes.Framing.{compact_size_len}
use xchain_encoder.Sizes.Estimator.{
  estimate_p2sh_input_with_redeem, estimate_op_return_output, ceil_quarter, floored,
}

-- The envelope needs a key and a signer that affirmed tapscript.
abbrev pub segwit_lane : Option Bytes → Bool → Encoding
segwit_lane none tapscript_signer = p2wsh
segwit_lane (some key) tapscript_signer = if tapscript_signer then taproot else p2wsh

-- `supports_segwit` is `network.supportsSegwit !== false`.
unfoldable pub select_encoding : Bool → ℕ → Option Bytes → Bool → Encoding
select_encoding supports_segwit compiled_length compressed_pub_key tapscript_signer =
    let magic_bytes = length magic_word in
    if leb (compiled_length + magic_bytes) op_return_size
    then op_return
    else if supports_segwit
    then segwit_lane compressed_pub_key tapscript_signer
    else p2sh

-- An unsigned transaction: the outpoint and sequence of an input, the value and script of an output.
pub record TxIn : Type 0 where
  pub hash : Bytes
  pub vout : ℕ
  pub sequence : ℕ

pub record TxOut : Type 0 where
  pub value : ℕ
  pub script : Bytes

pub record Tx : Type 0 where
  pub version : ℕ
  pub tx_inputs : List TxIn
  pub tx_outputs : List TxOut
  pub locktime : ℕ

unfoldable pub stripped_outputs_loop : ℕ → List TxOut → ℕ
unfolding compact_size_len
stripped_outputs_loop size [] = size
stripped_outputs_loop size (out ∷ outs) =
    stripped_outputs_loop (size + 8 + compact_size_len (length (out.script)) + length (out.script))
      outs

unfoldable pub stripped_tx_size : Tx → ℕ
unfolding stripped_outputs_loop compact_size_len
stripped_tx_size psbt =
    let size = 4 + 4 in
    let size = size + compact_size_len (length (psbt.tx_inputs)) + 41 * length (psbt.tx_inputs) in
    let size = size + compact_size_len (length (psbt.tx_outputs)) in
    stripped_outputs_loop size (psbt.tx_outputs)

-- The data of the marker outputs: the magic word, then "p2sh" or "p2wsh".
abbrev pub p2sh_marker : Bytes
p2sh_marker = magic_word ++ (0x70 ∷ 0x32 ∷ 0x73 ∷ 0x68 ∷ [])

abbrev pub p2wsh_marker : Bytes
p2wsh_marker = magic_word ++ (0x70 ∷ 0x32 ∷ 0x77 ∷ 0x73 ∷ 0x68 ∷ [])

unfoldable pub estimate_spending_p2sh_tx : Bytes → ℕ
unfolding estimate_p2sh_input_with_redeem estimate_op_return_output
estimate_spending_p2sh_tx redeem_data =
    10 + estimate_p2sh_input_with_redeem redeem_data + estimate_op_return_output p2sh_marker + 8

unfoldable pub p2sh_inputs_loop : ℕ → List Bytes → ℕ
unfolding estimate_p2sh_input_with_redeem
p2sh_inputs_loop inputs_bytes [] = inputs_bytes
p2sh_inputs_loop inputs_bytes (redeem_data ∷ rest) =
    p2sh_inputs_loop (inputs_bytes + estimate_p2sh_input_with_redeem redeem_data + 8) rest

unfoldable pub estimate_p2sh_reveal_tx : List Bytes → ℕ → ℕ
unfolding p2sh_inputs_loop estimate_op_return_output
estimate_p2sh_reveal_tx data_buffer_array extra_outputs_bytes =
    10
    + p2sh_inputs_loop 0 data_buffer_array
    + estimate_op_return_output p2sh_marker
    + extra_outputs_bytes

-- The pad output charged to a leg under the floor.
abbrev pub padded : ℕ → ℕ → Option ℕ → ℕ
padded bytes pad none = bytes
padded bytes pad (some floor) = if ltb bytes floor then max (bytes + pad) floor else bytes

unfoldable pub p2wsh_witness_loop : ℕ → List Bytes → ℕ
unfolding compact_size_len
p2wsh_witness_loop witness_bytes [] = witness_bytes
p2wsh_witness_loop witness_bytes (witness_data ∷ rest) =
    p2wsh_witness_loop
      (witness_bytes
        + 1
        + (1 + 72)
        + (1 + 33)
        + compact_size_len (length witness_data)
        + length witness_data)
      rest

module _ (min_standard_tx_non_witness_size : Option ℕ) where
  unfoldable pub estimate_spending_p2wsh_tx : Bytes → ℕ → ℕ
  unfolding estimate_op_return_output compact_size_len
  estimate_spending_p2wsh_tx witness_data pad_output_bytes =
      let witness_script_prefix = compact_size_len (length witness_data) in
      let witness_bytes =
        2 + 1 + (1 + 72) + (1 + 33) + (witness_script_prefix + length witness_data) in
      let non_witness_bytes = 10 + (36 + 1 + 4) + estimate_op_return_output p2wsh_marker in
      padded non_witness_bytes pad_output_bytes min_standard_tx_non_witness_size
      + ceil_quarter witness_bytes
      + 8

  unfoldable pub estimate_p2wsh_reveal_tx : List Bytes → ℕ → ℕ
  unfolding p2wsh_witness_loop estimate_op_return_output
  estimate_p2wsh_reveal_tx data_buffer_array extra_outputs_bytes =
      let witness_bytes = p2wsh_witness_loop 2 data_buffer_array in
      let non_witness_bytes =
        10
        + (36 + 1 + 4) * length data_buffer_array
        + estimate_op_return_output p2wsh_marker
        + extra_outputs_bytes in
      floored non_witness_bytes min_standard_tx_non_witness_size + ceil_quarter witness_bytes + 8
