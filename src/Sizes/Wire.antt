-- ===== src/Sizes/Wire.antt =====
-- The wire format of an unsigned transaction, written without the estimators, and the sizes of
-- src/XChainEncoder/size_estimation.js and src/build/tx_size_estimator.js against it.
use xchain_encoder.Base.{
  ℕ, ◌+◌, ◌*◌, ◌/◌, ◌%◌, ◌≤◌, ◌≡◌, refl, sym, ap, ◌∙◌, some, List, [], ◌∷◌, ◌++◌, map, arith, ltb,
  if◌then◌else◌, length, concat, All, length-append,
}
use xchain_encoder.Payload.Slices.{Bytes}
use xchain_encoder.Sizes.Framing.{compact_size_len, compiled_push_size, u16_le, u32_le}
use xchain_encoder.Sizes.Estimator.{estimate_op_return_output, estimate_output_size_for_address}
use xchain_encoder.Sizes.Reveals.{TxIn, TxOut, Tx, stripped_outputs_loop, stripped_tx_size}

abbrev u64_le : ℕ → Bytes
u64_le n = u32_le (n % 4294967296) ++ u32_le (n / 4294967296)

abbrev pub varint : ℕ → Bytes
varint n =
    if ltb n 0xfd
    then n ∷ []
    else if ltb n 0x10000
    then 0xfd ∷ u16_le n
    else if ltb n 0x100000000
    then 0xfe ∷ u32_le n
    else 0xff ∷ u64_le n

-- An input before it is signed: its script is empty.
abbrev serialize_input : TxIn → Bytes
serialize_input i = i.hash ++ (u32_le (i.vout) ++ (varint 0 ++ u32_le (i.sequence)))

unfoldable pub serialize_output : TxOut → Bytes
serialize_output o = u64_le (o.value) ++ (varint (length (o.script)) ++ o.script)

unfoldable pub serialize : Tx → Bytes
unfolding serialize_output
serialize t =
    u32_le (t.version)
    ++ (varint (length (t.tx_inputs))
        ++ (concat (map serialize_input (t.tx_inputs))
            ++ (varint (length (t.tx_outputs))
                ++ (concat (map serialize_output (t.tx_outputs)) ++ u32_le (t.locktime)))))

-- A data push: OP_PUSHBYTES, OP_PUSHDATA1 or OP_PUSHDATA2.
unfoldable pub script_push : Bytes → Bytes
script_push d =
    if ltb (length d) 0x4c
    then length d ∷ d
    else if ltb (length d) 0x100
    then 0x4c ∷ length d ∷ d
    else 0x4d ∷ (u16_le (length d) ++ d)

pub length-varint : (n : ℕ) → length (varint n) ≡ compact_size_len n
unfolding compact_size_len
length-varint n = ground arith

length-script_push : (d : Bytes) → length (script_push d) ≡ compiled_push_size (length d)
unfolding script_push compiled_push_size
length-script_push d = ground arith

length-op_return_script :
    (d : Bytes) → length (0x6a ∷ script_push d) ≡ 1 + compiled_push_size (length d)
length-op_return_script d = omega (arith, length-script_push d)

length-serialize_output :
    (o : TxOut)
    → length (serialize_output o) ≡ 8 + compact_size_len (length (o.script)) + length (o.script)
unfolding serialize_output
length-serialize_output o = omega (
  arith,
  length-append (varint (length (o.script))) (o.script),
  length-varint (length (o.script)),
)

-- The 32-byte hash of an outpoint.
abbrev pub IsOutpoint : TxIn → Type 0
IsOutpoint i = length (i.hash) ≡ 32

inputs_lem :
    (is : List TxIn) → All IsOutpoint is → length (concat (map serialize_input is)) ≡ 41 * length is
inputs_lem [] h = refl
inputs_lem (i ∷ is) (p, h) = omega (
  arith,
  length-append (serialize_input i) (concat (map serialize_input is)),
  length-append (i.hash) (u32_le (i.vout) ++ (varint 0 ++ u32_le (i.sequence))),
  inputs_lem is h,
  p,
)

pub outputs_lem :
    (n : ℕ) (os : List TxOut)
    → stripped_outputs_loop n os ≡ n + length (concat (map serialize_output os))
unfolding stripped_outputs_loop
outputs_lem n [] = omega arith
outputs_lem n (o ∷ os) = omega (
  arith,
  outputs_lem (n + 8 + compact_size_len (length (o.script)) + length (o.script)) os,
  length-append (serialize_output o) (concat (map serialize_output os)),
  length-serialize_output o,
)

-- For every transaction whose outpoints name 32-byte hashes, the stripped size is the number of
-- bytes of its serialization without witnesses.
pub stripped_tx_size-serialize :
    (t : Tx) → All IsOutpoint (t.tx_inputs) → stripped_tx_size t ≡ length (serialize t)
unfolding stripped_tx_size serialize
stripped_tx_size-serialize t h =
    let ins = concat (map serialize_input (t.tx_inputs)) in
    let outs = concat (map serialize_output (t.tx_outputs)) in
    let size =
      8
      + compact_size_len (length (t.tx_inputs))
      + 41 * length (t.tx_inputs)
      + compact_size_len (length (t.tx_outputs)) in
    omega (
      arith,
      outputs_lem size (t.tx_outputs),
      inputs_lem (t.tx_inputs) h,
      length-varint (length (t.tx_inputs)),
      length-varint (length (t.tx_outputs)),
      length-append (varint (length (t.tx_inputs)))
          (ins ++ (varint (length (t.tx_outputs)) ++ (outs ++ u32_le (t.locktime)))),
      length-append ins (varint (length (t.tx_outputs)) ++ (outs ++ u32_le (t.locktime))),
      length-append (varint (length (t.tx_outputs))) (outs ++ u32_le (t.locktime)),
      length-append outs (u32_le (t.locktime)),
    )

-- For data and scripts of at most 65535 bytes, the estimate of an OP_RETURN output is the number of
-- bytes of the output that pushes the data after OP_RETURN, and the estimate for an address is that
-- of the output that pays the address's script, whatever their value.
estimate_output-serialize :
    (value : ℕ) (d script : Bytes)
    → length d ≤ 65531
    → length script ≤ 65535
    → (estimate_op_return_output d
        ≡ length (serialize_output (record { value = value; script = 0x6a ∷ script_push d })))
      × (estimate_output_size_for_address (some (some script))
          ≡ length (serialize_output (record { value = value; script = script })))
unfolding estimate_op_return_output estimate_output_size_for_address compact_size_len
estimate_output-serialize value d script p q = (
  sym (
      length-serialize_output (record { value = value; script = 0x6a ∷ script_push d })
      ∙ ap (λ n. 8 + compact_size_len n + n) (length-op_return_script d)),
  grind (arith, length-serialize_output (record { value = value; script = script })),
)
