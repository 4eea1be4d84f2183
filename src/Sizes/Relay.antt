-- ===== src/Sizes/Relay.antt =====
-- The stripped size of the signed transaction on the wire, against the prediction of src/
-- XChainEncoder/build_transaction/stripped_floor.js.
use xchain_encoder.Base.{◌≤◌, List, [], ◌∷◌, ◌++◌, map, length, concat}
use xchain_encoder.Payload.Slices.{Bytes}
use xchain_encoder.Sizes.Framing.{u32_le}
use xchain_encoder.Sizes.Reveals.{TxIn, Tx}
use xchain_encoder.Sizes.Wire.{serialize_output, varint}
use xchain_encoder.Sizes.Floor.{Signing, script_sig_lower_bound}

-- An input with its script.
abbrev serialize_signed_input : TxIn → Bytes → Bytes
serialize_signed_input i script =
    i.hash ++ (u32_le (i.vout) ++ (varint (length script) ++ (script ++ u32_le (i.sequence))))

unfoldable pub signed_inputs : List TxIn → List Bytes → Bytes
signed_inputs (i ∷ is) (s ∷ ss) = serialize_signed_input i s ++ signed_inputs is ss
signed_inputs _ _ = []

-- The transaction without its witnesses, with a script for each input.
unfoldable pub serialize_signed : Tx → List Bytes → Bytes
unfolding serialize_output signed_inputs
serialize_signed t scripts =
    u32_le (t.version)
    ++ (varint (length (t.tx_inputs))
        ++ (signed_inputs (t.tx_inputs) scripts
            ++ (varint (length (t.tx_outputs))
                ++ (concat (map serialize_output (t.tx_outputs)) ++ u32_le (t.locktime)))))

-- A script for each input, of at least the bytes that its signing needs.
abbrev pub AreSigned : List Signing → List TxIn → List Bytes → Type 0
AreSigned (g ∷ gs) (i ∷ is) (s ∷ ss) = (script_sig_lower_bound g ≤ length s) × AreSigned gs is ss
AreSigned [] [] [] = Unit
AreSigned _ _ _ = ⊥
