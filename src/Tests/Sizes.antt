-- ===== src/Tests/Sizes.antt =====
-- The sizes of small scripts and transactions.
use xchain_encoder.Base.{◌≡◌, refl, false, none, List, [], ◌∷◌, length, replicate}
use xchain_encoder.Payload.Slices.{Bytes}
use xchain_encoder.Sizes.Reveals.{Tx, stripped_tx_size}
use xchain_encoder.Sizes.Wire.{serialize, stripped_tx_size-serialize}
use xchain_encoder.Sizes.Floor.{Selection}

abbrev spend : Tx
spend = record {
  version = 2;
  tx_inputs = record { hash = replicate 32 1; vout = 0; sequence = 4294967295 } ∷ [];
  tx_outputs = record { value = 546; script = replicate 22 9 } ∷ [];
  locktime = 0;
}

stripped_tx_size-serialize_example : stripped_tx_size spend ≡ length (serialize spend)
stripped_tx_size-serialize_example = stripped_tx_size-serialize spend (refl, tt)

abbrev legs : List Bytes
legs = replicate 80 1 ∷ replicate 300 2 ∷ []

-- The spend of one legacy input on a chain whose nodes want 65 bytes.
abbrev legacy_spend : Selection
legacy_spend = record {
  psbt = spend;
  inputs = record { witness_utxo = false; redeem_script = none } ∷ [];
  p2sh_hash = false;
  change = none;
  output_satoshis = 546;
}

abbrev legacy_script : Bytes
legacy_script = replicate 107 5
