-- ===== src/Sizes/Floor.antt =====
-- src/XChainEncoder/build_transaction/stripped_floor.js: the floor that a node puts on a
-- transaction's stripped size. The coin of the network's key is an argument.
use xchain_encoder.Base.{
  ℕ, ◌+◌, Bool, true, false, ◌||◌, Option, none, some, List, [], ◌∷◌, ltb, leb, ◌==◌, if◌then◌else◌,
  length,
}
use xchain_encoder.Failures.{Result, ok, operational, tx_below_min_standard_size, throw_if}
use xchain_encoder.Payload.Slices.{Bytes}
use xchain_encoder.Sizes.Estimator.{estimate_output_size_for_address}
use xchain_encoder.Sizes.Reveals.{Tx, stripped_tx_size}

pub data Coin : Type 0 where
  btc ltc doge : Coin

-- A node of another coin, and of DOGE, has no floor.
unfoldable pub core_stripped_floor : Option Coin → ℕ
core_stripped_floor (some btc) = 65
core_stripped_floor (some ltc) = 82
core_stripped_floor _ = 0

-- What the PSBT says of an input's signing: a `witnessUtxo`, and its redeem script.
pub record Signing : Type 0 where
  pub witness_utxo : Bool
  pub redeem_script : Option Bytes

abbrev pub redeem_push : Option Bytes → ℕ
redeem_push none = 0
redeem_push (some redeem) = 1 + length redeem

unfoldable pub script_sig_lower_bound : Signing → ℕ
script_sig_lower_bound i = if i.witness_utxo then redeem_push (i.redeem_script) else 106

unfoldable pub predicted_loop : ℕ → List Signing → ℕ
unfolding script_sig_lower_bound
predicted_loop size [] = size
predicted_loop size (i ∷ is) = predicted_loop (size + script_sig_lower_bound i) is

unfoldable pub predicted_stripped_size : Tx → List Signing → ℕ → ℕ
unfolding stripped_tx_size predicted_loop
predicted_stripped_size psbt inputs change_output_bytes =
    predicted_loop (stripped_tx_size psbt + change_output_bytes) inputs

-- The build as selected so far; `change` is the change address, by its output script if it parses.
pub record Selection : Type 0 where
  pub psbt : Tx
  pub inputs : List Signing
  pub p2sh_hash : Bool
  pub change : Option (Option Bytes)
  pub output_satoshis : ℕ

-- The bytes of the change output, where there is enough for one.
abbrev pub change_bytes : ℕ → Selection → ℕ → ℕ → ℕ
change_bytes output_floor build input_satoshis selection_fee =
    if leb (output_floor + build.output_satoshis + selection_fee) input_satoshis
    then estimate_output_size_for_address (build.change)
    else 0

abbrev pub no_address : Option (Option Bytes) → Bool
no_address none = true
no_address (some address) = false

unfoldable pub clears_stripped_floor : Option Coin → ℕ → Selection → ℕ → ℕ → Bool
unfolding core_stripped_floor predicted_stripped_size estimate_output_size_for_address
clears_stripped_floor coin output_floor build input_satoshis selection_fee =
    let floor = core_stripped_floor coin in
    if (floor == 0) || (build.p2sh_hash || no_address (build.change))
    then true
    else leb floor (
        predicted_stripped_size (build.psbt) (build.inputs)
          (change_bytes output_floor build input_satoshis selection_fee))

unfoldable pub refuse_under_stripped_floor : Option Coin → Selection → Result (Unit {0})
unfolding core_stripped_floor predicted_stripped_size
refuse_under_stripped_floor coin build =
    let floor = core_stripped_floor coin in
    if (floor == 0) || build.p2sh_hash
    then ok tt
    else throw_if (ltb (predicted_stripped_size (build.psbt) (build.inputs) 0) floor)
        (operational tx_below_min_standard_size)
