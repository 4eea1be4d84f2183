-- ===== src/Emission/Plan.antt =====
-- What the emission of outputs reads and writes, in src/XChainEncoder/build_transaction/data_outputs.js,
-- and the obfuscation and the curve-point bytes of src/XChainEncoder/payload_preparation.js. The
-- cipher of node's crypto and the scripts of bitcoinjs-lib's payments are parameters.
use xchain_encoder.Base.{
  ℕ, ◌+◌, ◌-◌, ◌*◌, Bool, true, false, Option, none, some, List, [], ◌∷◌, ◌++◌, length, take, drop,
  replicate,
}
use xchain_encoder.Failures.{Result, ok, throw, internal}
use xchain_encoder.Payload.Slices.{Bytes}
use xchain_encoder.Payload.Carriers.{Encoding, p2sh, p2wsh}
use xchain_encoder.Fees.Settlement.{EnvelopeMoney}
use xchain_encoder.Sizes.Reveals.{TxOut}
use xchain_encoder.Sizes.Floor.{Coin, btc, ltc, doge}

-- A caller's output: the script of its address, `none` where it does not parse, and whether it is
-- the protocol fee that the build injected.
pub record Payment : Type 0 where
  pub script : Option Bytes
  pub value : ℕ
  pub is_fee_quote : Bool

pub record Library : Type 0 where
  pub aes_128_ctr : Bytes → Bytes → Bytes → Bytes
  pub embed : Bytes → Bytes
  pub p2sh_output : Bytes → Bytes
  pub p2wsh_output : Bytes → Bytes
  pub p2ms_output : List Bytes → Bytes
  pub p2tr_output : Bytes → Bytes → Bytes

-- The coin and the floors are the network's; the chunks are what `prepareData` made.
pub record Plan : Type 0 where
  pub coin : Option Coin
  pub min_standard_tx_non_witness_size : Option ℕ
  pub dust_amount : ℕ
  pub output_floor : ℕ
  pub payment_output_floor : ℕ
  pub soft_dust_floor : ℕ
  pub final_dust : ℕ
  pub rate : ℕ
  pub encoding : Encoding
  pub chunks : List Bytes
  pub internal_pubkey : Bytes
  pub txid_first_input : Bytes
  pub compressed_pub_key : Bytes
  pub change : Option (Option Bytes)
  pub caller_address : Option Bytes
  pub custom_outputs : List Payment

pub record Prefund : Type 0 where
  pub output_index : ℕ
  pub reveal_size : ℕ
  pub reveal_fee : ℕ

pub record Emission : Type 0 where
  pub outputs : List TxOut
  pub output_satoshis : ℕ
  pub estimated_tx_size : ℕ
  pub reveal_custom_outputs_value : ℕ
  pub reveal_custom_outputs_fee : ℕ
  pub p2sh_reveal_headroom_funded : Bool
  pub reveal_prefund : Option Prefund
  pub envelope : Option EnvelopeMoney

-- The cipher's key and its initial counter are characters of the first input's txid.
unfoldable pub obfuscate : Library → Bytes → Bytes → Bytes
obfuscate library bytes key = library.aes_128_ctr (take 16 key) (take 16 (drop 16 key)) bytes

unfoldable pub data_to_pubkey : Bytes → Bytes
data_to_pubkey bytes = 0x02 ∷ bytes ++ replicate (32 - length bytes) 0x00

-- A bare multisig output's own relay dust; a coin without a rule is refused.
unfoldable pub bare_multisig_relay_dust_for : Option Coin → ℕ → ℕ → Result ℕ
bare_multisig_relay_dust_for none script_length hard_dust_threshold = throw internal
bare_multisig_relay_dust_for (some btc) script_length hard_dust_threshold =
    ok ((8 + 1 + script_length + 148) * 3)
bare_multisig_relay_dust_for (some ltc) script_length hard_dust_threshold =
    ok ((8 + 1 + script_length + 148) * 30)
bare_multisig_relay_dust_for (some doge) script_length hard_dust_threshold = ok hard_dust_threshold

abbrev pub is_p2sh_family : Encoding → Bool
is_p2sh_family p2sh = true
is_p2sh_family p2wsh = true
is_p2sh_family _ = false

-- `addOutput`, with the running total and size.
abbrev pub with_output : Bytes → ℕ → ℕ → Emission → Emission
with_output script value size e = record e {
  outputs = e.outputs ++ record { value = value; script = script } ∷ [];
  output_satoshis = e.output_satoshis + value;
  estimated_tx_size = e.estimated_tx_size + size;
}
