-- ===== src/Selection/State.antt =====
-- The state of the selection loop. The loop reads a build's order and writes the rest. A candidate is
-- one of Inputs with its script, its caller's redeem script, the hash of its outpoint, and its
-- value as `parseSatoshiAmount` reads it.
use xchain_encoder.Base.{ℕ, String, Bool, Option, List}
use xchain_encoder.Failures.{Failure}
use xchain_encoder.Payload.Slices.{Bytes}
use xchain_encoder.Payload.Carriers.{ScriptElement, Encoding}
use xchain_encoder.Reservations.State.{Ledger, Encoder}
use xchain_encoder.Sizes.Estimator.{Multisig}
use xchain_encoder.Sizes.Reveals.{TxIn, TxOut, Tx}
use xchain_encoder.Sizes.Floor.{Coin, Signing}
use xchain_encoder.Inputs.Candidates.{Utxo}

abbrev pub max_utxo_count : ℕ
max_utxo_count = 500

abbrev pub max_satoshi_u64 : ℕ
max_satoshi_u64 = 0xffffffffffffffff

pub record Candidate : Type 0 where
  pub utxo : Utxo
  pub hash : Bytes
  pub script : Bytes
  pub redeem_script : Option Bytes

-- What the build has settled before selection. `fee` is whether the caller gave one.
pub record Order : Type 0 where
  pub encoding : Encoding
  pub has_action_payload : Bool
  pub exact_inputs : Bool
  pub supports_segwit : Bool
  pub attach_prev_tx : Bool
  pub fetched_from_tracker : Bool
  pub keys : List Bytes
  pub first_reserved_outpoint : Option String
  pub txid_first_input : Option (List ℕ)
  pub fee : Bool
  pub rate : ℕ
  pub soft_dust_surcharge : ℕ
  pub output_satoshis : ℕ
  pub dust_amount : ℕ
  pub output_floor : ℕ
  pub coin : Option Coin
  pub change : Option (Option Bytes)
  pub sequence : ℕ
  pub psbt : Tx
  pub now : ℕ

-- An input that was added, as the PSBT and the signer see it.
pub record Picked : Type 0 where
  pub candidate : Candidate
  pub tx_in : TxIn
  pub signing : Signing

pub record State : Type 0 where
  pub enc : Encoder
  pub calls : Ledger
  pub picked : List Picked
  pub estimated_tx_size : ℕ
  pub estimated_fee : ℕ
  pub input_satoshis : ℕ
  pub selected_input_count : ℕ
  pub reserved_candidates : ℕ
  pub segwit_marker_counted : Bool
  pub unconfirmed_input_txids : List (List ℕ)

-- A throw leaves the state that `createTransaction` then releases.
pub data Outcome : Type 0 where
  selected : State → Outcome
  refused : Failure → State → Outcome

-- What bitcoinjs-lib and the node compute, and what other builds do to the shared maps while one
-- waits for the node.
pub record World : Type 0 where
  pub decompile : Bytes → Option (List ScriptElement)
  pub p2wpkh_output : Bytes → Option Bytes
  pub p2sh_output : Bytes → Bytes
  pub hash160 : Bytes → Bytes
  pub p2ms : Bytes → Option Multisig
  pub tx_outs : Bytes → Option (List TxOut)
  pub get_transaction_hex : List ℕ → Option Bytes
  pub other_builds : List ℕ → Encoder → Encoder
