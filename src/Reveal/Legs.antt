-- ===== src/Reveal/Legs.antt =====
-- The inputs of a reveal: `parseFundingTx`, `emitP2shChunk`, `emitP2wshChunk`, `spendP2shLeg`,
-- `spendP2wshLeg` and `assertLegFundsScript` of
-- src/XChainEncoder/build_transaction/script_hash_legs.js, and `assertRevealFundingTxMatches` of
-- src/XChainEncoder/request_resolution.js. What bitcoinjs-lib decodes is a parameter.
use xchain_encoder.Base.{
  ℕ, ◌+◌, not, ◌&&◌, Option, none, some, List, [], ◌∷◌, ◌++◌, map, leb, if◌then◌else◌, get_elem?,
}
use xchain_encoder.Failures.{
  Result, ok, throw, internal, param_type, param_range, throw_if, ◌>>=◌, ◌>>◌,
}
use xchain_encoder.Payload.Slices.{Bytes}
use xchain_encoder.Payload.Carriers.{Encoding, p2sh, p2wsh}
use xchain_encoder.Sizes.Estimator.{
  Multisig, PsbtInput, bytes_eq, estimate_input_size, estimate_op_return_output,
}
use xchain_encoder.Sizes.Reveals.{TxOut, p2sh_marker, p2wsh_marker}
use xchain_encoder.Emission.Plan.{Library, obfuscate}

-- A decoded funding transaction: the characters of its id, and its outputs.
pub record FundingTx : Type 0 where
  pub txid : Bytes
  pub legs : List TxOut

-- `Transaction.fromHex`, the p2ms payment of a redeem script, and HASH160.
pub record Reading : Type 0 where
  pub from_hex : Bytes → Option FundingTx
  pub p2ms : Bytes → Option Multisig
  pub hash160 : Bytes → Bytes

-- `p2sh_hash` is not empty, which is what makes a build a reveal; `p2sh_hex` is the bytes that the hex spells, `none` where it is missing or empty.
pub record Request : Type 0 where
  pub p2sh_hash : Bytes
  pub p2sh_hex : Option Bytes
  pub utxo_sequence : ℕ

-- An input of the reveal: its outpoint, the chunk's script and the value of the leg.
pub record LegInput : Type 0 where
  pub hash : Bytes
  pub vout : ℕ
  pub sequence : ℕ
  pub script : Bytes
  pub value : ℕ

pub record Psbt : Type 0 where
  pub leg_inputs : List LegInput
  pub outs : List TxOut

pub record Spending : Type 0 where
  pub psbt : Option Psbt
  pub p2sh_tx : Option FundingTx
  pub txid_first_input : Bytes
  pub estimated_tx_size : ℕ
  pub phase_leg_input_satoshis : ℕ
  pub vout_psbt_index : ℕ

abbrev pub init_spending : Spending
init_spending = record {
  psbt = none;
  p2sh_tx = none;
  txid_first_input = [];
  estimated_tx_size = 10;
  phase_leg_input_satoshis = 0;
  vout_psbt_index = 0;
}

-- `toLowerCase` of a text of ASCII characters.
unfoldable pub to_lower_case : Bytes → Bytes
to_lower_case [] = []
to_lower_case (c ∷ cs) = (if leb 65 c && leb c 90 then c + 32 else c) ∷ to_lower_case cs

unfoldable pub assert_reveal_funding_tx_matches : Bytes → Bytes → Result (Unit {0})
unfolding to_lower_case bytes_eq
assert_reveal_funding_tx_matches p2sh_hash funding_txid =
    throw_if (not (bytes_eq (to_lower_case p2sh_hash) (to_lower_case funding_txid))) param_type

unfoldable pub parse_funding_tx : Option FundingTx → Result FundingTx
parse_funding_tx none = throw param_type
parse_funding_tx (some tx) = ok tx

-- The psbt of the reveal, begun with the marker's output.
abbrev pub begin_psbt : Bytes → Option Psbt → Psbt
begin_psbt marker_script none = record {
  leg_inputs = [];
  outs = record { value = 0; script = marker_script } ∷ [];
}
begin_psbt marker_script (some psbt) = psbt

-- A P2SH reveal counts the bytes of its marker; a P2WSH reveal does not.
abbrev pub marker_size : ℕ → Option Psbt → ℕ
marker_size size none = size
marker_size size (some psbt) = 0

module _ (library : Library) (reading : Reading) (request : Request) where
  -- Decoded once, where the hex is given.
  unfoldable pub read_funding_tx : Option FundingTx → Option Bytes → Spending → Result Spending
  unfolding assert_reveal_funding_tx_matches parse_funding_tx
  read_funding_tx (some tx) hex s = ok s
  read_funding_tx none none s = ok s
  read_funding_tx none (some hex) s = parse_funding_tx (reading.from_hex hex) >>= λ tx.
      assert_reveal_funding_tx_matches (request.p2sh_hash) (tx.txid)
      >> ok (record s { p2sh_tx = some tx; txid_first_input = tx.txid })

  unfoldable pub leg_at : Option FundingTx → ℕ → Option TxOut
  leg_at none vout = none
  leg_at (some tx) vout = get_elem? (tx.legs) vout

  -- The leg, whose script is the chunk's own.
  unfoldable pub assert_leg_funds_script : Option TxOut → Bytes → Result TxOut
  unfolding bytes_eq
  assert_leg_funds_script none expected = throw param_range
  assert_leg_funds_script (some leg) expected =
      throw_if (not (bytes_eq (leg.script) expected)) param_range >> ok leg

  -- The outputs' scripts of a decoded transaction.
  abbrev pub scripts_of : Option FundingTx → Option (List Bytes)
  scripts_of none = none
  scripts_of (some tx) = some (map (λ o. o.script) (tx.legs))

  unfoldable pub input_bytes : PsbtInput → ℕ
  unfolding estimate_input_size
  input_bytes =
      estimate_input_size (reading.p2ms) (reading.hash160) (λ tx. scripts_of (reading.from_hex tx))

  abbrev pub with_leg : Psbt → Bytes → TxOut → ℕ → Spending → Spending
  with_leg psbt chunk leg size s = record s {
    psbt = some (record psbt {
      leg_inputs =
          psbt.leg_inputs
          ++ record {
            hash = request.p2sh_hash;
            vout = s.vout_psbt_index;
            sequence = request.utxo_sequence;
            script = chunk;
            value = leg.value;
          }
            ∷ [];
    });
    estimated_tx_size = size;
    phase_leg_input_satoshis = s.phase_leg_input_satoshis + leg.value;
    vout_psbt_index = s.vout_psbt_index + 1;
  }

  unfoldable pub spend_p2sh_leg : Bytes → Spending → Result Spending
  unfolding leg_at assert_leg_funds_script input_bytes obfuscate estimate_op_return_output
  spend_p2sh_leg chunk s =
      let marker = obfuscate library p2sh_marker (s.txid_first_input) in
      let psbt = begin_psbt (library.embed marker) (s.psbt) in
      let begun = s.estimated_tx_size + marker_size (estimate_op_return_output marker) (s.psbt) in
      let size =
        begun
        + input_bytes (record {
          witness_script = none;
          non_witness_utxo = request.p2sh_hex;
          index = s.vout_psbt_index;
          redeem_script = some chunk;
        }) in
      assert_leg_funds_script (leg_at (s.p2sh_tx) (s.vout_psbt_index)) (library.p2sh_output chunk)
      >>= λ leg. ok (with_leg psbt chunk leg size s)

  unfoldable pub spend_p2wsh_leg : Bytes → Spending → Result Spending
  unfolding leg_at assert_leg_funds_script input_bytes obfuscate
  spend_p2wsh_leg chunk s =
      let marker = obfuscate library p2wsh_marker (s.txid_first_input) in
      let psbt = begin_psbt (library.embed marker) (s.psbt) in
      assert_leg_funds_script (leg_at (s.p2sh_tx) (s.vout_psbt_index)) (library.p2wsh_output chunk)
      >>= λ leg. ok (
          with_leg psbt chunk leg
            (s.estimated_tx_size
              + input_bytes (record {
                witness_script = some (leg.script);
                non_witness_utxo = none;
                index = s.vout_psbt_index;
                redeem_script = none;
              }))
            s)

  -- The other carriers would add an output to the reveal's psbt, which is not begun.
  unfoldable pub emit_reveal_chunk : Encoding → Bytes → Spending → Result Spending
  unfolding read_funding_tx spend_p2sh_leg spend_p2wsh_leg
  emit_reveal_chunk p2sh chunk s =
      read_funding_tx (s.p2sh_tx) (request.p2sh_hex) s >>= λ read. spend_p2sh_leg chunk read
  emit_reveal_chunk p2wsh chunk s =
      read_funding_tx (s.p2sh_tx) (request.p2sh_hex) s >>= λ read. spend_p2wsh_leg chunk read
  emit_reveal_chunk _ chunk s = throw internal

  unfoldable pub emit_reveal_chunks : Encoding → List Bytes → Spending → Result Spending
  unfolding emit_reveal_chunk
  emit_reveal_chunks encoding [] s = ok s
  emit_reveal_chunks encoding (chunk ∷ chunks) s =
      emit_reveal_chunk encoding chunk s >>= λ next. emit_reveal_chunks encoding chunks next
