-- ===== src/Reveal/Envelope.antt =====
-- The reveal of a TAPROOT build: `buildEnvelopeReveal`, `locateEnvelopeCommit` and `buildRevealPsbt` of
-- src/XChainEncoder/build_transaction/reveal_outputs.js. The txid of the commit, of its unsigned
-- bytes, is an argument; the witness fields of the input are left out.
use xchain_encoder.Base.{ℕ, ◌+◌, ◌-◌, Bool, Option, none, some, List, [], ◌∷◌, ltb, if◌then◌else◌}
use xchain_encoder.Failures.{Result, ok, throw, internal, ◌>>=◌}
use xchain_encoder.Payload.Slices.{Bytes}
use xchain_encoder.Sizes.Estimator.{bytes_eq, estimate_output_size_for_address}
use xchain_encoder.Sizes.Reveals.{TxOut}
use xchain_encoder.Fees.Settlement.{EnvelopeMoney}
use xchain_encoder.Emission.Plan.{Library, Plan}
use xchain_encoder.Emission.Carriers.{reveal_change_address, reveal_pad_needed as pad_needed}
use xchain_encoder.Reveal.Legs.{Psbt}

-- `change_script` is that of the reveal's change address, `none` where it does not parse.
pub record EnvelopeContext : Type 0 where
  pub commit_script : Bytes
  pub commit_value : ℕ
  pub reveal_fee : ℕ
  pub reveal_pad_needed : Bool
  pub change_script : Option Bytes

-- `findIndex`; `none` is -1.
unfoldable pub find_script : Bytes → ℕ → List TxOut → Option ℕ
unfolding bytes_eq
find_script script index [] = none
find_script script index (o ∷ os) =
    let rest = find_script script (index + 1) os in
    if bytes_eq (o.script) script then some index else rest

abbrev pub address_script : Option (Option Bytes) → Option Bytes
address_script none = none
address_script (some script) = script

-- The context that the commit's emission and the settlement leave, with its amounts.
unfoldable pub envelope_context : Library → Plan → Bytes → EnvelopeMoney → EnvelopeContext
unfolding pad_needed estimate_output_size_for_address
envelope_context library plan chunk money = record {
  commit_script = library.p2tr_output (plan.internal_pubkey) chunk;
  commit_value = money.commit_value;
  reveal_fee = money.reveal_fee;
  reveal_pad_needed =
      pad_needed library plan
        (estimate_output_size_for_address (reveal_change_address library plan));
  change_script = address_script (reveal_change_address library plan);
}

-- A value that comes out negative is refused by bitcoinjs-lib.
unfoldable pub reveal_outputs : EnvelopeContext → ℕ → Bytes → Result (List TxOut)
reveal_outputs context dust_amount script =
    let pad = if context.reveal_pad_needed then dust_amount else 0 in
    let spent = context.reveal_fee + pad in
    let out : TxOut = record { value = context.commit_value - spent; script = script } in
    if ltb (context.commit_value) spent
    then throw internal
    else ok (
        out
        ∷ (if context.reveal_pad_needed
            then record { value = dust_amount; script = script } ∷ []
            else []))

abbrev pub parsed_address : Option Bytes → Result Bytes
parsed_address none = throw internal
parsed_address (some script) = ok script

abbrev pub located : Option ℕ → Result ℕ
located none = throw internal
located (some index) = ok index

unfoldable pub build_reveal_psbt : EnvelopeContext → ℕ → Bytes → ℕ → List TxOut → Result Psbt
unfolding find_script reveal_outputs
build_reveal_psbt context dust_amount commit_txid utxo_sequence commit_outputs =
    located (find_script (context.commit_script) 0 commit_outputs) >>= λ commit_vout.
    parsed_address (context.change_script) >>= λ script.
    reveal_outputs context dust_amount script >>= λ outs. ok (record {
      leg_inputs =
          record {
            hash = commit_txid;
            vout = commit_vout;
            sequence = utxo_sequence;
            script = context.commit_script;
            value = context.commit_value;
          }
          ∷ [];
      outs = outs;
    })
