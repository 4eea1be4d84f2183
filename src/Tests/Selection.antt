-- ===== src/Tests/Selection.antt =====
-- The selection of src/XChainEncoder/build_transaction/input_selection.js on two native SegWit outputs,
-- the first of which pays for the build.
use xchain_encoder.Base.{
  ℕ, ◌+◌, ◌≤◌, ◌<◌, ◌≡◌, refl, ◌↔◌, ◌⊎◌, inl, Bool, true, false, none, some, List, [], ◌∷◌, arith,
  length, replicate, string_discrete,
}
use xchain_encoder.Failures.{ok}
use xchain_encoder.Payload.Slices.{Bytes}
use xchain_encoder.Payload.Carriers.{push, op, op_return}
use xchain_encoder.Reservations.State.{Ledger, no_reservations}
use xchain_encoder.Sizes.Floor.{doge, clears_stripped_floor}
use xchain_encoder.Fees.Settlement.{Build, reaches_relay_minimum, refuse_excessive_fee, settle_fees}
use xchain_encoder.Sizes.Floor.{core_stripped_floor}
use xchain_encoder.Sizes.Estimator.{bytes_eq, estimate_input_size, input_size_for_script}
use xchain_encoder.Fees.Policy.{fee_for_vsize}
use xchain_encoder.Reservations.Operations.{
  is_outpoint_reserved, reserve_outpoint, claim_outpoint, evict_expired_reservations,
}
use xchain_encoder.Selection.Scripts.{is_segwit_utxo, nested_p2wpkh_redeem, is_p2sh_script}
use xchain_encoder.Selection.Skipping.{is_skipped, skip_reserved_input}
use xchain_encoder.Selection.Adding.{
  framing_bytes_for_input, is_segwit, refuse_unsignable_input, added_input, nested_redeem,
  with_input, add_selected_input,
}
use xchain_encoder.Selection.Loop.{is_funded, select_round, select_loop, select_inputs}
use xchain_encoder.Selection.Checks.{refuse_empty_selection, refuse_first_input_race}
use xchain_encoder.Selection.State.{
  max_utxo_count, Candidate, Order, Picked, State, Outcome, selected, refused, World,
}
use xchain_encoder.Selection.Skipping.{selection_target_fee}
use xchain_encoder.Selection.Rounds.{IsPart, value_of, candidates_of}
use xchain_encoder.Selection.Checks.{init_selection, select_funding_inputs}
use xchain_encoder.Selection.Covered.{select_funding_inputs-selected, select_funding_inputs-first}
use xchain_encoder.Selection.Settled.{hand_over, select_funding_inputs-settles}

abbrev program : Bytes
program = 0x00 ∷ 0x14 ∷ replicate 20 7

-- Every script is a P2WPKH, and the node answers nothing.
abbrev pub segwit_world : World
segwit_world = record {
  decompile = λ script. some (op 0x00 ∷ push (replicate 20 7) ∷ []);
  p2wpkh_output = λ key. none;
  p2sh_output = λ redeem. [];
  hash160 = λ bytes. replicate 20 7;
  p2ms = λ redeem. none;
  tx_outs = λ tx. none;
  get_transaction_hex = λ txid. none;
  other_builds = λ txid enc. enc;
}

abbrev pub large : Candidate
large = record {
  utxo = record {
    key = "bb:1";
    txid = 98 ∷ 98 ∷ [];
    vout = 1;
    value = 9000;
    confirmations = some 1;
  };
  hash = 98 ∷ [];
  script = program;
  redeem_script = none;
}

abbrev small : Candidate
small = record {
  utxo = record {
    key = "aa:0";
    txid = 97 ∷ 97 ∷ [];
    vout = 0;
    value = 6000;
    confirmations = some 3;
  };
  hash = 97 ∷ [];
  script = program;
  redeem_script = none;
}

abbrev pub action_order : Order
action_order = record {
  encoding = op_return;
  has_action_payload = true;
  exact_inputs = false;
  supports_segwit = true;
  attach_prev_tx = false;
  fetched_from_tracker = true;
  keys = [];
  first_reserved_outpoint = some "bb:1";
  txid_first_input = some (98 ∷ 98 ∷ []);
  fee = false;
  rate = 1000;
  soft_dust_surcharge = 0;
  output_satoshis = 5000;
  dust_amount = 500;
  output_floor = 500;
  coin = some doge;
  change = none;
  sequence = 4294967295;
  psbt = record { version = 2; tx_inputs = []; tx_outputs = []; locktime = 0 };
  now = 10;
}

abbrev pub ledger : Ledger
ledger = record { claims = []; build_txid = none }

abbrev pub state_of : Outcome → State
state_of (selected st) = st
state_of (refused failure st) = st

-- The first output suffices.
abbrev spent : State
spent = state_of (
    select_funding_inputs segwit_world action_order (large ∷ small ∷ [])
      (init_selection action_order none 100 no_reservations ledger))

abbrev pub unsettled : Build
unsettled = record {
  fee = false;
  caller_rate = false;
  p2sh_hash = false;
  change = true;
  cap_rate = none;
  node_rate = some 1000;
  rate = 1000;
  relay_rate = 1000;
  estimated_tx_size = 0;
  estimated_fee = 0;
  soft_dust_surcharge = 0;
  input_satoshis = 0;
  output_satoshis = 0;
  commit_ancestor_size = 0;
  commit_ancestor_fee = 0;
  reveal_prefund = none;
  change_satoshis = 0;
}

spent_lem :
    (select_funding_inputs segwit_world action_order
        (large ∷ small ∷ [])
        (init_selection action_order none 100 no_reservations ledger)
      ≡ selected spent)
    × (spent.reserved_candidates + length (candidates_of (spent.picked)) < 2)
    × (reaches_relay_minimum 500 (hand_over action_order spent unsettled) ≡ true)
unfolding select_funding_inputs select_inputs select_loop select_round is_funded skip_reserved_input
    is_skipped is_outpoint_reserved claim_outpoint reserve_outpoint refuse_unsignable_input
    is_segwit is_segwit_utxo add_selected_input added_input nested_redeem nested_p2wpkh_redeem
    is_p2sh_script with_input framing_bytes_for_input estimate_input_size input_size_for_script
    bytes_eq fee_for_vsize clears_stripped_floor core_stripped_floor init_selection
    refuse_empty_selection refuse_first_input_race evict_expired_reservations string_discrete
    reaches_relay_minimum
spent_lem = (refl, omega arith, refl)

select_funding_inputs-selected_example :
    IsPart (candidates_of (spent.picked)) (large ∷ small ∷ [])
    × (1 ≤ spent.selected_input_count)
    × (spent.selected_input_count ≤ max_utxo_count)
    × (spent.selected_input_count ≡ length (candidates_of (spent.picked)))
    × (spent.input_satoshis ≡ value_of (candidates_of (spent.picked)))
    × (◌≡◌ {A = Bool} false true → candidates_of (spent.picked) ≡ large ∷ small ∷ [])
    × ((5000 + selection_target_fee 500 (spent.estimated_fee) < spent.input_satoshis)
        ⊎ (spent.reserved_candidates + length (candidates_of (spent.picked)) ≡ 2))
select_funding_inputs-selected_example =
    select_funding_inputs-selected segwit_world action_order (large ∷ small ∷ []) none 100
      no_reservations ledger spent (spent_lem.0)

select_funding_inputs-first_example :
    (p : Picked) × (ps : List Picked) × (spent.picked ≡ p ∷ ps)
    × (p.candidate.utxo.txid ≡ 98 ∷ 98 ∷ [])
select_funding_inputs-first_example =
    select_funding_inputs-first segwit_world action_order (large ∷ small ∷ []) none 100
      no_reservations ledger spent (98 ∷ 98 ∷ []) (spent_lem.0) refl (inl refl) refl

spent_fair : refuse_excessive_fee 500 (hand_over action_order spent unsettled) ≡ ok tt
unfolding refuse_excessive_fee
spent_fair = refl

select_funding_inputs-settles_example :
    ((5000 + (500 + 0) ≤ spent.input_satoshis) ↔ (
      (after : Build) × (settle_fees 500 1000 none (hand_over action_order spent unsettled)
        ≡ ok after)))
    × (◌≡◌ {A = ℕ} 0 0
        → (after : Build) × (settle_fees 500 1000 none (hand_over action_order spent unsettled)
            ≡ ok after)
          × (after.input_satoshis
              ≡ after.output_satoshis + after.estimated_fee + after.change_satoshis))
select_funding_inputs-settles_example =
    select_funding_inputs-settles segwit_world action_order (large ∷ small ∷ []) none 100
      no_reservations ledger spent 1000 none unsettled (spent_lem.0) (spent_lem.1) refl
      (spent_lem.2) spent_fair
