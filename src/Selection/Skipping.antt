-- ===== src/Selection/Skipping.antt =====
-- Reserved candidates and the maximum of inputs: `skipReservedInput`, `refuseCappedSelection` and
-- `remainingCandidatesCanFund` of src/XChainEncoder/build_transaction/input_selection.js.
use xchain_encoder.Base.{
  ℕ, ◌+◌, max, String, ite, Bool, true, false, ◌||◌, Option, none, some, List, [], ◌∷◌, ltb,
  if◌then◌else◌, string_discrete,
}
use xchain_encoder.Failures.{
  Failure, Result, ok, throw, ◌>>◌, throw_if, param_range, operational, no_confirmed_utxo,
}
use xchain_encoder.Reservations.State.{Ledger, Encoder}
use xchain_encoder.Reservations.Operations.{is_outpoint_reserved, claim_outpoint}
use xchain_encoder.Selection.State.{max_satoshi_u64, Candidate, Order, State}

abbrev pub selection_target_fee : ℕ → ℕ → ℕ
selection_target_fee dust estimated_fee = max estimated_fee dust

abbrev pub is_key : String → Option String → Bool
is_key k none = false
is_key k (some j) = ite (string_discrete k j) true false

-- The keys that the first refusal skips over: another build's, in greedy mode.
unfoldable pub is_skipped : Order → Candidate → Encoder → Encoder × Bool
unfolding is_outpoint_reserved
is_skipped order c enc =
    let asked = is_outpoint_reserved (c.utxo.key) (order.now) enc in
    if order.exact_inputs || is_key (c.utxo.key) (order.first_reserved_outpoint)
    then (enc, false)
    else asked

unfoldable pub skip_reserved_input : Order → Candidate → Ledger → Encoder → Encoder × Ledger × Bool
unfolding is_skipped claim_outpoint
skip_reserved_input order c calls enc =
    let (enc', skipped) = is_skipped order c enc in
    let claimed = claim_outpoint calls (c.utxo.key) (order.now) enc' in
    if skipped
    then (enc', calls, true)
    else if order.exact_inputs || is_key (c.utxo.key) (order.first_reserved_outpoint)
    then (enc', calls, false)
    else (claimed.0, claimed.1, false)

-- Whether the candidates that are left would have covered the target. A value above the u64 maximum
-- is refused on the way.
unfoldable pub remaining_candidates_can_fund :
    Order → ℕ → ℕ → List Candidate → Encoder → Result Bool
unfolding is_skipped
remaining_candidates_can_fund order available required [] enc = ok false
remaining_candidates_can_fund order available required (c ∷ cs) enc =
    let (enc', skipped) = is_skipped order c enc in
    let available' = if skipped then available else available + c.utxo.value in
    let rest = remaining_candidates_can_fund order available' required cs enc' in
    if skipped
    then rest
    else throw_if (ltb max_satoshi_u64 (c.utxo.value)) param_range
      >> (if ltb required available' then ok true else rest)

-- The refusal of a build that has reached the maximum. The lapsed reservations that its lookups would
-- evict on reading stay in the state.
unfoldable pub capped_failure : Order → List Candidate → State → Failure
unfolding remaining_candidates_can_fund
capped_failure order cs st =
    let required =
      order.output_satoshis + selection_target_fee (order.dust_amount) (st.estimated_fee) in
    elim (remaining_candidates_can_fund order (st.input_satoshis) required cs (st.enc)) [
      | throw failure ↦ failure
      | ok true ↦ param_range
      | ok false ↦ operational no_confirmed_utxo
    ]
