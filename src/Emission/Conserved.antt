-- ===== src/Emission/Conserved.antt =====
-- The value of a build from its outputs, in src/XChainEncoder/build_transaction/data_outputs.js, through
-- the inputs that input_selection.js adds, to the fee and the change of fee_settlement.js beside it.
use xchain_encoder.Base.{
  ℕ, ◌+◌, min, ◌≡◌, refl, sym, ap, ◌∙◌, Bool, true, false, Option, none, some, List, arith,
  if◌then◌else◌,
}
use xchain_encoder.Failures.{ok}
use xchain_encoder.Reservations.State.{Ledger, Encoder}
use xchain_encoder.Fees.Settlement.{
  RevealPrefund, Build, AncestorPackage, uplift_for_ancestors, floor_estimated_fee, prefund_commit,
  prefund_reveal_package, apply_reveal_prefund, within_inputs, compute_change, settle_fees,
}
use xchain_encoder.Fees.Balance.{settled}
use xchain_encoder.Fees.Change.{settle_fees-balanced, settle_fees-checks, compute_change-IsBalanced}
use xchain_encoder.Selection.State.{Candidate, Order, State, selected, World}
use xchain_encoder.Selection.Checks.{init_selection, select_funding_inputs}
use xchain_encoder.Selection.Rounds.{value_of, candidates_of}
use xchain_encoder.Selection.Covered.{select_funding_inputs-selected}
use xchain_encoder.Selection.Settled.{hand_over}
use xchain_encoder.Emission.Plan.{Library, Plan, Emission}
use xchain_encoder.Emission.Payments.{emit_outputs}
use xchain_encoder.Emission.Accounting.{outputs_value, emit_outputs-IsCounted}

-- What a settlement moves into the output that funds a reveal.
record IsRaised (before after : Build) : Type 0 where
  raised : ℕ
  outputs : after.output_satoshis ≡ before.output_satoshis + raised
  no_reveal : before.reveal_prefund ≡ none → raised ≡ 0
  commit :
      (p : RevealPrefund)
      → before.reveal_prefund ≡ some p
      → (q : RevealPrefund) × (after.reveal_prefund ≡ some q)
        × (q.commit_value ≡ p.commit_value + raised)

kept_IsRaised :
    (before after : Build)
    → after.output_satoshis ≡ before.output_satoshis
    → after.reveal_prefund ≡ before.reveal_prefund
    → IsRaised before after
kept_IsRaised before after o r = record {
  raised = 0;
  outputs = omega (arith, o);
  no_reveal = λ e. refl;
  commit = λ p e. (p, r ∙ e, omega arith);
}

some_lem : {p q : RevealPrefund} → ◌≡◌ {A = Option RevealPrefund} (some p) (some q) → p ≡ q
some_lem h = cc

raised_lem :
    (kept : Bool) (bound wanted : ℕ) (prefund : RevealPrefund) (build : Build)
    → build.reveal_prefund ≡ some prefund
    → IsRaised build (if kept then build else apply_reveal_prefund bound wanted prefund build)
unfolding apply_reveal_prefund
raised_lem true bound wanted prefund build e = kept_IsRaised build build refl refl
raised_lem false bound wanted prefund build e = record {
  raised = within_inputs false build (min wanted bound);
  outputs = refl;
  no_reveal = λ n. absurd (ground (arith, e, n));
  commit = λ p f. (
    _,
    refl,
    ap (λ q. q.commit_value + within_inputs false build (min wanted bound)) (some_lem (sym e ∙ f)),
  );
}

prefund_commit-IsRaised :
    (bound : ℕ) (build : Build) (prefund : Option RevealPrefund)
    → build.reveal_prefund ≡ prefund
    → IsRaised build (prefund_commit bound build prefund)
unfolding prefund_commit
prefund_commit-IsRaised bound build none e = kept_IsRaised build build refl refl
prefund_commit-IsRaised bound build (some prefund) e = raised_lem _ bound _ prefund build e

compute_change-prefund :
    (dust : ℕ) (build after : Build)
    → compute_change dust build ≡ ok after
    → after.reveal_prefund ≡ build.reveal_prefund
unfolding compute_change
compute_change-prefund dust build after h = ground arith

lifted_lem :
    (dust bound : ℕ) (ancestors : Option AncestorPackage) (build : Build)
    → let lifted = floor_estimated_fee dust (uplift_for_ancestors dust bound ancestors build) in
      (lifted.output_satoshis ≡ build.output_satoshis)
      × (lifted.reveal_prefund ≡ build.reveal_prefund)
unfolding floor_estimated_fee uplift_for_ancestors
lifted_lem dust bound none build = (refl, refl)
lifted_lem dust bound (some ancestors) build = (ground arith, ground arith)

-- The value of a whole single-transaction build is conserved. Where the emission, the selection on
-- its total and the settlement succeed, the values of the inputs that were selected are those of
-- the outputs that were emitted, plus what the settlement moved into the output that funds a
-- reveal, the fee, and the change, to the base unit; and nothing is moved without such an output.
pub settle_fees-conserved :
    (library : Library) (plan : Plan) (e : Emission) (world : World) (order : Order)
    (candidates : List Candidate) (fee : Option ℕ) (size : ℕ) (enc : Encoder) (calls : Ledger)
    (st : State) (dust bound : ℕ) (ancestors : Option AncestorPackage) (build after : Build)
    → emit_outputs library plan ≡ ok e
    → order.output_satoshis ≡ e.output_satoshis
    → select_funding_inputs world order candidates (init_selection order fee size enc calls)
      ≡ selected st
    → settle_fees dust bound ancestors (hand_over order st build) ≡ ok after
    → (raised : ℕ) × (value_of (candidates_of (st.picked))
        ≡ outputs_value (e.outputs) + raised + after.estimated_fee + after.change_satoshis)
      × (build.reveal_prefund ≡ none → raised ≡ 0)
      × ((p : RevealPrefund)
          → build.reveal_prefund ≡ some p
          → (q : RevealPrefund) × (after.reveal_prefund ≡ some q)
            × (q.commit_value ≡ p.commit_value + raised))
unfolding settled prefund_reveal_package
settle_fees-conserved library plan e world order candidates fee size enc calls st dust bound
      ancestors build after emitted sum h s =
    let start = hand_over order st build in
    let lifted = floor_estimated_fee dust (uplift_for_ancestors dust bound ancestors start) in
    let (_, _, _, _, inputs, _, _) =
      select_funding_inputs-selected world order candidates fee size enc calls st h in
    let (same_inputs, balance, _, _, _) =
      settle_fees-balanced dust bound ancestors start after refl s in
    let (_, _, c) = settle_fees-checks dust bound ancestors start after s in
    let outputs =
      (compute_change-IsBalanced dust (settled dust bound ancestors start) after c).same_outputs in
    let prefund = compute_change-prefund dust (settled dust bound ancestors start) after c in
    let (lifted_outputs, lifted_prefund) = lifted_lem dust bound ancestors start in
    let r = prefund_commit-IsRaised bound lifted (lifted.reveal_prefund) refl in
    (
      r.raised,
      omega (
        arith,
        inputs,
        same_inputs,
        balance,
        outputs,
        r.outputs,
        lifted_outputs,
        sum,
        emit_outputs-IsCounted library plan e emitted,
      ),
      (λ n. r.no_reveal (lifted_prefund ∙ n)),
      λ p f. let (q, same, raised) = r.commit p (lifted_prefund ∙ f) in (q, prefund ∙ same, raised),
    )
