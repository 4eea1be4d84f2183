-- ===== src/Selection/Covered.antt =====
-- What `selectFundingInputs` of src/XChainEncoder/build_transaction/input_selection.js promises the
-- rest of a build.
use xchain_encoder.Base.{
  ℕ, ◌+◌, ◌≤◌, ◌<◌, ◌≡◌, refl, sym, ap, ◌∙◌, subst, ◌⊎◌, inl, inr, true, false, ◌&&◌, Option, some,
  List, [], ◌∷◌, arith, length,
}
use xchain_encoder.Reservations.State.{Ledger, Encoder}
use xchain_encoder.Reservations.Operations.{evict_expired_reservations}
use xchain_encoder.Payload.Carriers.{Encoding, op_return, multisign}
use xchain_encoder.Sizes.Estimator.{bytes_eq}
use xchain_encoder.Selection.State.{
  max_utxo_count, Candidate, Order, Picked, State, Outcome, selected, refused, World,
}
use xchain_encoder.Selection.Skipping.{selection_target_fee}
use xchain_encoder.Selection.Loop.{is_funded, select_inputs}
use xchain_encoder.Selection.Rounds.{IsPart, value_of, candidates_of}
use xchain_encoder.Selection.Sound.{IsSelection, select_loop-IsSelection}
use xchain_encoder.Selection.Checks.{
  init_selection, refuse_empty_selection, refuse_first_input_race, binds_to_first_input,
  is_first_txid, select_funding_inputs,
}

checks_lem :
    (order : Order) (o : Outcome) (st : State)
    → refuse_first_input_race order (refuse_empty_selection o) ≡ selected st
    → (o ≡ selected st)
      × (1 ≤ st.selected_input_count)
      × ((order.has_action_payload && binds_to_first_input (order.encoding)) ≡ true
          → is_first_txid (order.txid_first_input) (st.picked) ≡ true)
unfolding refuse_first_input_race refuse_empty_selection
checks_lem order (refused failure s) st h = absurd (ground arith)
checks_lem order (selected s) st h = (ground arith, ground arith, ground arith)

bytes_eq-eq : (xs ys : List ℕ) → bytes_eq xs ys ≡ true → xs ≡ ys
unfolding bytes_eq
bytes_eq-eq [] [] h = refl
bytes_eq-eq [] (y ∷ ys) h = absurd (ground arith)
bytes_eq-eq (x ∷ xs) [] h = absurd (ground arith)
bytes_eq-eq (x ∷ xs) (y ∷ ys) h =
    let e = bytes_eq-eq xs ys (ground arith) in let d : x ≡ y = ground arith in cc

bound_lem :
    (encoding : Encoding)
    → (encoding ≡ op_return) ⊎ (encoding ≡ multisign)
    → binds_to_first_input encoding ≡ true
bound_lem encoding (inl e) = rw e refl
bound_lem encoding (inr e) = rw e refl

first_lem :
    (txid : List ℕ) (picked : List Picked)
    → is_first_txid (some txid) picked ≡ true
    → (p : Picked) × (ps : List Picked) × (picked ≡ p ∷ ps) × (p.candidate.utxo.txid ≡ txid)
first_lem txid [] h = absurd (ground arith)
first_lem txid (p ∷ ps) h = (p, ps, refl, bytes_eq-eq _ txid h)

module _ (world : World) (order : Order) (candidates : List Candidate) where
  selected_lem :
      (fee : Option ℕ) (size : ℕ) (enc : Encoder) (calls : Ledger) (st : State)
      → select_funding_inputs world order candidates (init_selection order fee size enc calls)
        ≡ selected st
      → IsSelection world order candidates
          (record (init_selection order fee size enc calls) {
            enc = evict_expired_reservations (order.now) enc;
          })
          st
        × (1 ≤ st.selected_input_count)
        × ((order.has_action_payload && binds_to_first_input (order.encoding)) ≡ true
            → is_first_txid (order.txid_first_input) (st.picked) ≡ true)
  unfolding select_funding_inputs select_inputs init_selection
  selected_lem fee size enc calls st h =
      let (e, some', first) = checks_lem order _ st h in
      (select_loop-IsSelection world order candidates _ st e, some', first)

  funded_lem :
      (st : State)
      → is_funded world order st ≡ true
      → (order.exact_inputs ≡ false)
        × (order.output_satoshis + selection_target_fee (order.dust_amount) (st.estimated_fee)
            < st.input_satoshis)
  unfolding is_funded
  funded_lem st h = (ground arith, ground arith)

  -- A selection that succeeds spends a part of the candidates, in their order: at least one and at
  -- most 500, and every candidate where the caller asked for exact inputs. The total it reports is
  -- the sum of their values. It ended because the inputs cover the outputs and the target fee, or
  -- because every candidate was either added or counted as reserved.
  pub select_funding_inputs-selected :
      (fee : Option ℕ) (size : ℕ) (enc : Encoder) (calls : Ledger) (st : State)
      → select_funding_inputs world order candidates (init_selection order fee size enc calls)
        ≡ selected st
      → IsPart (candidates_of (st.picked)) candidates
        × (1 ≤ st.selected_input_count)
        × (st.selected_input_count ≤ max_utxo_count)
        × (st.selected_input_count ≡ length (candidates_of (st.picked)))
        × (st.input_satoshis ≡ value_of (candidates_of (st.picked)))
        × (order.exact_inputs ≡ true → candidates_of (st.picked) ≡ candidates)
        × ((order.output_satoshis + selection_target_fee (order.dust_amount) (st.estimated_fee)
              < st.input_satoshis)
            ⊎ (st.reserved_candidates + length (candidates_of (st.picked)) ≡ length candidates))
  unfolding init_selection
  select_funding_inputs-selected fee size enc calls st h =
      let (s, some', _) = selected_lem fee size enc calls st h in
      let same = s.adds in
      (
        subst (λ l. IsPart l candidates) (sym same) (s.part),
        some',
        s.within (omega arith),
        omega (arith, s.counts, ap length same),
        omega (arith, s.pays, ap value_of same),
        (λ e. same ∙ s.whole e),
        elim (s.ended) [
          | inl f ↦ inl (funded_lem st f).1
          | inr e ↦ inr (omega (arith, e, ap length same))
        ],
      )

  -- An action that is carried in an OP_RETURN or in multisig outputs is bound to its first input:
  -- where the build has a key's txid, a selection that succeeds has a first input, of that txid.
  pub select_funding_inputs-first :
      (fee : Option ℕ) (size : ℕ) (enc : Encoder) (calls : Ledger) (st : State) (txid : List ℕ)
      → select_funding_inputs world order candidates (init_selection order fee size enc calls)
        ≡ selected st
      → order.has_action_payload ≡ true
      → (order.encoding ≡ op_return) ⊎ (order.encoding ≡ multisign)
      → order.txid_first_input ≡ some txid
      → (p : Picked) × (ps : List Picked) × (st.picked ≡ p ∷ ps) × (p.candidate.utxo.txid ≡ txid)
  select_funding_inputs-first fee size enc calls st txid h payload kind key =
      let (_, _, first) = selected_lem fee size enc calls st h in
      first_lem txid (st.picked) (
        subst (λ k. is_first_txid k (st.picked) ≡ true) key (first (rw payload (bound_lem _ kind))))
