-- ===== src/Selection/Rounds.antt =====
-- What one round of the selection loop of
-- src/XChainEncoder/build_transaction/input_selection.js adds, counts and passes over.
use xchain_encoder.Base.{
  ℕ, ◌+◌, ◌≤◌, ◌<◌, ◌≡◌, refl, ap, subst, inl, inr, Bool, true, false, List, [], ◌∷◌, ◌++◌, map,
  arith, ltb, leb, if◌then◌else◌,
}
use xchain_encoder.Failures.{Failure, Result, ok, throw, ◌>>◌, throw_if, param_range, Result-cases}
use xchain_encoder.Sizes.Estimator.{PsbtInput}
use xchain_encoder.Reservations.State.{Ledger, Encoder}
use xchain_encoder.Selection.State.{
  max_utxo_count, max_satoshi_u64, Candidate, Order, Picked, State, Outcome, selected, refused,
  World,
}
use xchain_encoder.Selection.Skipping.{is_skipped, skip_reserved_input, capped_failure}
use xchain_encoder.Selection.Adding.{
  refuse_unsignable_input, added_input, with_input, add_selected_input,
}
use xchain_encoder.Selection.Loop.{select_round}

-- Some of the candidates, in their order.
pub data IsPart : List Candidate → List Candidate → Type 0 where
  none_left : (cs : List Candidate) → IsPart [] cs
  passed : {ts cs : List Candidate} (c : Candidate) → IsPart ts cs → IsPart ts (c ∷ cs)
  taken : {ts cs : List Candidate} (c : Candidate) → IsPart ts cs → IsPart (c ∷ ts) (c ∷ cs)

abbrev pub value_of : List Candidate → ℕ
value_of [] = 0
value_of (c ∷ cs) = c.utxo.value + value_of cs

abbrev pub candidates_of : List Picked → List Candidate
candidates_of ps = map (λ p. p.candidate) ps

-- What one candidate does to the counts.
pub record IsAdded (c : Candidate) (st st' : State) : Type 0 where
  pub adds : candidates_of (st'.picked) ≡ candidates_of (st.picked) ++ c ∷ []
  pub pays : st'.input_satoshis ≡ st.input_satoshis + c.utxo.value
  pub counts : st'.selected_input_count ≡ st.selected_input_count + 1
  pub keeps : st'.reserved_candidates ≡ st.reserved_candidates
  pub fits : c.utxo.value ≤ max_satoshi_u64
  pub within : st'.selected_input_count ≤ max_utxo_count

pub record IsPassed (order : Order) (st st' : State) : Type 0 where
  pub greedy : order.exact_inputs ≡ false
  pub same : st'.picked ≡ st.picked
  pub pays : st'.input_satoshis ≡ st.input_satoshis
  pub counts : st'.selected_input_count ≡ st.selected_input_count
  pub passes : st'.reserved_candidates ≡ st.reserved_candidates + 1

map-snoc :
    (ps : List Picked) (p : Picked)
    → candidates_of (ps ++ p ∷ []) ≡ candidates_of ps ++ p.candidate ∷ []
map-snoc [] p = refl
map-snoc (q ∷ ps) p = ap (◌∷◌ (q.candidate)) (map-snoc ps p)

-- A round that adds nothing and does not refuse has skipped.
passing_lem :
    (capped skipped : Bool) (signable : Result (Unit {0})) (failure : Failure) (st passing : State)
    (adding : Outcome) (st' : State)
    → ◌≡◌ {A = Outcome × Bool}
        (if capped then (refused failure st, false) else elim signable [
          | throw failure ↦ (refused failure st, false)
          | ok done ↦ if skipped then (selected passing, false) else (adding, true)
        ])
        (selected st', false)
    → (passing ≡ st') × (skipped ≡ true)
passing_lem capped skipped signable failure st passing adding st' h = ground arith

skip_reserved_input_greedy :
    (order : Order) (c : Candidate) (calls : Ledger) (enc : Encoder)
    → (skip_reserved_input order c calls enc).2 ≡ true
    → order.exact_inputs ≡ false
unfolding skip_reserved_input is_skipped
skip_reserved_input_greedy order c calls enc h = ground arith

module _ (world : World) (order : Order) where
  add_lem :
      (c : Candidate) (st st' : State)
      → add_selected_input world order c st ≡ selected st'
      → (i : PsbtInput) × (with_input world order c i st ≡ st') × (c.utxo.value ≤ max_satoshi_u64)
  unfolding add_selected_input
  add_lem c st st' h =
      elim (Result-cases
        (throw_if (ltb max_satoshi_u64 (c.utxo.value)) param_range >> added_input world order c)) [
          | inl (i, e) ↦ (i, ground (arith, e), ground (arith, e))
          | inr (failure, e) ↦ absurd (ground (arith, e))
        ]

  added_lem :
      (c : Candidate) (st st' : State)
      → st.selected_input_count < max_utxo_count
      → add_selected_input world order c st ≡ selected st'
      → IsAdded c st st'
  unfolding with_input
  added_lem c st st' lt h =
      let (i, e, fits) = add_lem c st st' h in
      subst (IsAdded c st) e (record {
        adds = map-snoc (st.picked) _;
        pays = refl;
        counts = refl;
        keeps = refl;
        fits = fits;
        within = omega arith;
      })

  round_lem :
      (c : Candidate) (cs : List Candidate) (st st' : State)
      → select_round world order c cs st ≡ (selected st', true)
      → (st.selected_input_count < max_utxo_count)
        × (add_selected_input world order c (record st {
          enc = (skip_reserved_input order c (st.calls) (st.enc)).0;
          calls = (skip_reserved_input order c (st.calls) (st.enc)).1;
        })
            ≡ selected st')
  unfolding select_round
  round_lem c cs st st' h = (ground arith, ground arith)

  pub round-IsAdded :
      (c : Candidate) (cs : List Candidate) (st st' : State)
      → select_round world order c cs st ≡ (selected st', true)
      → IsAdded c st st'
  round-IsAdded c cs st st' h =
      let (lt, e) = round_lem c cs st st' h in
      let a = added_lem c _ st' lt e in
      record {
        adds = a.adds;
        pays = a.pays;
        counts = a.counts;
        keeps = a.keeps;
        fits = a.fits;
        within = a.within;
      }

  pub round-IsPassed :
      (c : Candidate) (cs : List Candidate) (st st' : State)
      → select_round world order c cs st ≡ (selected st', false)
      → IsPassed order st st'
  unfolding select_round
  round-IsPassed c cs st st' h =
      let (enc', calls', skipped) = skip_reserved_input order c (st.calls) (st.enc) in
      let passing = record st {
        enc = enc';
        calls = calls';
        reserved_candidates = st.reserved_candidates + 1;
      } in
      let adding = add_selected_input world order c (record st { enc = enc'; calls = calls' }) in
      let (e, skips) =
        passing_lem (leb max_utxo_count (st.selected_input_count)) skipped
          (refuse_unsignable_input world order c) (capped_failure order (c ∷ cs) st) st passing
          adding st' h in
      let greedy = skip_reserved_input_greedy order c (st.calls) (st.enc) skips in
      subst (IsPassed order st) e
        (record { greedy = greedy; same = refl; pays = refl; counts = refl; passes = refl })
