-- ===== src/Selection/Sound.antt =====
-- What the selection loop of src/XChainEncoder/build_transaction/input_selection.js adds, counts and
-- claims.
use xchain_encoder.Base.{
  ◌+◌, ◌≤◌, ◌≡◌, refl, sym, ap, ◌∙◌, subst, ◌⊎◌, inl, inr, Bool, true, false, ◌&&◌, List, [], ◌∷◌,
  ◌++◌, append_assoc, append-nil, arith, if◌then◌else◌, Bool-cases, length,
}
use xchain_encoder.Selection.State.{
  max_utxo_count, Candidate, Order, State, Outcome, selected, refused, World,
}
use xchain_encoder.Selection.Loop.{is_funded, select_round, select_loop}
use xchain_encoder.Selection.Rounds.{
  IsPart, none_left, passed, taken, value_of, candidates_of, IsAdded, IsPassed, round-IsAdded,
  round-IsPassed,
}

pair_lem :
    {o : Outcome × Bool} {st : State} {b : Bool}
    → o.0 ≡ selected st
    → o.1 ≡ b
    → o ≡ (selected st, b)
pair_lem e w = cc

-- A loop that selects either stops after a round or goes on from its state.
going_lem :
    (o : Outcome) (added : Bool) (funded : State → Bool) (rest : State → Outcome) (st' : State)
    → ◌≡◌ {A = Outcome}
        (elim o [
          | refused failure st ↦ refused failure st
          | selected st ↦ if added && funded st then selected st else rest st
        ])
        (selected st')
    → (st : State) × (o ≡ selected st)
      × ((added ≡ true) × (funded st ≡ true) × (st ≡ st') ⊎ (rest st ≡ selected st'))
going_lem (refused failure st) added funded rest st' h = absurd (ground arith)
going_lem (selected st) added funded rest st' h = (st, refl, ground arith)

module _ (world : World) (order : Order) where
  -- A run of the loop: which candidates it added, and why it ended.
  pub record IsSelection (cs : List Candidate) (st st' : State) : Type 0 where
    pub added : List Candidate
    pub part : IsPart added cs
    pub adds : candidates_of (st'.picked) ≡ candidates_of (st.picked) ++ added
    pub pays : st'.input_satoshis ≡ st.input_satoshis + value_of added
    pub counts : st'.selected_input_count ≡ st.selected_input_count + length added
    pub whole : order.exact_inputs ≡ true → added ≡ cs
    pub within :
        st.selected_input_count ≤ max_utxo_count → st'.selected_input_count ≤ max_utxo_count
    pub ended :
        (is_funded world order st' ≡ true)
        ⊎ (st'.reserved_candidates + length added ≡ st.reserved_candidates + length cs)

  is_funded_exact : (st : State) → order.exact_inputs ≡ true → ¬ (is_funded world order st ≡ true)
  unfolding is_funded
  is_funded_exact st h f = ground arith

  start_IsSelection : (st : State) → IsSelection [] st st
  start_IsSelection st = record {
    added = [];
    part = none_left [];
    adds = sym (append-nil _);
    pays = omega arith;
    counts = omega arith;
    whole = λ h. refl;
    within = λ h. h;
    ended = inr (omega arith);
  }

  stop_IsSelection :
      (c : Candidate) (cs : List Candidate) (st st' : State)
      → IsAdded c st st'
      → is_funded world order st' ≡ true
      → IsSelection (c ∷ cs) st st'
  stop_IsSelection c cs st st' a funded = record {
    added = c ∷ [];
    part = taken c (none_left cs);
    adds = a.adds;
    pays = omega (arith, a.pays);
    counts = a.counts;
    whole = λ h. absurd (is_funded_exact st' h funded);
    within = λ h. a.within;
    ended = inl funded;
  }

  taken_IsSelection :
      (c : Candidate) (cs : List Candidate) (st st1 st' : State)
      → IsAdded c st st1
      → IsSelection cs st1 st'
      → IsSelection (c ∷ cs) st st'
  taken_IsSelection c cs st st1 st' a r = record {
    added = c ∷ r.added;
    part = taken c (r.part);
    adds =
        r.adds
        ∙ ap (λ l. l ++ r.added) (a.adds)
        ∙ append_assoc (candidates_of (st.picked)) (c ∷ []) (r.added);
    pays = omega (arith, a.pays, r.pays);
    counts = omega (arith, a.counts, r.counts);
    whole = λ h. ap (◌∷◌ c) (r.whole h);
    within = λ h. r.within (a.within);
    ended = elim (r.ended) [ inl e ↦ inl e | inr e ↦ inr (omega (arith, a.keeps, e)) ];
  }

  passed_IsSelection :
      (c : Candidate) (cs : List Candidate) (st st1 st' : State)
      → IsPassed order st st1
      → IsSelection cs st1 st'
      → IsSelection (c ∷ cs) st st'
  passed_IsSelection c cs st st1 st' a r = record {
    added = r.added;
    part = passed c (r.part);
    adds = r.adds ∙ ap (λ l. candidates_of l ++ r.added) (a.same);
    pays = omega (arith, a.pays, r.pays);
    counts = omega (arith, a.counts, r.counts);
    whole = λ h. absurd (ground (arith, a.greedy, h));
    within = λ h. r.within (omega (arith, a.counts, h));
    ended = elim (r.ended) [ inl e ↦ inl e | inr e ↦ inr (omega (arith, a.passes, e)) ];
  }

  -- Every candidate's round is one of the two above.
  pub select_loop-IsSelection :
      (cs : List Candidate) (st st' : State)
      → select_loop world order cs st ≡ selected st'
      → IsSelection cs st st'
  unfolding select_loop
  select_loop-IsSelection [] st st' h =
      subst (IsSelection [] st) (ground (arith, h)) (start_IsSelection st)
  select_loop-IsSelection (c ∷ cs) st st' h =
      let (st1, e, next) =
        going_lem (select_round world order c cs st).0 (select_round world order c cs st).1
          (is_funded world order) (select_loop world order cs) st' h in
      let round : (b : Bool)
          → (select_round world order c cs st).1 ≡ b
          → select_round world order c cs st ≡ (selected st1, b) =
        λ b w. pair_lem e w in
      elim (Bool-cases (select_round world order c cs st).1) [
        | inr f ↦ elim next [
          | inl (t, _, _) ↦ absurd (ground arith)
          | inr r ↦
              passed_IsSelection c cs st st1 st'
                (round-IsPassed world order c cs st st1 (round false f))
                (select_loop-IsSelection cs st1 st' r)
        ]
        | inl t ↦ elim next [
          | inl (_, funded, same) ↦ subst (IsSelection (c ∷ cs) st) same (
              stop_IsSelection c cs st st1 (round-IsAdded world order c cs st st1 (round true t))
                funded)
          | inr r ↦
              taken_IsSelection c cs st st1 st'
                (round-IsAdded world order c cs st st1 (round true t))
                (select_loop-IsSelection cs st1 st' r)
        ]
      ]
