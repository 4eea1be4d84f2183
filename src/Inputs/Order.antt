-- ===== src/Inputs/Order.antt =====
-- The candidates that `filterAndOrderUtxos` of src/XChainEncoder/build_transaction/
-- input_candidates.js hands on.
use xchain_encoder.Base.{
  ◌≤◌, ◌≡◌, refl, sym, subst, ◌≢◌, ◌↔◌, inl, inr, Bool, true, false, List, [], ◌∷◌, arith,
  if◌then◌else◌, Bool-cases, All, In,
}
use xchain_encoder.Failures.{ok}
use xchain_encoder.Inputs.Candidates.{
  Utxo, has_key, filter_loop, comes_after, insert_candidate, sort_candidates, is_empty,
  filter_and_order_utxos,
}
use xchain_encoder.Inputs.Filter.{
  true_ne_false, IsAllowed, IsDistinct, All-map, filter-IsNew, filter-IsDistinct, In-filter,
  filter-IsCovered,
}

-- Value descending.
abbrev pub IsDescending : List Utxo → Type 0
IsDescending [] = Unit
IsDescending (u ∷ us) = All (λ v. v.value ≤ u.value) us × IsDescending us

All-insert :
    (P : Utxo → Type 0) (u : Utxo) (vs : List Utxo) → P u → All P vs → All P (insert_candidate u vs)
unfolding insert_candidate
All-insert P u [] p a = (p, tt)
All-insert P u (v ∷ vs) p (q, a) = elim (Bool-cases (comes_after u v)) [
  | inl later ↦ rw later (q, All-insert P u vs p a)
  | inr sooner ↦ rw sooner (p, (q, a))
]

In-insert : (u : Utxo) (vs : List Utxo) (w : Utxo) → In w (insert_candidate u vs) ↔ In w (u ∷ vs)
unfolding insert_candidate
In-insert u [] w = (λ i. i, λ i. i)
In-insert u (v ∷ vs) w = elim (Bool-cases (comes_after u v)) [
  | inl later ↦ rw later (
    (λ i. elim i [
      | inl e ↦ inr (inl e)
      | inr j ↦ elim ((In-insert u vs w).0 j) [ inl e ↦ inl e | inr k ↦ inr (inr k) ]
    ]),
    (λ i. elim i [
      | inl e ↦ inr ((In-insert u vs w).1 (inl e))
      | inr j ↦ elim j [ inl e ↦ inl e | inr k ↦ inr ((In-insert u vs w).1 (inr k)) ]
    ]),
  )
  | inr sooner ↦ rw sooner (λ i. i, λ i. i)
]

insert-IsDistinct :
    (u : Utxo) (vs : List Utxo)
    → All (λ v. u.key ≢ v.key) vs
    → IsDistinct vs
    → IsDistinct (insert_candidate u vs)
unfolding insert_candidate
insert-IsDistinct u [] n d = (tt, tt)
insert-IsDistinct u (v ∷ vs) (n, ns) (m, d) = elim (Bool-cases (comes_after u v)) [
  | inl later ↦
      rw later
        (All-insert (λ w. v.key ≢ w.key) u vs (λ e. n (sym e)) m, insert-IsDistinct u vs ns d)
  | inr sooner ↦ rw sooner ((n, ns), (m, d))
]

comes_after-le : (u v : Utxo) → comes_after u v ≡ true → u.value ≤ v.value
unfolding comes_after
comes_after-le u v h = ground arith

not-comes_after-le : (u v : Utxo) → comes_after u v ≡ false → v.value ≤ u.value
unfolding comes_after
not-comes_after-le u v h = ground arith

insert-IsDescending :
    (u : Utxo) (vs : List Utxo) → IsDescending vs → IsDescending (insert_candidate u vs)
unfolding insert_candidate
insert-IsDescending u [] d = (tt, tt)
insert-IsDescending u (v ∷ vs) (m, d) = elim (Bool-cases (comes_after u v)) [
  | inl later ↦ rw later (
    All-insert (λ w. w.value ≤ v.value) u vs (comes_after-le u v later) m,
    insert-IsDescending u vs d,
  )
  | inr sooner ↦
      let le = not-comes_after-le u v sooner in
      rw sooner ((le, All-map vs (λ w p. omega (arith, p, le)) m), (m, d))
]

All-sort : (P : Utxo → Type 0) (us : List Utxo) → All P us → All P (sort_candidates us)
unfolding sort_candidates
All-sort P [] a = tt
All-sort P (u ∷ us) (p, a) = All-insert P u (sort_candidates us) p (All-sort P us a)

In-sort : (us : List Utxo) (w : Utxo) → In w (sort_candidates us) ↔ In w us
unfolding sort_candidates
In-sort [] w = (λ i. i, λ i. i)
In-sort (u ∷ us) w = (
  (λ i. elim ((In-insert u (sort_candidates us) w).0 i) [
    | inl e ↦ inl e
    | inr j ↦ inr ((In-sort us w).0 j)
  ]),
  (λ i.
      (In-insert u (sort_candidates us) w).1
        (elim i [ inl e ↦ inl e | inr j ↦ inr ((In-sort us w).1 j) ])),
)

sort-IsDistinct : (us : List Utxo) → IsDistinct us → IsDistinct (sort_candidates us)
unfolding sort_candidates
sort-IsDistinct [] d = tt
sort-IsDistinct (u ∷ us) (n, d) =
    insert-IsDistinct u (sort_candidates us) (All-sort (λ v. u.key ≢ v.key) us n)
      (sort-IsDistinct us d)

sort-IsDescending : (us : List Utxo) → IsDescending (sort_candidates us)
unfolding sort_candidates
sort-IsDescending [] = tt
sort-IsDescending (u ∷ us) = insert-IsDescending u (sort_candidates us) (sort-IsDescending us)

-- The candidates in the order of selection.
abbrev pub ordered : Bool → Bool → List Utxo → List Utxo
ordered exact_inputs unconfirmed utxos =
    let kept = filter_loop unconfirmed [] utxos in
    if exact_inputs then kept else sort_candidates kept

ordered-In :
    (exact_inputs unconfirmed : Bool) (utxos : List Utxo) (v : Utxo)
    → In v (ordered exact_inputs unconfirmed utxos) ↔ In v (filter_loop unconfirmed [] utxos)
ordered-In true unconfirmed utxos v = (λ i. i, λ i. i)
ordered-In false unconfirmed utxos v = In-sort (filter_loop unconfirmed [] utxos) v

ordered-IsDistinct :
    (exact_inputs unconfirmed : Bool) (utxos : List Utxo)
    → IsDistinct (ordered exact_inputs unconfirmed utxos)
ordered-IsDistinct true unconfirmed utxos = filter-IsDistinct unconfirmed [] utxos
ordered-IsDistinct false unconfirmed utxos =
    sort-IsDistinct (filter_loop unconfirmed [] utxos) (filter-IsDistinct unconfirmed [] utxos)

All-In : (P : Utxo → Type 0) (us : List Utxo) (v : Utxo) → All P us → In v us → P v
All-In P [] v a i = absurd i
All-In P (u ∷ us) v (p, a) (inl e) = subst P e p
All-In P (u ∷ us) v (p, a) (inr j) = All-In P us v a j

In-nonempty : (us : List Utxo) (v : Utxo) → In v us → is_empty us ≡ false
In-nonempty [] v i = absurd i
In-nonempty (u ∷ us) v i = refl

-- Whenever some candidate passes the mempool filter, or on a reveal, a list is handed on: no
-- outpoint stands in it twice, each of its entries is one of the candidates and passes the filter,
-- every candidate that passes is in it by its outpoint, and unless the caller named exact inputs
-- its values descend.
pub filter_and_order_utxos-candidates :
    (exact_inputs unconfirmed is_reveal : Bool) (utxos : List Utxo)
    → let out = ordered exact_inputs unconfirmed utxos in
      IsDistinct out
      × ((v : Utxo) → In v out → In v utxos × IsAllowed unconfirmed v)
      × ((u : Utxo)
          → In u utxos
          → IsAllowed unconfirmed u
          → ((v : Utxo) × In v out × (v.key ≡ u.key))
            × (filter_and_order_utxos exact_inputs unconfirmed is_reveal utxos ≡ ok out))
      × (is_reveal ≡ true
          → filter_and_order_utxos exact_inputs unconfirmed is_reveal utxos ≡ ok out)
      × (exact_inputs ≡ false → IsDescending out)
unfolding filter_and_order_utxos
filter_and_order_utxos-candidates exact_inputs unconfirmed is_reveal utxos = (
  ordered-IsDistinct exact_inputs unconfirmed utxos,
  (λ v i.
      let j = (ordered-In exact_inputs unconfirmed utxos v).0 i in
      (
        In-filter unconfirmed [] utxos v j,
        (All-In (λ w. IsAllowed unconfirmed w × (has_key (w.key) [] ≡ false))
            (filter_loop unconfirmed [] utxos) v (filter-IsNew unconfirmed [] utxos) j).0,
      )),
  (λ u i a. elim (filter-IsCovered unconfirmed [] utxos u i a) [
    | inl h ↦ true_ne_false (sym h)
    | inr (v, j, e) ↦ (
      (v, (ordered-In exact_inputs unconfirmed utxos v).1 j, e),
      rw (In-nonempty (filter_loop unconfirmed [] utxos) v j) refl,
    )
  ]),
  (λ r. ground arith),
  (λ e. rw e (sort-IsDescending (filter_loop unconfirmed [] utxos))),
)
