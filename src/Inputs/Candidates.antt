-- ===== src/Inputs/Candidates.antt =====
-- src/XChainEncoder/build_transaction/input_candidates.js: the checks, the filter and the order of
-- the candidate inputs. A candidate has its outpoint key, as `outpointKey` spells it, and the code
-- units of its txid in lower case. `Array.prototype.sort` is a stable sort, here by insertion.
use xchain_encoder.Base.{
  ℕ, String, ite, Bool, true, false, not, ◌&&◌, ◌||◌, Option, none, some, List, [], ◌∷◌, ltb, ◌==◌,
  if◌then◌else◌, string_discrete,
}
use xchain_encoder.Failures.{Result, ok, param_type, operational, no_utxos, ◌>>◌, throw_if}

pub record Utxo : Type 0 where
  pub key : String
  pub txid : List ℕ
  pub vout : ℕ
  pub value : ℕ
  pub confirmations : Option ℕ

abbrev pub is_unconfirmed_utxo : Utxo → Bool
is_unconfirmed_utxo u = elim (u.confirmations) [ none ↦ true | some n ↦ n == 0 ]

-- `Set.prototype.has`.
abbrev pub has_key : String → List String → Bool
has_key k [] = false
has_key k (j ∷ js) = ite (string_discrete k j) true (has_key k js)

abbrev pub names_unconfirmed : List Utxo → Bool
names_unconfirmed [] = false
names_unconfirmed (u ∷ us) = is_unconfirmed_utxo u || names_unconfirmed us

abbrev pub names_twice : List String → List Utxo → Bool
names_twice seen [] = false
names_twice seen (u ∷ us) = has_key (u.key) seen || names_twice (u.key ∷ seen) us

unfoldable pub refuse_shrunk_exact_inputs : Bool → Bool → List Utxo → Result (Unit {0})
refuse_shrunk_exact_inputs exact_inputs unconfirmed utxos =
    throw_if (exact_inputs && (not unconfirmed && names_unconfirmed utxos)) param_type
    >> throw_if (exact_inputs && names_twice [] utxos) param_type

-- One pass: the mempool filter, then the first occurrence of each outpoint.
unfoldable pub filter_loop : Bool → List String → List Utxo → List Utxo
filter_loop unconfirmed seen [] = []
filter_loop unconfirmed seen (u ∷ us) =
    let skip = filter_loop unconfirmed seen us in
    let keep = filter_loop unconfirmed (u.key ∷ seen) us in
    if not unconfirmed && is_unconfirmed_utxo u
    then skip
    else if has_key (u.key) seen
    then skip
    else u ∷ keep

-- `txidA < txidB`.
abbrev pub text_lt : List ℕ → List ℕ → Bool
text_lt [] [] = false
text_lt [] (b ∷ bs) = true
text_lt (a ∷ as') [] = false
text_lt (a ∷ as') (b ∷ bs) = if ltb a b then true else if ltb b a then false else text_lt as' bs

-- `compareCandidates(a, b) > 0`.
unfoldable pub comes_after : Utxo → Utxo → Bool
comes_after a b =
    if ltb (a.value) (b.value)
    then true
    else if ltb (b.value) (a.value)
    then false
    else if text_lt (a.txid) (b.txid)
    then false
    else if text_lt (b.txid) (a.txid)
    then true
    else ltb (b.vout) (a.vout)

unfoldable pub insert_candidate : Utxo → List Utxo → List Utxo
unfolding comes_after
insert_candidate u [] = u ∷ []
insert_candidate u (v ∷ vs) =
    let rest = insert_candidate u vs in if comes_after u v then v ∷ rest else u ∷ v ∷ vs

unfoldable pub sort_candidates : List Utxo → List Utxo
unfolding insert_candidate
sort_candidates [] = []
sort_candidates (u ∷ us) = insert_candidate u (sort_candidates us)

abbrev pub is_empty : List Utxo → Bool
is_empty [] = true
is_empty (u ∷ us) = false

unfoldable pub filter_and_order_utxos : Bool → Bool → Bool → List Utxo → Result (List Utxo)
unfolding filter_loop sort_candidates
filter_and_order_utxos exact_inputs unconfirmed is_reveal utxos =
    let kept = filter_loop unconfirmed [] utxos in
    throw_if (is_empty kept && not is_reveal) (operational no_utxos)
    >> ok (if exact_inputs then kept else sort_candidates kept)
