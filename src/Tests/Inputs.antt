-- ===== src/Tests/Inputs.antt =====
-- src/XChainEncoder/build_transaction/input_candidates.js on three listings of two outpoints.
use xchain_encoder.Base.{
  ◌≡◌, refl, Bool, true, false, none, some, List, [], ◌∷◌, In, string_discrete,
}
use xchain_encoder.Failures.{ok, throw, param_type}
use xchain_encoder.Inputs.Candidates.{
  Utxo, filter_loop, comes_after, insert_candidate, sort_candidates, filter_and_order_utxos,
  refuse_shrunk_exact_inputs,
}
use xchain_encoder.Inputs.Filter.{IsAllowed, IsDistinct}
use xchain_encoder.Inputs.Order.{IsDescending, ordered, filter_and_order_utxos-candidates}

abbrev small : Utxo
small = record { key = "aa:0"; txid = 97 ∷ 97 ∷ []; vout = 0; value = 600; confirmations = some 3 }

abbrev large : Utxo
large = record { key = "bb:1"; txid = 98 ∷ 98 ∷ []; vout = 1; value = 900; confirmations = some 1 }

abbrev mempool : Utxo
mempool = record { key = "cc:0"; txid = 99 ∷ 99 ∷ []; vout = 0; value = 950; confirmations = none }

abbrev listing : List Utxo
listing = small ∷ mempool ∷ large ∷ small ∷ []

listing_in_order : filter_and_order_utxos false false false listing ≡ ok (large ∷ small ∷ [])
unfolding filter_and_order_utxos filter_loop sort_candidates insert_candidate comes_after
    string_discrete
listing_in_order = refl

exact_twice : refuse_shrunk_exact_inputs true true listing ≡ throw param_type
unfolding refuse_shrunk_exact_inputs string_discrete
exact_twice = refl

filter_and_order_utxos-candidates_example :
    IsDistinct (ordered false false listing)
    × ((v : Utxo) → In v (ordered false false listing) → In v listing × IsAllowed false v)
    × ((u : Utxo)
        → In u listing
        → IsAllowed false u
        → ((v : Utxo) × In v (ordered false false listing) × (v.key ≡ u.key))
          × (filter_and_order_utxos false false false listing ≡ ok (ordered false false listing)))
    × (false ≡ true
        → filter_and_order_utxos false false false listing ≡ ok (ordered false false listing))
    × (◌≡◌ {A = Bool} false false → IsDescending (ordered false false listing))
filter_and_order_utxos-candidates_example =
    filter_and_order_utxos-candidates false false false listing
