-- ===== src/Tests/Reservations.antt =====
-- src/XChainEncoder/outpoint_reservations.js on a map of a few outpoints.
use xchain_encoder.Base.{
  ℕ, ◌+◌, ◌≤◌, ◌<◌, String, ◌≡◌, refl, ap, ◌≢◌, ◌⊎◌, ite, Bool, true, false, none, some, List, [],
  ◌∷◌, ◌++◌, arith, if◌then◌else◌, All, In, string_discrete, map_empty, map_set,
}
use xchain_encoder.Failures.{ok, throw, operational, duplicate_transaction, input_reserved}
use xchain_encoder.Reservations.Operations.{
  claim_outpoint, reserve_outpoint, is_outpoint_reserved, evict_expired_reservations,
}
use xchain_encoder.Reservations.Leases.{
  sweep_all, ask, claim, Event, lease_answers, encoder_step, encoder_answers,
}
use xchain_encoder.Reservations.Views.{encoder_answers-leases}
use xchain_encoder.Reservations.State.{
  Claim, Ledger, Owners, Encoder, no_reservations, reservation_ttl_ms, stamp_is, keep_live,
}
use xchain_encoder.Reservations.Operations.{
  refuse_duplicate_build, is_outpoint_reserved, release_call_reservations,
  evict_expired_reservations, release_envelope_cancel_claims,
}
use xchain_encoder.Reservations.Tickets.{
  Release, live_claims, last_expiry, mint_reservation_ticket, is_reservation_id,
  release_reservation,
}
use xchain_encoder.Reservations.Release.{release_call_reservations-owned}
use xchain_encoder.Reservations.Exclusion.{World, with_claim, here, next, claims, IsExclusive}
use xchain_encoder.Reservations.Guard.{Reach-IsExclusive}
use xchain_encoder.Reservations.Exact.{
  named, empty_ledger, claim_exact_inputs, claim_exact_inputs-all_or_nothing,
}
use xchain_encoder.Reservations.FirstFree.{
  Candidate, Bound, IsHeldAt, reserved_for, claim_first_free_input, txid_first_input,
  claim_first_free_input-head,
}
use xchain_encoder.Reservations.Mint.{release_reservation-mint}
use xchain_encoder.Reservations.Cancel.{
  cancel_claim, IsWithout, release_envelope_cancel_claims-survivor,
}
use xchain_encoder.Reservations.Duplicates.{refuse_duplicate_build-window}

-- One outpoint reserved until 500, by a build whose ledger holds that stamp.
abbrev reserved : Encoder
reserved = record no_reservations { outpoint_reservations = map_set "a:0" 500 map_empty }

abbrev stamped : Claim
stamped = record { key = "a:0"; expiry = 500; cancel_owner_id = none }

abbrev ledger : Ledger
ledger = record { claims = stamped ∷ []; build_txid = none }

abbrev ticket_id : String
ticket_id = "0123456789abcdef0123456789abcdef"

ticket_id-IsId : is_reservation_id ticket_id ≡ true
unfolding is_reservation_id
ticket_id-IsId = refl

release_call_reservations-owned_example :
    (release_call_reservations (stamped ∷ []) reserved).outpoint_reservations "a:0" ≡ none
unfolding string_discrete
release_call_reservations-owned_example =
    release_call_reservations-owned (stamped ∷ []) reserved "a:0"

abbrev start : World
start = record { now = 10; enc = no_reservations; holders = [] }

a_is_free : (is_outpoint_reserved "a:0" 10 no_reservations).1 ≡ false
unfolding is_outpoint_reserved
a_is_free = refl

Reach-IsExclusive_example : IsExclusive (with_claim start 1 "a:0")
Reach-IsExclusive_example =
    Reach-IsExclusive no_reservations 10 (next here (claims start 1 "a:0" a_is_free))

claim_exact_inputs-all_or_nothing_example :
    ((enc' : Encoder) × (calls : Ledger) × (claim_exact_inputs ("b:1" ∷ []) 10 empty_ledger reserved
        ≡ (enc', ok calls))
      × (named "b:1" ("b:1" ∷ []) ≡ true
          → enc'.outpoint_reservations "b:1" ≡ some (10 + reservation_ttl_ms))
      × ((release_call_reservations (calls.claims) enc').outpoint_reservations "b:1"
          ≡ keep_live 10 (reserved.outpoint_reservations "b:1")))
    ⊎ (claim_exact_inputs ("b:1" ∷ []) 10 empty_ledger reserved
        ≡ (evict_expired_reservations 10 reserved, throw (operational input_reserved)))
claim_exact_inputs-all_or_nothing_example =
    claim_exact_inputs-all_or_nothing ("b:1" ∷ []) 10 reserved "b:1"

stamped_is_live : live_claims (ledger.claims) reserved ≡ stamped ∷ []
unfolding live_claims string_discrete
stamped_is_live = refl

cons-ne-nil : stamped ∷ [] ≢ []
cons-ne-nil = ground arith

release_reservation-mint_example :
    (r : Release) × ((release_reservation
        (some ticket_id)
        300
        (mint_reservation_ticket ticket_id ledger 20 reserved).0).1
      ≡ ok r)
    × (r.found ≡ true)
    × ((release_reservation
            (some ticket_id)
            300
            (mint_reservation_ticket ticket_id ledger 20 reserved).0).0.outpoint_reservations
          "a:0"
        ≡ none)
unfolding live_claims last_expiry string_discrete
release_reservation-mint_example =
    release_reservation-mint ticket_id ledger 20 300 reserved "a:0" ticket_id-IsId (refl, tt)
      cons-ne-nil (omega arith)

abbrev two_owners : Owners
two_owners = ("x", 400) ∷ ("y", 500) ∷ []

refuse_first : (refuse_duplicate_build "t" 10 no_reservations).1 ≡ ok "t"
unfolding refuse_duplicate_build
refuse_first = refl

true_ne_false : ◌≢◌ {A = Bool} true false
true_ne_false = ground arith

t_ne_u : ◌≢◌ {A = String} "t" "u"
unfolding string_discrete
t_ne_u e = true_ne_false (ap (λ s. ite (string_discrete "t" s) true false) e)

refuse_duplicate_build-window_example :
    (20 < 10 + reservation_ttl_ms
      → (refuse_duplicate_build "t" 20 (refuse_duplicate_build "t" 10 no_reservations).0).1
        ≡ throw (operational duplicate_transaction))
    × (10 + reservation_ttl_ms ≤ 20
        → (refuse_duplicate_build "t" 20 (refuse_duplicate_build "t" 10 no_reservations).0).1
          ≡ ok "t")
    × ((refuse_duplicate_build "u" 20 (refuse_duplicate_build "t" 10 no_reservations).0).1
        ≡ (refuse_duplicate_build "u" 20 no_reservations).1)
refuse_duplicate_build-window_example =
    refuse_duplicate_build-window "t" "u" 10 20 no_reservations refuse_first (omega arith) t_ne_u

-- Two cancel builds on one outpoint, the second of which fails.
abbrev cancelling : Encoder
cancelling = record reserved { envelope_cancel_claims = map_set "a:0" two_owners map_empty }

cancelling_owners : cancelling.envelope_cancel_claims "a:0" ≡ some two_owners
unfolding string_discrete
cancelling_owners = refl

abbrev after_failure : Encoder
after_failure = release_envelope_cancel_claims 100 (cancel_claim "a:0" 500 "y" ∷ []) cancelling

release_envelope_cancel_claims-survivor_example :
    ((left : Owners) × IsWithout "y" two_owners left
      × (((n : ℕ) × (after_failure.outpoint_reservations "a:0" ≡ some n)
            × (100 < n)
            × ((o : String) × In (o, n) left)
            × All (λ (o : String × ℕ). o.1 ≤ n) left
            × (after_failure.envelope_cancel_claims "a:0" ≡ some left))
          ⊎ (All (λ (o : String × ℕ). o.1 ≤ 100) left
              × (after_failure.envelope_cancel_claims "a:0" ≡ none)
              × (after_failure.outpoint_reservations "a:0" ≡ (
                  if stamp_is (cancelling.outpoint_reservations "a:0") 500
                  then none
                  else cancelling.outpoint_reservations "a:0")))))
    × ((j : String)
        → "a:0" ≢ j
        → (after_failure.outpoint_reservations j ≡ cancelling.outpoint_reservations j)
          × (after_failure.envelope_cancel_claims j ≡ cancelling.envelope_cancel_claims j))
release_envelope_cancel_claims-survivor_example =
    release_envelope_cancel_claims-survivor "a:0" "y" 500 100 cancelling two_owners
      cancelling_owners

-- The first candidate is held until 500, the second is free.
abbrev two_candidates : List Candidate
two_candidates = record { key = "a:0"; txid = "a" } ∷ record { key = "b:1"; txid = "b" } ∷ []

abbrev swept_at_10 : Encoder
swept_at_10 = evict_expired_reservations 10 reserved

abbrev bound_at_10 : Bound
bound_at_10 = claim_first_free_input 10 empty_ledger two_candidates reserved

claim_first_free_input-head_example :
    ((bound_at_10
        ≡ record { enc = swept_at_10; calls = empty_ledger; utxos = two_candidates; first = none })
      × All (IsHeldAt 10 swept_at_10) two_candidates)
    ⊎ ((pre : List Candidate) × (u : Candidate) × (post : List Candidate) × (two_candidates
          ≡ pre ++ u ∷ post)
        × All (IsHeldAt 10 swept_at_10) pre
        × (swept_at_10.outpoint_reservations (u.key) ≡ none)
        × (txid_first_input bound_at_10 ≡ some (u.txid))
        × (bound_at_10 ≡ record {
          enc = reserved_for u 10 swept_at_10;
          calls = record empty_ledger {
            claims =
                empty_ledger.claims
                ++ record { key = u.key; expiry = 10 + reservation_ttl_ms; cancel_owner_id = none }
                  ∷ [];
          };
          utxos = u ∷ (pre ++ post);
          first = some u;
        }))
claim_first_free_input-head_example =
    claim_first_free_input-head 10 empty_ledger two_candidates reserved

-- A claim, a sweep past its end, and two questions.
abbrev calls : List Event
calls =
    record { now = 10; call = claim "t" }
    ∷ record { now = 20; call = ask "t" }
    ∷ record { now = 400000; call = sweep_all }
    ∷ record { now = 400001; call = ask "t" }
    ∷ []

calls_answers : encoder_answers calls no_reservations ≡ false ∷ true ∷ false ∷ false ∷ []
unfolding encoder_answers encoder_step claim_outpoint reserve_outpoint is_outpoint_reserved
    evict_expired_reservations string_discrete
calls_answers = refl

encoder_answers-leases_example :
    encoder_answers calls no_reservations ≡ lease_answers calls map_empty
encoder_answers-leases_example =
    encoder_answers-leases calls (omega arith, (omega arith, (omega arith, (omega arith, tt))))
