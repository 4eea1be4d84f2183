-- ===== src/Reservations/Duplicates.antt =====
-- The duplicate-build refusal of src/XChainEncoder/outpoint_reservations.js.
use xchain_encoder.Base.{
  ℕ, ◌+◌, ◌≤◌, ◌<◌, String, ◌≡◌, refl, sym, ◌∙◌, ◌≢◌, inl, inr, if_pos, if_neg, arith,
  if◌then◌else◌, Bool-cases, string_discrete, map_set,
}
use xchain_encoder.Failures.{ok, throw, operational, duplicate_transaction}
use xchain_encoder.Reservations.State.{Encoder, reservation_ttl_ms, has, keep_live}
use xchain_encoder.Reservations.Operations.{refuse_duplicate_build}

verdict :
    (txid : String) (now : ℕ) (enc : Encoder)
    → (refuse_duplicate_build txid now enc).1 ≡ (
        if has (keep_live now (enc.recent_builds txid))
        then throw (operational duplicate_transaction)
        else ok txid)
unfolding refuse_duplicate_build
verdict txid now enc = elim (Bool-cases (has (keep_live now (enc.recent_builds txid)))) [
  | inl h ↦ rw h
  | inr h ↦ rw h
]

builds_after :
    (txid : String) (now : ℕ) (enc : Encoder)
    → (refuse_duplicate_build txid now enc).1 ≡ ok txid
    → (j : String)
    → (refuse_duplicate_build txid now enc).0.recent_builds j
      ≡ map_set txid (now + reservation_ttl_ms) (λ k. keep_live now (enc.recent_builds k)) j
unfolding refuse_duplicate_build
builds_after txid now enc built j =
    elim (Bool-cases (has (keep_live now (enc.recent_builds txid)))) [
      | inl h ↦ absurd (refused (rw h at built))
      | inr h ↦ rw h
    ]
  where
    refused : throw (operational duplicate_transaction) ≡ ok txid → ⊥
    refused e = cc

-- Once a transaction has been built, an identical rebuild is refused at every later time inside the
-- time to live and accepted from its end on; and recording it changes no other transaction's
-- verdict at any time.
pub refuse_duplicate_build-window :
    (txid other : String) (now later : ℕ) (enc : Encoder)
    → (refuse_duplicate_build txid now enc).1 ≡ ok txid
    → now ≤ later
    → txid ≢ other
    → (later < now + reservation_ttl_ms
        → (refuse_duplicate_build txid later (refuse_duplicate_build txid now enc).0).1
          ≡ throw (operational duplicate_transaction))
      × (now + reservation_ttl_ms ≤ later
          → (refuse_duplicate_build txid later (refuse_duplicate_build txid now enc).0).1 ≡ ok txid)
      × ((refuse_duplicate_build other later (refuse_duplicate_build txid now enc).0).1
          ≡ (refuse_duplicate_build other later enc).1)
refuse_duplicate_build-window txid other now later enc built le ne =
    let self = builds_after txid now enc built txid ∙ if_pos (string_discrete txid txid) refl _ _ in
    let away = builds_after txid now enc built other ∙ if_neg (string_discrete txid other) ne _ _ in
    (
      (λ lt. verdict txid later _ ∙ rw self (ground arith)),
      (λ ge. verdict txid later _ ∙ rw self (ground arith)),
      verdict other later _ ∙ rw away (ground arith) ∙ sym (verdict other later enc),
    )
