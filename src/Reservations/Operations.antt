-- ===== src/Reservations/Operations.antt =====
-- The methods of src/XChainEncoder/outpoint_reservations.js, but for the tickets. A method takes the
-- state and returns it; the clock and the random ids are arguments.
use xchain_encoder.Base.{
  ℕ, ◌+◌, String, Bool, true, false, ◌&&◌, Option, none, some, List, [], ◌∷◌, ◌++◌, ltb, leb,
  if◌then◌else◌, map_set, map_delete,
}
use xchain_encoder.Failures.{Result, ok, throw, operational, duplicate_transaction}
use xchain_encoder.Reservations.State.{
  Claim, Ledger, Owners, Encoder, reservation_ttl_ms, no_reservations, stamp_is, keep_live, has,
  delete_owner, live_owners,
}

unfoldable pub evict_expired_recent_builds : ℕ → Encoder → Encoder
evict_expired_recent_builds now enc = record enc {
  recent_builds = λ k. keep_live now (enc.recent_builds k);
}

-- The unsigned txid is an argument: the PSBT that it hashes is bitcoinjs-lib's.
unfoldable pub refuse_duplicate_build : String → ℕ → Encoder → Encoder × Result String
unfolding evict_expired_recent_builds
refuse_duplicate_build txid now enc =
    let enc' = evict_expired_recent_builds now enc in
    if has (enc'.recent_builds txid) then (enc', throw (operational duplicate_transaction)) else (
      record enc' { recent_builds = map_set txid (now + reservation_ttl_ms) (enc'.recent_builds) },
      ok txid,
    )

unfoldable pub is_outpoint_reserved : String → ℕ → Encoder → Encoder × Bool
is_outpoint_reserved key now enc = elim (enc.outpoint_reservations key) [
  | none ↦ (enc, false)
  | some expiry ↦
      if leb expiry now
      then (
        record enc { outpoint_reservations = map_delete key (enc.outpoint_reservations) },
        false,
      )
      else (enc, true)
]

unfoldable pub reserve_outpoint : String → ℕ → Encoder → Encoder × ℕ
reserve_outpoint key now enc =
    let expiry = now + reservation_ttl_ms in
    (record enc { outpoint_reservations = map_set key expiry (enc.outpoint_reservations) }, expiry)

unfoldable pub claim_outpoint : Ledger → String → ℕ → Encoder → Encoder × Ledger
unfolding reserve_outpoint
claim_outpoint calls key now enc =
    let (enc', expiry) = reserve_outpoint key now enc in
    let claim : Claim = record { key = key; expiry = expiry; cancel_owner_id = none } in
    (enc', record calls { claims = calls.claims ++ claim ∷ [] })

abbrev pub release_stamped : Claim → Encoder → Encoder
release_stamped claim enc =
    if stamp_is (enc.outpoint_reservations (claim.key)) (claim.expiry)
    then record enc { outpoint_reservations = map_delete (claim.key) (enc.outpoint_reservations) }
    else enc

unfoldable pub release_call_reservations : List Claim → Encoder → Encoder
release_call_reservations [] enc = enc
release_call_reservations (claim ∷ claims) enc =
    release_call_reservations claims (release_stamped claim enc)

-- `max` starts at null; an expired owner does not count.
unfoldable pub max_live_loop : ℕ → Option ℕ → Owners → Option ℕ
max_live_loop now best [] = best
max_live_loop now best ((o, e) ∷ os) =
    let higher : Bool = elim best [ none ↦ true | some b ↦ ltb b e ] in
    max_live_loop now (if ltb now e && higher then some e else best) os

unfoldable pub max_live_cancel_owner_expiry : String → ℕ → Encoder → Option ℕ
unfolding max_live_loop
max_live_cancel_owner_expiry key now enc = elim (enc.envelope_cancel_claims key) [
  | none ↦ none
  | some owners ↦ max_live_loop now none owners
]

-- `owners` is the map's own object, so its deletion is written back to the entry.
unfoldable pub drop_cancel_owner : String → String → ℕ → Encoder → Encoder × Bool
unfolding max_live_loop
drop_cancel_owner key owner_id now enc = elim (enc.envelope_cancel_claims key) [
  | none ↦ (enc, false)
  | some owners ↦ elim (max_live_loop now none (delete_owner owner_id owners)) [
    | none ↦
        (record enc { envelope_cancel_claims = map_delete key (enc.envelope_cancel_claims) }, false)
    | some remaining ↦ (
      record enc {
        envelope_cancel_claims =
            map_set key (delete_owner owner_id owners) (enc.envelope_cancel_claims);
        outpoint_reservations = map_set key remaining (enc.outpoint_reservations);
      },
      true,
    )
  ]
]

-- Whether another cancel owner still holds the claim, its own token dropped first.
unfoldable pub retire_owner : Claim → ℕ → Encoder → Encoder × Bool
unfolding drop_cancel_owner
retire_owner claim now enc = elim (claim.cancel_owner_id) [
  | none ↦ (enc, false)
  | some id ↦ drop_cancel_owner (claim.key) id now enc
]

-- The loop that sorts the claims into those withheld and `handBack`.
unfoldable pub hand_back_loop : ℕ → List Claim → List Claim → Encoder → Encoder × List Claim
hand_back_loop now [] hand_back enc = (enc, hand_back)
hand_back_loop now (claim ∷ claims) hand_back enc =
    hand_back_loop now claims
      (if (retire_owner claim now enc).1 then hand_back else hand_back ++ claim ∷ [])
      (retire_owner claim now enc).0

unfoldable pub release_envelope_cancel_claims : ℕ → List Claim → Encoder → Encoder
unfolding hand_back_loop retire_owner
release_envelope_cancel_claims now claims enc =
    let (enc', hand_back) = hand_back_loop now claims [] enc in
    release_call_reservations hand_back enc'

abbrev pub keep_owned : Owners → Option Owners
keep_owned [] = none
keep_owned (o ∷ os) = some (o ∷ os)

unfoldable pub evict_expired_envelope_cancel_claims : ℕ → Encoder → Encoder
evict_expired_envelope_cancel_claims now enc = record enc {
  envelope_cancel_claims = λ k. elim (enc.envelope_cancel_claims k) [
    | none ↦ none
    | some owners ↦ keep_owned (live_owners now owners)
  ];
}

unfoldable pub evict_expired_reservations : ℕ → Encoder → Encoder
evict_expired_reservations now enc = record enc {
  outpoint_reservations = λ k. keep_live now (enc.outpoint_reservations k);
}

unfoldable pub evict_expired_reservation_tickets : ℕ → Encoder → Encoder
evict_expired_reservation_tickets now enc = record enc {
  reservation_tickets = λ k. elim (enc.reservation_tickets k) [
    | none ↦ none
    | some ticket ↦ if leb (ticket.expiry) now then none else some ticket
  ];
}

unfoldable pub clear_reservations : Encoder → Encoder
clear_reservations enc = no_reservations
