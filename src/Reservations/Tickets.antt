-- ===== src/Reservations/Tickets.antt =====
-- The ticket methods of src/XChainEncoder/outpoint_reservations.js.
use Prim.Native.Char.{code}
use Prim.Native.String as Text
use xchain_encoder.Base.{
  ℕ, String, Bool, true, false, not, ◌&&◌, ◌||◌, Option, none, some, List, [], ◌∷◌, ◌++◌, ltb, leb,
  ◌==◌, if◌then◌else◌, length, Map, map_set, map_delete,
}
use xchain_encoder.Failures.{Result, ok, throw, param_type}
use xchain_encoder.Reservations.State.{Claim, Ledger, Ticket, Encoder, stamp_is}
use xchain_encoder.Reservations.Operations.{
  retire_owner, evict_expired_recent_builds, evict_expired_reservations,
  evict_expired_reservation_tickets, evict_expired_envelope_cancel_claims,
}

pub record Receipt : Type 0 where
  pub id : String
  pub outpoints : List String
  pub expires_at : ℕ

pub record Release : Type 0 where
  pub found : Bool
  pub released : List String
  pub retained : List String

-- The claims whose stamp is still the map's value.
unfoldable pub live_claims : List Claim → Encoder → List Claim
live_claims [] enc = []
live_claims (claim ∷ claims) enc =
    let rest = live_claims claims enc in
    if stamp_is (enc.outpoint_reservations (claim.key)) (claim.expiry) then claim ∷ rest else rest

unfoldable pub last_expiry : ℕ → List Claim → ℕ
last_expiry best [] = best
last_expiry best (claim ∷ claims) =
    last_expiry (if ltb best (claim.expiry) then claim.expiry else best) claims

abbrev pub keys_of : List Claim → List String
keys_of [] = []
keys_of (claim ∷ claims) = claim.key ∷ keys_of claims

-- `value || null` for an expiry: zero is falsy.
abbrev pub expiry_or_null : Option ℕ → Option ℕ
expiry_or_null none = none
expiry_or_null (some e) = if e == 0 then none else some e

abbrev pub txid_stamp : Option String → Map ℕ → Option ℕ
txid_stamp none builds = none
txid_stamp (some t) builds = expiry_or_null (builds t)

unfoldable pub ticket_for : Ledger → List Claim → Encoder → Ticket
unfolding last_expiry
ticket_for calls live enc = record {
  claims = live;
  expiry = last_expiry 0 live;
  txid = calls.build_txid;
  txid_expiry = txid_stamp (calls.build_txid) (enc.recent_builds);
}

unfoldable pub mint_reservation_ticket : String → Ledger → ℕ → Encoder → Encoder × Option Receipt
unfolding evict_expired_reservation_tickets live_claims ticket_for
mint_reservation_ticket id calls now enc =
    let enc' = evict_expired_reservation_tickets now enc in
    elim (live_claims (calls.claims) enc') [
      | [] ↦ (enc', none)
      | claim ∷ claims ↦ (
        record enc' {
          reservation_tickets =
              map_set id (ticket_for calls (claim ∷ claims) enc') (enc'.reservation_tickets);
        },
        some (record {
          id = id;
          outpoints = keys_of (claim ∷ claims);
          expires_at = last_expiry 0 (claim ∷ claims);
        }),
      )
    ]

abbrev pub codes : String → List ℕ
codes Text.[] = []
codes (Text.◌∷◌ c s) = code c ∷ codes s

unfoldable pub all_hex : List ℕ → Bool
all_hex [] = true
all_hex (c ∷ cs) = ((leb 48 c && leb c 57) || (leb 97 c && leb c 102)) && all_hex cs

-- /^[0-9a-f]{32}$/
unfoldable pub is_reservation_id : String → Bool
unfolding all_hex
is_reservation_id id = (length (codes id) == 32) && all_hex (codes id)

-- One round of the release: the state, and whether the outpoint was freed.
unfoldable pub release_claim : ℕ → Claim → Encoder → Encoder × Bool
unfolding retire_owner
release_claim now claim enc =
    let (enc', still_held) = retire_owner claim now enc in
    if not still_held && stamp_is (enc'.outpoint_reservations (claim.key)) (claim.expiry)
    then (
      record enc' { outpoint_reservations = map_delete (claim.key) (enc'.outpoint_reservations) },
      true,
    )
    else (enc', false)

unfoldable pub release_loop :
    ℕ → List Claim → List String → List String → Encoder → Encoder × List String × List String
release_loop now [] released retained enc = (enc, released, retained)
release_loop now (claim ∷ claims) released retained enc =
    release_loop now claims
      (if (release_claim now claim enc).1 then released ++ claim.key ∷ [] else released)
      (if (release_claim now claim enc).1 then retained else retained ++ claim.key ∷ [])
      (release_claim now claim enc).0

unfoldable pub retire_build : Ticket → Encoder → Encoder
retire_build ticket enc = elim (ticket.txid) [
  | none ↦ enc
  | some t ↦ elim (ticket.txid_expiry) [
    | none ↦ enc
    | some e ↦
        if stamp_is (enc.recent_builds t) e
        then record enc { recent_builds = map_delete t (enc.recent_builds) }
        else enc
  ]
]

unfoldable pub sweep : ℕ → Encoder → Encoder
unfolding evict_expired_reservations evict_expired_envelope_cancel_claims
    evict_expired_recent_builds evict_expired_reservation_tickets
sweep now enc = evict_expired_reservation_tickets now (
    evict_expired_recent_builds now
      (evict_expired_envelope_cancel_claims now (evict_expired_reservations now enc)))

unfoldable pub release_ticket : ℕ → String → Ticket → Encoder → Encoder × Release
unfolding release_loop release_claim retire_build
release_ticket now id ticket enc =
    let enc' : Encoder = record enc {
      reservation_tickets = map_delete id (enc.reservation_tickets);
    } in
    let (enc'', released, retained) = release_loop now (ticket.claims) [] [] enc' in
    (retire_build ticket enc'', record { found = true; released = released; retained = retained })

-- `none` is a reservation id that is not a string.
unfoldable pub release_reservation : Option String → ℕ → Encoder → Encoder × Result Release
unfolding is_reservation_id sweep release_ticket
release_reservation none now enc = (enc, throw param_type)
release_reservation (some id) now enc =
    if not (is_reservation_id id)
    then (enc, throw param_type)
    else elim ((sweep now enc).reservation_tickets id) [
      | none ↦ (sweep now enc, ok (record { found = false; released = []; retained = [] }))
      | some ticket ↦ (
        (release_ticket now id ticket (sweep now enc)).0,
        ok (release_ticket now id ticket (sweep now enc)).1,
      )
    ]
