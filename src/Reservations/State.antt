-- ===== src/Reservations/State.antt =====
-- The state behind src/XChainEncoder/outpoint_reservations.js: the four maps of an `XChainEncoder`,
-- a build's ledger of claims, and the maps' entries. Times are epoch milliseconds.
use xchain_encoder.Base.{
  ℕ, ◌*◌, String, ite, Bool, true, false, Option, none, some, List, [], ◌∷◌, leb, ◌==◌,
  if◌then◌else◌, string_discrete, Map, map_empty,
}

abbrev pub reservation_ttl_ms : ℕ
reservation_ttl_ms = 5 * 60 * 1000

pub record Claim : Type 0 where
  pub key : String
  pub expiry : ℕ
  pub cancel_owner_id : Option String

-- The array `callReservations`, with the `buildTxid` that a build may put on it.
pub record Ledger : Type 0 where
  pub claims : List Claim
  pub build_txid : Option String

pub record Ticket : Type 0 where
  pub claims : List Claim
  pub expiry : ℕ
  pub txid : Option String
  pub txid_expiry : Option ℕ

-- The owner tokens of one outpoint with their expiries, in insertion order.
abbrev pub Owners : Type 0
Owners = List (String × ℕ)

pub record Encoder : Type 0 where
  pub outpoint_reservations : Map ℕ
  pub recent_builds : Map ℕ
  pub envelope_cancel_claims : Map Owners
  pub reservation_tickets : Map Ticket

abbrev pub no_reservations : Encoder
no_reservations = record {
  outpoint_reservations = map_empty;
  recent_builds = map_empty;
  envelope_cancel_claims = map_empty;
  reservation_tickets = map_empty;
}

-- `map.get(key) === expiry`.
abbrev pub stamp_is : Option ℕ → ℕ → Bool
stamp_is none e = false
stamp_is (some s) e = s == e

-- An entry that a sweep at `now` keeps.
abbrev pub keep_live : ℕ → Option ℕ → Option ℕ
keep_live now none = none
keep_live now (some e) = if leb e now then none else some e

abbrev pub has {ℓ} : {V : Type ℓ} → Option V → Bool
has none = false
has (some v) = true

-- A member of an owner map: `owners.delete(id)` and `owners.set(id, expiry)`.
unfoldable pub delete_owner : String → Owners → Owners
delete_owner id [] = []
delete_owner id ((o, e) ∷ os) = ite (string_discrete id o) os ((o, e) ∷ delete_owner id os)

unfoldable pub set_owner : String → ℕ → Owners → Owners
set_owner id expiry [] = (id, expiry) ∷ []
set_owner id expiry ((o, e) ∷ os) =
    ite (string_discrete id o) ((o, expiry) ∷ os) ((o, e) ∷ set_owner id expiry os)

unfoldable pub live_owners : ℕ → Owners → Owners
live_owners now [] = []
live_owners now ((o, e) ∷ os) =
    let rest = live_owners now os in if leb e now then rest else (o, e) ∷ rest
