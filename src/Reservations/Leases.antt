-- ===== src/Reservations/Leases.antt =====
-- The reservations of src/XChainEncoder/outpoint_reservations.js against leases that are never swept:
-- a lease is held until its expiry, and a claim or a release by its stamp is all that changes it.
use xchain_encoder.Base.{
  ℕ, ◌+◌, ◌≤◌, String, Bool, false, Option, none, List, [], ◌∷◌, if◌then◌else◌, Map, map_set,
  map_delete,
}
use xchain_encoder.Reservations.State.{Claim, Encoder, reservation_ttl_ms, stamp_is, keep_live, has}
use xchain_encoder.Reservations.Operations.{
  is_outpoint_reserved, claim_outpoint, release_call_reservations, evict_expired_reservations,
}

pub data Call : Type 0 where
  sweep_all : Call
  ask claim : String → Call
  release : List Claim → Call

-- A call and the clock that it reads.
pub record Event : Type 0 where
  pub now : ℕ
  pub call : Call

-- The clock never goes back.
abbrev pub IsOrdered : ℕ → List Event → Type 0
IsOrdered now [] = Unit
IsOrdered now (e ∷ es) = (now ≤ e.now) × IsOrdered (e.now) es

-- The leases: no sweep, and asking changes nothing.
abbrev pub is_held : ℕ → Option ℕ → Bool
is_held now lease = has (keep_live now lease)

abbrev pub end_lease : Claim → Map ℕ → Map ℕ
end_lease c leases =
    if stamp_is (leases (c.key)) (c.expiry) then map_delete (c.key) leases else leases

unfoldable pub end_leases : List Claim → Map ℕ → Map ℕ
end_leases [] leases = leases
end_leases (c ∷ cs) leases = end_leases cs (end_lease c leases)

unfoldable pub lease_step : Event → Map ℕ → Map ℕ × Bool
unfolding end_leases
lease_step e leases = elim (e.call) [
  | sweep_all ↦ (leases, false)
  | ask key ↦ (leases, is_held (e.now) (leases key))
  | claim key ↦ (map_set key (e.now + reservation_ttl_ms) leases, false)
  | release claims ↦ (end_leases claims leases, false)
]

unfoldable pub lease_answers : List Event → Map ℕ → List Bool
unfolding lease_step
lease_answers [] leases = []
lease_answers (e ∷ es) leases =
    let (leases', answer) = lease_step e leases in answer ∷ lease_answers es leases'

-- The encoder's methods on the same calls; a claim's ledger plays no part in the answers.
unfoldable pub encoder_step : Event → Encoder → Encoder × Bool
unfolding is_outpoint_reserved claim_outpoint release_call_reservations evict_expired_reservations
encoder_step e enc = elim (e.call) [
  | sweep_all ↦ (evict_expired_reservations (e.now) enc, false)
  | ask key ↦ is_outpoint_reserved key (e.now) enc
  | claim key ↦
      ((claim_outpoint (record { claims = []; build_txid = none }) key (e.now) enc).0, false)
  | release claims ↦ (release_call_reservations claims enc, false)
]

unfoldable pub encoder_answers : List Event → Encoder → List Bool
unfolding encoder_step
encoder_answers [] enc = []
encoder_answers (e ∷ es) enc =
    let (enc', answer) = encoder_step e enc in answer ∷ encoder_answers es enc'
