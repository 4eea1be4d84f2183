-- ===== src/Reservations/Release.antt =====
-- What releasing a ledger does to the reservation map, outpoint by outpoint.
use xchain_encoder.Base.{
  ℕ, String, ◌≡◌, refl, ap, ◌∙◌, subst, ite, if_pos, if_neg, Bool, false, ◌||◌, Option, none, List,
  [], ◌∷◌, ◌++◌, arith, if◌then◌else◌, All, string_discrete,
}
use xchain_encoder.Reservations.Tickets.{release_claim, release_loop}
use xchain_encoder.Reservations.State.{Claim, Encoder, stamp_is}
use xchain_encoder.Reservations.Operations.{release_stamped, release_call_reservations}

-- Whether the ledger holds a claim on `k` with the stamp that the map has.
abbrev pub owned : String → Option ℕ → List Claim → Bool
owned k stamp [] = false
owned k stamp (claim ∷ claims) =
    ite (string_discrete (claim.key) k) (stamp_is stamp (claim.expiry)) false
    || owned k stamp claims

pub owned-none : (k : String) (claims : List Claim) → owned k none claims ≡ false
owned-none k [] = refl
owned-none k (claim ∷ claims) = ground (arith, owned-none k claims)

pub release_stamped-owned :
    (claim : Claim) (enc : Encoder) (k : String)
    → (release_stamped claim enc).outpoint_reservations k ≡ (
        if ite
          (string_discrete (claim.key) k)
          (stamp_is (enc.outpoint_reservations k) (claim.expiry))
          false
        then none
        else enc.outpoint_reservations k)
release_stamped-owned claim enc k = elim (string_discrete (claim.key) k) [
  | yes p ↦ rw (if_pos _ p) (
      subst
        (λ j. (release_stamped claim enc).outpoint_reservations j ≡ (
          if stamp_is (enc.outpoint_reservations j) (claim.expiry)
          then none
          else enc.outpoint_reservations j))
        p (ground arith))
  | no p ↦ rw (if_neg _ p) (ground arith)
]

-- Releasing a ledger frees exactly the outpoints on which it holds a claim with the very stamp that
-- the map has. A foreign entry, and every outpoint without a claim, keeps its reservation.
pub release_call_reservations-owned :
    (claims : List Claim) (enc : Encoder) (k : String)
    → (release_call_reservations claims enc).outpoint_reservations k
      ≡ (if owned k (enc.outpoint_reservations k) claims then none else enc.outpoint_reservations k)
unfolding release_call_reservations
release_call_reservations-owned [] enc k = refl
release_call_reservations-owned (claim ∷ claims) enc k =
    rw
      (
        release_call_reservations-owned claims (release_stamped claim enc) k,
        release_stamped-owned claim enc k,
      )
      (ground (arith, owned-none k claims))

-- Claims of a createTransaction build carry no cancel owner.
abbrev pub IsPlain : Claim → Type 0
IsPlain claim = claim.cancel_owner_id ≡ none

release_claim-plain :
    (now : ℕ) (claim : Claim) (enc : Encoder)
    → IsPlain claim
    → (release_claim now claim enc).0 ≡ release_stamped claim enc
unfolding release_claim
release_claim-plain now claim enc h = ground arith

-- Without cancel owners a ticket's release makes the same stamped deletions as a failed build's.
pub release_loop-plain :
    (now : ℕ) (claims : List Claim) (released retained : List String) (enc : Encoder)
    → All IsPlain claims
    → (release_loop now claims released retained enc).0 ≡ release_call_reservations claims enc
unfolding release_loop release_call_reservations
release_loop-plain now [] released retained enc h = refl
release_loop-plain now (claim ∷ claims) released retained enc h =
    release_loop-plain now claims
      (if (release_claim now claim enc).1 then released ++ claim.key ∷ [] else released)
      (if (release_claim now claim enc).1 then retained else retained ++ claim.key ∷ [])
      (release_claim now claim enc).0 h.1
    ∙ ap (release_call_reservations claims) (release_claim-plain now claim enc h.0)
