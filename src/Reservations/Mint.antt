-- ===== src/Reservations/Mint.antt =====
-- Tickets of src/XChainEncoder/outpoint_reservations.js: what a minted ticket frees.
use xchain_encoder.Base.{
  ℕ, ◌<◌, String, ◌≡◌, refl, sym, ap, ◌∙◌, subst, ◌≢◌, ◌⊎◌, inl, inr, Bool, true, Option, none,
  some, List, [], ◌∷◌, arith, leb, if◌then◌else◌, Bool-cases, Option-cases, All, map_set,
}
use xchain_encoder.Failures.{Result, ok}
use xchain_encoder.Reservations.State.{Claim, Ledger, Ticket, Encoder, keep_live}
use xchain_encoder.Reservations.Operations.{evict_expired_reservation_tickets}
use xchain_encoder.Reservations.Tickets.{
  Release, live_claims, last_expiry, ticket_for, mint_reservation_ticket, is_reservation_id, sweep,
  release_ticket, release_reservation,
}
use xchain_encoder.Reservations.Release.{owned, owned-none, IsPlain}
use xchain_encoder.Reservations.Guard.{release_ticket-owned}
use xchain_encoder.Reservations.SingleUse.{release_present}

live_claims-IsPlain :
    (claims : List Claim) (enc : Encoder)
    → All IsPlain claims
    → All IsPlain (live_claims claims enc)
unfolding live_claims
live_claims-IsPlain [] enc h = tt
live_claims-IsPlain (claim ∷ claims) enc h = ground (arith, live_claims-IsPlain claims enc h.1)

-- A ticket names just those claims whose stamp the map still has, so on an unchanged map it owns
-- what the ledger owns.
owned-live_claims :
    (claims : List Claim) (enc : Encoder) (k : String) (s : ℕ)
    → enc.outpoint_reservations k ≡ some s
    → owned k (some s) (live_claims claims enc) ≡ owned k (some s) claims
unfolding live_claims
owned-live_claims [] enc k s h = refl
owned-live_claims (claim ∷ claims) enc k s h =
    let same : claim.key ≡ k → enc.outpoint_reservations (claim.key) ≡ some s =
      λ p. ap (enc.outpoint_reservations) p ∙ h in
    ground (arith, owned-live_claims claims enc k s h)

live_claims-eq :
    (claims : List Claim) (enc enc' : Encoder)
    → enc.outpoint_reservations ≡ enc'.outpoint_reservations
    → live_claims claims enc ≡ live_claims claims enc'
unfolding live_claims
live_claims-eq [] enc enc' e = refl
live_claims-eq (claim ∷ claims) enc enc' e =
    let same : enc.outpoint_reservations (claim.key) ≡ enc'.outpoint_reservations (claim.key) =
      ap (λ m. m (claim.key)) e in
    rw (live_claims-eq claims enc enc' e, same)

-- What `mint_reservation_ticket` leaves when the build still has a live claim.
minted :
    (id : String) (calls : Ledger) (now : ℕ) (enc : Encoder) (c : Claim) (cs : List Claim)
    → live_claims (calls.claims) (evict_expired_reservation_tickets now enc) ≡ c ∷ cs
    → (mint_reservation_ticket id calls now enc).0
      ≡ record (evict_expired_reservation_tickets now enc) {
        reservation_tickets =
            map_set id
              (ticket_for calls (c ∷ cs) (evict_expired_reservation_tickets now enc))
              ((evict_expired_reservation_tickets now enc).reservation_tickets);
      }
unfolding mint_reservation_ticket
minted id calls now enc c cs e = rw (e, mint_reservation_ticket)

claims-cases : (l : List Claim) → (l ≡ []) ⊎ ((c : Claim) × (cs : List Claim) × (l ≡ c ∷ cs))
claims-cases [] = inl refl
claims-cases (c ∷ cs) = inr (c, cs, refl)

found_ticket :
    (now : ℕ) (id : String) (t : Ticket) (enc : Encoder)
    → (release_ticket now id t enc).1.found ≡ true
unfolding release_ticket
found_ticket now id t enc = refl

IsPlain-ticket :
    (calls : Ledger) (c : Claim) (cs : List Claim) (enc : Encoder)
    → All IsPlain (c ∷ cs)
    → All IsPlain ((ticket_for calls (c ∷ cs) enc).claims)
unfolding ticket_for
IsPlain-ticket calls c cs enc h = h

-- The ticket's claims and the ledger's own the same entries, of what a sweep left.
owned_swept :
    (claims : List Claim) (enc : Encoder) (k : String) (now : ℕ)
    → owned k (keep_live now (enc.outpoint_reservations k)) (live_claims claims enc)
      ≡ owned k (keep_live now (enc.outpoint_reservations k)) claims
owned_swept claims enc k now = elim (Option-cases (enc.outpoint_reservations k)) [
  | inl e ↦ rw e (owned-none k (live_claims claims enc) ∙ sym (owned-none k claims))
  | inr (s, e) ↦ elim (Bool-cases (leb s now)) [
    | inl old ↦ rw (e, old) (owned-none k (live_claims claims enc) ∙ sym (owned-none k claims))
    | inr new ↦ rw (e, new) (owned-live_claims claims enc k s e)
  ]
]

-- The state that a mint leaves, and the ticket in it.
module _ (id : String) (calls : Ledger) (now later : ℕ) (enc : Encoder) (c : Claim)
    (cs : List Claim) (live : live_claims (calls.claims) enc ≡ c ∷ cs)
    (lt : later < last_expiry 0 (c ∷ cs)) where
  abbrev minted_ticket : Ticket
  minted_ticket = ticket_for calls (c ∷ cs) (evict_expired_reservation_tickets now enc)

  mint_state :
      (mint_reservation_ticket id calls now enc).0
      ≡ record (evict_expired_reservation_tickets now enc) {
        reservation_tickets =
            map_set id minted_ticket
              ((evict_expired_reservation_tickets now enc).reservation_tickets);
      }
  unfolding evict_expired_reservation_tickets
  mint_state =
      minted id calls now enc c cs
        (live_claims-eq (calls.claims) (evict_expired_reservation_tickets now enc) enc refl ∙ live)

  ticket_found :
      (sweep later (mint_reservation_ticket id calls now enc).0).reservation_tickets id
      ≡ some minted_ticket
  unfolding sweep ticket_for
  ticket_found = rw mint_state (ground arith)

  swept_reservations :
      (k : String)
      → (sweep later (mint_reservation_ticket id calls now enc).0).outpoint_reservations k
        ≡ keep_live later (enc.outpoint_reservations k)
  unfolding sweep
  swept_reservations k = rw mint_state refl

-- The round trip of a ticket. A build whose claims carry no cancel owner and one of which is live
-- mints a ticket; releasing it by its well-formed id before the ticket lapses finds it, and then
-- every outpoint on which the build holds the current stamp is free, while every other outpoint is
-- as the release's sweep leaves it.
pub release_reservation-mint :
    (id : String) (calls : Ledger) (now later : ℕ) (enc : Encoder) (k : String)
    → is_reservation_id id ≡ true
    → All IsPlain (calls.claims)
    → live_claims (calls.claims) enc ≢ []
    → later < last_expiry 0 (live_claims (calls.claims) enc)
    → (r : Release) × ((release_reservation
          (some id)
          later
          (mint_reservation_ticket id calls now enc).0).1
        ≡ ok r)
      × (r.found ≡ true)
      × ((release_reservation
              (some id)
              later
              (mint_reservation_ticket id calls now enc).0).0.outpoint_reservations
            k
          ≡ (if owned k (keep_live later (enc.outpoint_reservations k)) (calls.claims)
              then none
              else keep_live later (enc.outpoint_reservations k)))
unfolding evict_expired_reservation_tickets ticket_for
release_reservation-mint id calls now later enc k v plain some_live lt =
    elim (claims-cases (live_claims (calls.claims) enc)) [
      | inl e ↦ absurd (some_live e)
      | inr (c, cs, e) ↦
          let lt' : later < last_expiry 0 (c ∷ cs) = subst (λ l. later < last_expiry 0 l) e lt in
          let enc' : Encoder = (mint_reservation_ticket id calls now enc).0 in
          let t : Ticket = minted_ticket id calls now later enc c cs e lt' in
          let eq =
            release_present id later enc' t v (ticket_found id calls now later enc c cs e lt') in
          let plain' : All IsPlain (c ∷ cs) =
            subst (All IsPlain) e (live_claims-IsPlain (calls.claims) enc plain) in
          (
            (release_ticket later id t (sweep later enc')).1,
            ap (λ (r : Encoder × Result Release). r.1) eq,
            found_ticket later id t (sweep later enc'),
            ap (λ (r : Encoder × Result Release). r.0.outpoint_reservations k) eq
                ∙ release_ticket-owned later id t (sweep later enc') k
                    (IsPlain-ticket calls c cs (evict_expired_reservation_tickets now enc) plain')
                ∙ (ap (λ (st : Option ℕ). if owned k st (c ∷ cs) then none else st)
                      (swept_reservations id calls now later enc c cs e lt' k)
                    ∙ ap
                        (λ (o : Bool).
                          if o then none else keep_live later (enc.outpoint_reservations k))
                        (ap (owned k (keep_live later (enc.outpoint_reservations k))) (sym e)
                          ∙ owned_swept (calls.claims) enc k later)),
          )
    ]
