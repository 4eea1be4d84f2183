-- ===== src/Reservations/SingleUse.antt =====
-- Tickets of src/XChainEncoder/outpoint_reservations.js: a release uses its ticket up.
use xchain_encoder.Base.{
  ℕ, String, ◌≡◌, refl, ap, ◌∙◌, inl, inr, if_pos, true, false, none, some, List, [], ◌∷◌, ◌++◌,
  arith, if◌then◌else◌, Option-cases, string_discrete, map_delete,
}
use xchain_encoder.Failures.{Result, ok}
use xchain_encoder.Reservations.State.{Claim, Ticket, Encoder}
use xchain_encoder.Reservations.Tickets.{
  Release, is_reservation_id, release_claim, release_loop, retire_build, sweep, release_ticket,
  release_reservation,
}

tickets-release_claim :
    (now : ℕ) (claim : Claim) (enc : Encoder)
    → (release_claim now claim enc).0.reservation_tickets ≡ enc.reservation_tickets
unfolding release_claim
tickets-release_claim now claim enc = ground arith

tickets-release_loop :
    (now : ℕ) (claims : List Claim) (released retained : List String) (enc : Encoder)
    → (release_loop now claims released retained enc).0.reservation_tickets
      ≡ enc.reservation_tickets
unfolding release_loop
tickets-release_loop now [] released retained enc = refl
tickets-release_loop now (claim ∷ claims) released retained enc =
    tickets-release_loop now claims
      (if (release_claim now claim enc).1 then released ++ claim.key ∷ [] else released)
      (if (release_claim now claim enc).1 then retained else retained ++ claim.key ∷ [])
      (release_claim now claim enc).0
    ∙ tickets-release_claim now claim enc

tickets-retire_build :
    (t : Ticket) (enc : Encoder)
    → (retire_build t enc).reservation_tickets ≡ enc.reservation_tickets
unfolding retire_build
tickets-retire_build t enc = ground arith

-- A released ticket is gone.
tickets-release_ticket :
    (now : ℕ) (id : String) (t : Ticket) (enc : Encoder)
    → (release_ticket now id t enc).0.reservation_tickets id ≡ none
unfolding release_ticket
tickets-release_ticket now id t enc =
    ap (λ m. m id)
      (tickets-retire_build t _
        ∙ tickets-release_loop now (t.claims) [] []
            (record enc { reservation_tickets = map_delete id (enc.reservation_tickets) }))
    ∙ if_pos (string_discrete id id) refl _ _

abbrev pub not_found : Release
not_found = record { found = false; released = []; retained = [] }

release_missing :
    (id : String) (now : ℕ) (enc : Encoder)
    → is_reservation_id id ≡ true
    → (sweep now enc).reservation_tickets id ≡ none
    → release_reservation (some id) now enc ≡ (sweep now enc, ok not_found)
unfolding release_reservation
release_missing id now enc v e = rw v (rw (e, release_reservation))

pub release_present :
    (id : String) (now : ℕ) (enc : Encoder) (t : Ticket)
    → is_reservation_id id ≡ true
    → (sweep now enc).reservation_tickets id ≡ some t
    → release_reservation (some id) now enc ≡ (
      (release_ticket now id t (sweep now enc)).0,
      ok (release_ticket now id t (sweep now enc)).1,
    )
unfolding release_reservation
release_present id now enc t v e = rw v (rw (e, release_reservation))

tickets-sweep-none :
    (id : String) (now : ℕ) (enc : Encoder)
    → enc.reservation_tickets id ≡ none
    → (sweep now enc).reservation_tickets id ≡ none
unfolding sweep
tickets-sweep-none id now enc e = ground arith

tickets-release_reservation :
    (id : String) (now : ℕ) (enc : Encoder)
    → is_reservation_id id ≡ true
    → (release_reservation (some id) now enc).0.reservation_tickets id ≡ none
tickets-release_reservation id now enc v =
    elim (Option-cases ((sweep now enc).reservation_tickets id)) [
      | inl e ↦
          ap (λ (r : Encoder × Result Release). r.0.reservation_tickets id)
            (release_missing id now enc v e)
          ∙ e
      | inr (t, e) ↦
          ap (λ (r : Encoder × Result Release). r.0.reservation_tickets id)
            (release_present id now enc t v e)
          ∙ tickets-release_ticket now id t (sweep now enc)
    ]

-- A reservation id works once. After any release by a well-formed id, whatever it found, releasing
-- by the same id at any later time reports that nothing was found and only sweeps lapsed entries.
release_reservation_twice :
    (id : String) (now later : ℕ) (enc : Encoder)
    → is_reservation_id id ≡ true
    → release_reservation (some id) later (release_reservation (some id) now enc).0
      ≡ (sweep later (release_reservation (some id) now enc).0, ok not_found)
release_reservation_twice id now later enc v =
    release_missing id later (release_reservation (some id) now enc).0 v (
      tickets-sweep-none id later (release_reservation (some id) now enc).0
        (tickets-release_reservation id now enc v))
