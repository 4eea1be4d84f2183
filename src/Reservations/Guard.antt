-- ===== src/Reservations/Guard.antt =====
-- The reservation map of src/XChainEncoder/outpoint_reservations.js keeps builds apart, along every
-- interleaving of the steps of `Exclusion`.
use xchain_encoder.Base.{
  ℕ, ◌+◌, ◌<◌, String, ◌≡◌, refl, sym, ap, ◌∙◌, subst, ◌≢◌, inl, inr, if_pos, if_neg, true, false,
  none, some, List, [], arith, if◌then◌else◌, Bool-cases, All, In, string_discrete, map_delete,
}
use xchain_encoder.Reservations.State.{Claim, Ticket, Encoder, reservation_ttl_ms}
use xchain_encoder.Reservations.Operations.{
  is_outpoint_reserved, reserve_outpoint, evict_expired_reservations,
}
use xchain_encoder.Reservations.Tickets.{release_ticket, retire_build}
use xchain_encoder.Reservations.Release.{
  owned, IsPlain, release_call_reservations-owned, release_loop-plain,
}
use xchain_encoder.Reservations.Exclusion.{
  Holder, claims_of, others, World, with_claim, Step, tick, sweep, claims, fails, returns, Reach,
  here, next, IsExclusive, In-others, owned-claims_of,
}

retire_build-reservations :
    (t : Ticket) (enc : Encoder)
    → (retire_build t enc).outpoint_reservations ≡ enc.outpoint_reservations
unfolding retire_build
retire_build-reservations t enc = ground arith

-- A ticket's release deletes what a failed build with the same claims would have deleted.
pub release_ticket-owned :
    (now : ℕ) (id : String) (t : Ticket) (enc : Encoder) (k : String)
    → All IsPlain (t.claims)
    → (release_ticket now id t enc).0.outpoint_reservations k ≡ (
        if owned k (enc.outpoint_reservations k) (t.claims)
        then none
        else enc.outpoint_reservations k)
unfolding release_ticket
release_ticket-owned now id t enc k h =
    let enc' : Encoder = record enc {
      reservation_tickets = map_delete id (enc.reservation_tickets);
    } in
    ap (λ m. m k) (retire_build-reservations t _)
    ∙ ap (λ (e : Encoder). e.outpoint_reservations k)
        (release_loop-plain now (t.claims) [] [] enc' h)
    ∙ release_call_reservations-owned (t.claims) enc' k

-- Deletions owned by build `b` leave every other build's live claim in place.
foreign_kept :
    (w : World) (b : ℕ) (cs : List Claim) (h : Holder)
    → IsExclusive w
    → ((k : String) (s : ℕ)
        → owned k (some s) cs ≡ true
        → owned k (some s) (claims_of b (w.holders)) ≡ true)
    → In h (others b (w.holders))
    → w.now < h.expiry
    → (if owned (h.key) (w.enc.outpoint_reservations (h.key)) cs
        then none
        else w.enc.outpoint_reservations (h.key))
      ≡ some (h.expiry)
foreign_kept w b cs h v sub i live =
    let (m, ne) = In-others b h (w.holders) i in
    rw (v.reserved h m live) (elim (Bool-cases (owned (h.key) (some (h.expiry)) cs)) [
      | inl o ↦
          let (g, j, x, y, z) =
            owned-claims_of b (w.holders) (h.key) (h.expiry) (sub (h.key) (h.expiry) o) in
          absurd (ne (v.single h g m j live (omega arith) (sym y) ∙ x))
      | inr o ↦ rw o
    ])

others-single :
    (w : World) (b : ℕ)
    → IsExclusive w
    → (h g : Holder) → In h (others b (w.holders))
    → In g (others b (w.holders))
    → w.now < h.expiry
    → w.now < g.expiry
    → h.key ≡ g.key
    → h.build ≡ g.build
others-single w b v h g i j =
    v.single h g (In-others b h (w.holders) i).0 (In-others b g (w.holders) j).0

-- An outpoint that reads as free carries no live claim.
free_of_claims :
    (w : World) (key : String) (h : Holder)
    → IsExclusive w
    → (is_outpoint_reserved key (w.now) (w.enc)).1 ≡ false
    → In h (w.holders)
    → w.now < h.expiry
    → h.key ≢ key
unfolding is_outpoint_reserved
free_of_claims w key h v free i live e =
    let r : w.enc.outpoint_reservations key ≡ some (h.expiry) =
      subst (λ k. w.enc.outpoint_reservations k ≡ some (h.expiry)) e (v.reserved h i live) in
    ground arith

after_claim :
    (w : World) (b : ℕ) (key : String) (h : Holder)
    → h.key ≢ key
    → (with_claim w b key).enc.outpoint_reservations (h.key) ≡ w.enc.outpoint_reservations (h.key)
unfolding is_outpoint_reserved reserve_outpoint
after_claim w b key h ne =
    let ne' : key ≢ h.key = λ e. ne (sym e) in
    elim (string_discrete key (h.key)) [
      | yes e ↦ absurd (ne' e)
      | no n ↦ rw (if_neg (string_discrete key (h.key)) n) (ground arith)
    ]

after_claim_self :
    (w : World) (b : ℕ) (key : String)
    → (with_claim w b key).enc.outpoint_reservations key ≡ some (w.now + reservation_ttl_ms)
unfolding is_outpoint_reserved reserve_outpoint
after_claim_self w b key = if_pos (string_discrete key key) refl _ _

-- The holder that a claim adds.
abbrev new_holder : World → ℕ → String → Holder
new_holder w b key = record {
  build = b;
  claim = record { key = key; expiry = w.now + reservation_ttl_ms; cancel_owner_id = none };
}

module _ (w : World) (b : ℕ) (key : String)
    (free : (is_outpoint_reserved key (w.now) (w.enc)).1 ≡ false) (v : IsExclusive w) where
  claim-reserved :
      (h : Holder)
      → In h ((with_claim w b key).holders)
      → w.now < h.expiry
      → (with_claim w b key).enc.outpoint_reservations (h.key) ≡ some (h.expiry)
  claim-reserved h (inl e) live =
      subst
        (λ (x : Holder). (with_claim w b key).enc.outpoint_reservations (x.key) ≡ some (x.expiry)) e
        (after_claim_self w b key)
  claim-reserved h (inr i) live =
      after_claim w b key h (free_of_claims w key h v free i live) ∙ v.reserved h i live

  new-single :
      (h g : Holder)
      → new_holder w b key ≡ h
      → In g ((with_claim w b key).holders)
      → w.now < g.expiry
      → h.key ≡ g.key
      → h.build ≡ g.build
  new-single h g e (inl f) live k = ap (λ (x : Holder). x.build) (sym e ∙ f)
  new-single h g e (inr j) live k =
      absurd (free_of_claims w key g v free j live (sym k ∙ ap (λ (x : Holder). x.key) (sym e)))

  claim-single :
      (h g : Holder)
      → In h ((with_claim w b key).holders)
      → In g ((with_claim w b key).holders)
      → w.now < h.expiry
      → w.now < g.expiry
      → h.key ≡ g.key
      → h.build ≡ g.build
  claim-single h g (inl e) j x y k = new-single h g e j y k
  claim-single h g (inr i) (inl f) x y k = sym (new-single g h f (inr i) x (sym k))
  claim-single h g (inr i) (inr j) x y k = v.single h g i j x y k

release-IsExclusive :
    (w : World) (b : ℕ) (cs : List Claim) (enc : Encoder)
    → ((k : String)
        → enc.outpoint_reservations k ≡ (
            if owned k (w.enc.outpoint_reservations k) cs
            then none
            else w.enc.outpoint_reservations k))
    → ((k : String) (s : ℕ)
        → owned k (some s) cs ≡ true
        → owned k (some s) (claims_of b (w.holders)) ≡ true)
    → IsExclusive w
    → IsExclusive (record w { enc = enc; holders = others b (w.holders) })
release-IsExclusive w b cs enc spec sub v = record {
  reserved = λ h i live. spec (h.key) ∙ foreign_kept w b cs h v sub i live;
  single = others-single w b v;
}

-- Every step keeps live claims reserved and exclusive.
pub Step-IsExclusive : {w w' : World} → Step w w' → IsExclusive w → IsExclusive w'
unfolding evict_expired_reservations
Step-IsExclusive (tick w later le) v = record {
  reserved = λ h i live. v.reserved h i (omega arith);
  single = λ h g i j x y e. v.single h g i j (omega arith) (omega arith) e;
}
Step-IsExclusive (sweep w) v = record {
  reserved = λ h i live. rw (v.reserved h i live) (ground arith);
  single = v.single;
}
Step-IsExclusive (claims w b key free) v = record {
  reserved = claim-reserved w b key free v;
  single = claim-single w b key free v;
}
Step-IsExclusive (fails w b) v =
    release-IsExclusive w b (claims_of b (w.holders)) _
      (release_call_reservations-owned (claims_of b (w.holders)) (w.enc)) (λ k s o. o) v
Step-IsExclusive (returns w b id ticket plain sub) v =
    release-IsExclusive w b (ticket.claims) _
      (λ k. release_ticket-owned (w.now) id ticket (w.enc) k plain) sub v

-- From an encoder that nobody holds claims on, after any interleaving of clock ticks, sweeps,
-- claims, failed builds and releases of tickets that name claims of their own build without cancel
-- owners: every outstanding live claim is still the value that the reservation map has for its
-- outpoint, and no two builds hold live claims on one outpoint.
pub Reach-IsExclusive :
    (enc : Encoder) (now : ℕ) {w : World}
    → Reach (record { now = now; enc = enc; holders = [] }) w
    → IsExclusive w
Reach-IsExclusive enc now here = record { reserved = λ h i. absurd i; single = λ h g i. absurd i }
Reach-IsExclusive enc now (next r s) = Step-IsExclusive s (Reach-IsExclusive enc now r)
