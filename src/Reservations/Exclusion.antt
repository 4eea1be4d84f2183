-- ===== src/Reservations/Exclusion.antt =====
-- The double-spend guard of src/XChainEncoder/outpoint_reservations.js under interleaving: builds
-- claim, fail, return tickets and let claims lapse in any order, over one encoder.
use xchain_encoder.Base.{
  ℕ, ◌+◌, ◌≤◌, ◌<◌, String, ◌≡◌, refl, subst, ◌≢◌, ◌⊎◌, inl, inr, true, false, none, some, List, [],
  ◌∷◌, arith, ◌==◌, if◌then◌else◌, Bool-cases, All, In,
}
use xchain_encoder.Reservations.State.{Claim, Ticket, Encoder, reservation_ttl_ms}
use xchain_encoder.Reservations.Operations.{
  is_outpoint_reserved, reserve_outpoint, release_call_reservations, evict_expired_reservations,
}
use xchain_encoder.Reservations.Tickets.{release_ticket}
use xchain_encoder.Reservations.Release.{owned, IsPlain}

-- A claim that a build has not handed back, with the build's number.
pub record Holder : Type 0 where
  pub build : ℕ
  pub claim : Claim
  pub open claim use *

-- The claims of one build, and those of the others.
unfoldable pub claims_of : ℕ → List Holder → List Claim
claims_of b [] = []
claims_of b (h ∷ hs) = let rest = claims_of b hs in if h.build == b then h.claim ∷ rest else rest

unfoldable pub others : ℕ → List Holder → List Holder
others b [] = []
others b (h ∷ hs) = let rest = others b hs in if h.build == b then rest else h ∷ rest

pub record World : Type 0 where
  pub now : ℕ
  pub enc : Encoder
  pub holders : List Holder

abbrev pub with_claim : World → ℕ → String → World
with_claim w b key = record w {
  enc = (reserve_outpoint key (w.now) (is_outpoint_reserved key (w.now) (w.enc)).0).0;
  holders =
      record {
        build = b;
        claim = record { key = key; expiry = w.now + reservation_ttl_ms; cancel_owner_id = none };
      }
      ∷ w.holders;
}

-- The selection loop claims only what no other build holds (`skipReservedInput`). A ticket names
-- claims of its own build only.
pub data Step : World → World → Type 0 where
  tick : (w : World) (later : ℕ) → w.now ≤ later → Step w (record w { now = later })
  sweep : (w : World) → Step w (record w { enc = evict_expired_reservations (w.now) (w.enc) })
  claims :
      (w : World) (b : ℕ) (key : String)
      → (is_outpoint_reserved key (w.now) (w.enc)).1 ≡ false
      → Step w (with_claim w b key)
  fails :
      (w : World) (b : ℕ)
      → Step w (record w {
        enc = release_call_reservations (claims_of b (w.holders)) (w.enc);
        holders = others b (w.holders);
      })
  returns :
      (w : World) (b : ℕ) (id : String) (ticket : Ticket)
      → All IsPlain (ticket.claims)
      → ((k : String) (s : ℕ)
          → owned k (some s) (ticket.claims) ≡ true
          → owned k (some s) (claims_of b (w.holders)) ≡ true)
      → Step w (record w {
        enc = (release_ticket (w.now) id ticket (w.enc)).0;
        holders = others b (w.holders);
      })

pub data Reach (s : World) : World → Type 0 where
  here : Reach s s
  next : {t u : World} → Reach s t → Step t u → Reach s u

-- Every outstanding live claim is still the map's value, and two live claims on one outpoint are
-- the same build's.
pub record IsExclusive (w : World) : Type 0 where
  pub reserved :
      (h : Holder)
      → In h (w.holders)
      → w.now < h.expiry
      → w.enc.outpoint_reservations (h.key) ≡ some (h.expiry)
  pub single :
      (h g : Holder)
      → In h (w.holders)
      → In g (w.holders)
      → w.now < h.expiry
      → w.now < g.expiry
      → h.key ≡ g.key
      → h.build ≡ g.build

others_same :
    (b : ℕ) (g : Holder) (hs : List Holder)
    → (g.build == b) ≡ true
    → others b (g ∷ hs) ≡ others b hs
unfolding others
others_same b g hs e = rw e

others_other :
    (b : ℕ) (g : Holder) (hs : List Holder)
    → (g.build == b) ≡ false
    → others b (g ∷ hs) ≡ g ∷ others b hs
unfolding others
others_other b g hs e = rw e

pub In-others :
    (b : ℕ) (h : Holder) (hs : List Holder) → In h (others b hs) → In h hs × (h.build ≢ b)
unfolding others
In-others b h [] i = absurd i
In-others b h (g ∷ hs) i = elim (Bool-cases (g.build == b)) [
  | inl same ↦
      let (j, ne) = In-others b h hs (subst (In h) (others_same b g hs same) i) in (inr j, ne)
  | inr other ↦ elim (subst (In h) (others_other b g hs other) i) [
    | inl e ↦ (inl e, ground arith)
    | inr j ↦ let (m, ne) = In-others b h hs j in (inr m, ne)
  ]
]

owned-cons :
    (c : Claim) (cs : List Claim) (k : String) (s : ℕ)
    → owned k (some s) (c ∷ cs) ≡ true
    → ((c.key ≡ k) × (c.expiry ≡ s)) ⊎ (owned k (some s) cs ≡ true)
owned-cons c cs k s o = ground arith

pub owned-claims_of :
    (b : ℕ) (hs : List Holder) (k : String) (s : ℕ)
    → owned k (some s) (claims_of b hs) ≡ true
    → (h : Holder) × In h hs × (h.build ≡ b) × (h.key ≡ k) × (h.expiry ≡ s)
unfolding claims_of
owned-claims_of b [] k s o = cc
owned-claims_of b (g ∷ hs) k s o = elim (Bool-cases (g.build == b)) [
  | inl same ↦ elim (owned-cons (g.claim) (claims_of b hs) k s (rw same at o)) [
    | inl (e, f) ↦ (g, inl refl, ground arith, e, f)
    | inr rest ↦ let (h, i, x, y, z) = owned-claims_of b hs k s rest in (h, inr i, x, y, z)
  ]
  | inr other ↦
      let (h, i, x, y, z) = owned-claims_of b hs k s (rw other at o) in (h, inr i, x, y, z)
]
