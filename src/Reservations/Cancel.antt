-- ===== src/Reservations/Cancel.antt =====
-- Envelope-cancel owners: the claim of a commit outpoint in src/XChainEncoder/envelope_cancel.js,
-- and its release in src/XChainEncoder/outpoint_reservations.js.
use xchain_encoder.Base.{
  ℕ, ◌+◌, ◌≤◌, ◌<◌, String, ◌≡◌, refl, sym, ap, ◌∙◌, ◌≢◌, ◌⊎◌, inl, inr, if_pos, if_neg, Bool, true,
  false, not, ◌&&◌, Option, none, some, List, [], ◌∷◌, ◌++◌, arith, ltb, ◌==◌, if◌then◌else◌,
  Bool-cases, All, In, string_discrete, Map, map_set, map_delete,
}
use xchain_encoder.Failures.{Result, ok, throw, operational, envelope_cancel_outpoint_reserved}
use xchain_encoder.Reservations.State.{
  Claim, Ledger, Owners, Encoder, stamp_is, delete_owner, set_owner, reservation_ttl_ms,
}
use xchain_encoder.Reservations.Operations.{
  is_outpoint_reserved, claim_outpoint, release_stamped, release_call_reservations, max_live_loop,
  max_live_cancel_owner_expiry, drop_cancel_owner, release_envelope_cancel_claims,
  evict_expired_reservations, evict_expired_envelope_cancel_claims,
}
use xchain_encoder.Reservations.Release.{release_stamped-owned}

-- `null !== undefined`, and two numbers by value.
abbrev pub same_expiry : Option ℕ → Option ℕ → Bool
same_expiry none s = false
same_expiry (some m) none = false
same_expiry (some m) (some s) = m == s

-- The token is put on the claim that was pushed last.
abbrev pub mark_last : String → List Claim → List Claim
mark_last owner [] = []
mark_last owner (c ∷ []) = record c { cancel_owner_id = some owner } ∷ []
mark_last owner (c ∷ d ∷ cs) = c ∷ mark_last owner (d ∷ cs)

abbrev pub owners_or_empty : Option Owners → Owners
owners_or_empty none = []
owners_or_empty (some os) = os

-- The outpoint key is the lowercase txid and the vout; the clock and the fresh owner id are given.
unfoldable pub claim_commit_outpoint :
    Ledger → String → ℕ → String → Encoder → Encoder × Result Ledger
unfolding evict_expired_reservations evict_expired_envelope_cancel_claims is_outpoint_reserved
    max_live_cancel_owner_expiry claim_outpoint set_owner
claim_commit_outpoint calls key now owner enc =
    let swept = evict_expired_envelope_cancel_claims now (evict_expired_reservations now enc) in
    let asked = is_outpoint_reserved key now swept in
    let claimed = claim_outpoint calls key now (asked.0) in
    if asked.1
      && not (
          same_expiry (max_live_cancel_owner_expiry key now (asked.0))
            ((asked.0).outpoint_reservations key))
    then (asked.0, throw (operational envelope_cancel_outpoint_reserved))
    else (
      record (claimed.0) {
        envelope_cancel_claims =
            map_set key
              (set_owner owner (now + reservation_ttl_ms)
                (owners_or_empty ((claimed.0).envelope_cancel_claims key)))
              ((claimed.0).envelope_cancel_claims);
      },
      ok (record (claimed.1) { claims = mark_last owner ((claimed.1).claims) }),
    )

-- The loop's result against `max`: unchanged if no live owner is higher.
max_live_loop-some :
    (now m : ℕ) (os : Owners)
    → now < m
    → (n : ℕ) × (max_live_loop now (some m) os ≡ some n)
      × (m ≤ n)
      × All (λ (o : String × ℕ). o.1 ≤ n) os
      × ((n ≡ m) ⊎ ((o : String) × In (o, n) os))
unfolding max_live_loop
max_live_loop-some now m [] h = (m, refl, omega arith, tt, inl refl)
max_live_loop-some now m ((o, e) ∷ os) h = elim (Bool-cases (ltb now e && ltb m e)) [
  | inl up ↦
      let (n, eq, le, all, src) = max_live_loop-some now e os (ground arith) in
      (
        n,
        rw up eq,
        ground arith,
        (omega arith, all),
        elim src [ inl q ↦ inr (o, inl (ap (λ x. (o, x)) (sym q))) | inr (p, i) ↦ inr (p, inr i) ],
      )
  | inr keep ↦
      let (n, eq, le, all, src) = max_live_loop-some now m os h in
      (
        n,
        rw keep eq,
        le,
        (ground arith, all),
        elim src [ inl q ↦ inl q | inr (p, i) ↦ inr (p, inr i) ],
      )
]

-- The highest expiry of a live owner: none exactly if every owner has expired; otherwise the
-- expiry of an owner, later than now, that no owner exceeds.
max_live_loop-highest :
    (now : ℕ) (os : Owners)
    → ((max_live_loop now none os ≡ none) × All (λ (o : String × ℕ). o.1 ≤ now) os)
      ⊎ ((n : ℕ) × (max_live_loop now none os ≡ some n)
          × (now < n)
          × ((o : String) × In (o, n) os)
          × All (λ (o : String × ℕ). o.1 ≤ n) os)
unfolding max_live_loop
max_live_loop-highest now [] = inl (refl, tt)
max_live_loop-highest now ((o, e) ∷ os) = elim (Bool-cases (ltb now e)) [
  | inl live ↦
      let (n, eq, le, all, src) = max_live_loop-some now e os (ground arith) in
      inr (
        n,
        rw live eq,
        ground arith,
        elim src [ inl q ↦ (o, inl (ap (λ x. (o, x)) (sym q))) | inr (p, i) ↦ (p, inr i) ],
        (omega arith, all),
      )
  | inr dead ↦ elim (max_live_loop-highest now os) [
    | inl (eq, all) ↦ inl (rw dead eq, (ground arith, all))
    | inr (n, eq, lt, (p, i), all) ↦ inr (n, rw dead eq, lt, (p, inr i), (ground arith, all))
  ]
]

-- The claim of one cancel build.
abbrev pub cancel_claim : String → ℕ → String → Claim
cancel_claim key expiry id = record { key = key; expiry = expiry; cancel_owner_id = some id }

module _ (key id : String) (expiry now : ℕ) (enc : Encoder) (owners : Owners)
    (held : enc.envelope_cancel_claims key ≡ some owners) where
  dropped_last :
      max_live_loop now none (delete_owner id owners) ≡ none
      → drop_cancel_owner key id now enc ≡ (
        record enc { envelope_cancel_claims = map_delete key (enc.envelope_cancel_claims) },
        false,
      )
  unfolding drop_cancel_owner
  dropped_last e = rw (held, drop_cancel_owner) (rw (e, drop_cancel_owner))

  dropped_held :
      (n : ℕ)
      → max_live_loop now none (delete_owner id owners) ≡ some n
      → drop_cancel_owner key id now enc ≡ (
        record enc {
          envelope_cancel_claims =
              map_set key (delete_owner id owners) (enc.envelope_cancel_claims);
          outpoint_reservations = map_set key n (enc.outpoint_reservations);
        },
        true,
      )
  unfolding drop_cancel_owner
  dropped_held n e = rw (held, drop_cancel_owner) (rw (e, drop_cancel_owner))

  released_last :
      max_live_loop now none (delete_owner id owners) ≡ none
      → release_envelope_cancel_claims now (cancel_claim key expiry id ∷ []) enc
        ≡ release_stamped
            (cancel_claim key expiry id)
            (record enc { envelope_cancel_claims = map_delete key (enc.envelope_cancel_claims) })
  unfolding release_envelope_cancel_claims release_call_reservations drop_cancel_owner
  released_last e = rw (dropped_last e) refl

  released_held :
      (n : ℕ)
      → max_live_loop now none (delete_owner id owners) ≡ some n
      → release_envelope_cancel_claims now (cancel_claim key expiry id ∷ []) enc ≡ record enc {
        envelope_cancel_claims = map_set key (delete_owner id owners) (enc.envelope_cancel_claims);
        outpoint_reservations = map_set key n (enc.outpoint_reservations);
      }
  unfolding release_envelope_cancel_claims release_call_reservations
  released_held n e = rw (dropped_held n e) refl

claims-release_stamped :
    (claim : Claim) (enc : Encoder)
    → (release_stamped claim enc).envelope_cancel_claims ≡ enc.envelope_cancel_claims
claims-release_stamped claim enc = ground arith

-- What a member map is without a token: the token's member taken out, or the map where it has none.
abbrev pub IsWithout : String → Owners → Owners → Type 0
IsWithout id owners left =
    (All (λ (o : String × ℕ). id ≢ o.0) owners × (left ≡ owners))
    ⊎ ((pre : Owners) × (e : ℕ) × (post : Owners) × All (λ (o : String × ℕ). id ≢ o.0) pre
        × (owners ≡ pre ++ (id, e) ∷ post)
        × (left ≡ pre ++ post))

delete_owner-IsWithout :
    (id : String) (owners : Owners) → IsWithout id owners (delete_owner id owners)
unfolding delete_owner
delete_owner-IsWithout id [] = inl (tt, refl)
delete_owner-IsWithout id ((o, e) ∷ os) = elim (string_discrete id o) [
  | yes same ↦
      inr ([], e, os, tt, ap (λ x. (x, e) ∷ os) (sym same), if_pos (string_discrete id o) same _ _)
  | no ne ↦
      let kept = if_neg (string_discrete id o) ne os ((o, e) ∷ delete_owner id os) in
      elim (delete_owner-IsWithout id os) [
        | inl (all, q) ↦ inl ((ne, all), kept ∙ ap (◌∷◌ (o, e)) q)
        | inr (pre, e', post, all, q, r) ↦
            inr ((o, e) ∷ pre, e', post, (ne, all), ap (◌∷◌ (o, e)) q, kept ∙ ap (◌∷◌ (o, e)) r)
      ]
]

-- A failed cancel build gives up its owner token: it is taken out of the owners of the outpoint, and
-- they are kept without it if another one is live. The outpoint then stays reserved, at the highest
-- expiry among the remaining owners. If none is live, the owner record goes, and the reservation goes
-- with it exactly if it is worth this build's own expiry. No other outpoint's reservation or owner
-- record changes.
pub release_envelope_cancel_claims-survivor :
    (key id : String) (expiry now : ℕ) (enc : Encoder) (owners : Owners)
    → enc.envelope_cancel_claims key ≡ some owners
    → let after : Encoder =
        release_envelope_cancel_claims now (cancel_claim key expiry id ∷ []) enc in
      ((left : Owners) × IsWithout id owners left
        × (((n : ℕ) × (after.outpoint_reservations key ≡ some n)
              × (now < n)
              × ((o : String) × In (o, n) left)
              × All (λ (o : String × ℕ). o.1 ≤ n) left
              × (after.envelope_cancel_claims key ≡ some left))
            ⊎ (All (λ (o : String × ℕ). o.1 ≤ now) left
                × (after.envelope_cancel_claims key ≡ none)
                × (after.outpoint_reservations key ≡ (
                    if stamp_is (enc.outpoint_reservations key) expiry
                    then none
                    else enc.outpoint_reservations key)))))
      × ((j : String)
          → key ≢ j
          → (after.outpoint_reservations j ≡ enc.outpoint_reservations j)
            × (after.envelope_cancel_claims j ≡ enc.envelope_cancel_claims j))
release_envelope_cancel_claims-survivor key id expiry now enc owners held =
    let left = delete_owner id owners in
    let dropped : Encoder = record enc {
      envelope_cancel_claims = map_delete key (enc.envelope_cancel_claims);
    } in
    let claim = cancel_claim key expiry id in
    elim (max_live_loop-highest now left) [
      | inl (e, all) ↦ rw (released_last key id expiry now enc owners held e) (
        (
          left,
          delete_owner-IsWithout id owners,
          inr (
            all,
            ap (λ (m : Map Owners). m key) (claims-release_stamped claim dropped)
                ∙ if_pos (string_discrete key key) refl _ _,
            release_stamped-owned claim dropped key
                ∙ rw (if_pos (string_discrete key key) refl) refl,
          ),
        ),
        λ j ne. (
          release_stamped-owned claim dropped j ∙ rw (if_neg (string_discrete key j) ne) refl,
          ap (λ (m : Map Owners). m j) (claims-release_stamped claim dropped)
              ∙ if_neg (string_discrete key j) ne _ _,
        ),
      )
      | inr (n, e, lt, src, all) ↦ rw (released_held key id expiry now enc owners held n e) (
        (
          left,
          delete_owner-IsWithout id owners,
          inl (
            n,
            if_pos (string_discrete key key) refl _ _,
            lt,
            src,
            all,
            if_pos (string_discrete key key) refl _ _,
          ),
        ),
        λ j ne. (if_neg (string_discrete key j) ne _ _, if_neg (string_discrete key j) ne _ _),
      )
    ]
