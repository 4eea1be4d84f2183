-- ===== src/Reservations/Exact.antt =====
-- `claimExactInputs` of src/XChainEncoder/build_transaction/first_input_key.js: every named outpoint
-- is claimed, or the build is refused; and a build that then fails hands back what it took.
use xchain_encoder.Base.{
  ℕ, ◌+◌, ◌<◌, String, ◌≡◌, refl, sym, ◌∙◌, subst, ◌⊎◌, inl, inr, ite, if_pos, if_neg, Bool, true,
  false, Option, none, some, List, [], ◌∷◌, ◌++◌, append_assoc, append-nil, arith, if◌then◌else◌,
  Bool-cases, Option-cases, All, string_discrete,
}
use xchain_encoder.Failures.{Result, ok, throw, operational, input_reserved}
use xchain_encoder.Reservations.State.{Claim, Ledger, Encoder, keep_live, reservation_ttl_ms}
use xchain_encoder.Reservations.Operations.{
  is_outpoint_reserved, claim_outpoint, release_call_reservations, evict_expired_reservations,
}
use xchain_encoder.Reservations.Release.{owned, release_call_reservations-owned}

-- The keys that another build holds, asked one after the other.
unfoldable pub held_by_others : List String → ℕ → Encoder → Encoder × List String
held_by_others [] now enc = (enc, [])
held_by_others (k ∷ ks) now enc =
    let rest = held_by_others ks now (is_outpoint_reserved k now enc).0 in
    (rest.0, if (is_outpoint_reserved k now enc).1 then k ∷ rest.1 else rest.1)

unfoldable pub claim_all : List String → ℕ → Ledger → Encoder → Encoder × Ledger
claim_all [] now calls enc = (enc, calls)
claim_all (k ∷ ks) now calls enc =
    claim_all ks now (claim_outpoint calls k now enc).1 (claim_outpoint calls k now enc).0

unfoldable pub claim_exact_inputs : List String → ℕ → Ledger → Encoder → Encoder × Result Ledger
unfolding held_by_others claim_all evict_expired_reservations
claim_exact_inputs keys now calls enc =
    let held = held_by_others keys now (evict_expired_reservations now enc) in
    let claimed = claim_all keys now calls held.0 in
    elim (held.1) [
      | [] ↦ (claimed.0, ok (claimed.1))
      | k ∷ ks ↦ (held.0, throw (operational input_reserved))
    ]

-- Every entry is later than `now`.
abbrev pub IsSwept : ℕ → Encoder → Type 0
IsSwept now enc = (k : String) (e : ℕ) → enc.outpoint_reservations k ≡ some e → now < e

pub evict-IsSwept : (now : ℕ) (enc : Encoder) → IsSwept now (evict_expired_reservations now enc)
unfolding evict_expired_reservations
evict-IsSwept now enc k e h = ground arith

-- On a swept map the question changes nothing, and is whether there is an entry.
pub reserved_swept :
    (k : String) (now : ℕ) (enc : Encoder)
    → IsSwept now enc
    → ((is_outpoint_reserved k now enc).0 ≡ enc)
      × ((is_outpoint_reserved k now enc).1 ≡ false → enc.outpoint_reservations k ≡ none)
unfolding is_outpoint_reserved
reserved_swept k now enc s = elim (Option-cases (enc.outpoint_reservations k)) [
  | inl e ↦ ground arith
  | inr (v, e) ↦ let lt : now < v = s k v e in ground arith
]

held_swept :
    (ks : List String) (now : ℕ) (enc : Encoder)
    → IsSwept now enc
    → ((held_by_others ks now enc).0 ≡ enc)
      × ((held_by_others ks now enc).1 ≡ [] → All (λ k. enc.outpoint_reservations k ≡ none) ks)
unfolding held_by_others
held_swept [] now enc s = (refl, λ _. tt)
held_swept (k ∷ ks) now enc s =
    let (same, free) = reserved_swept k now enc s in
    let (same', rest) = held_swept ks now enc s in
    rw same (
      same',
      elim (Bool-cases ((is_outpoint_reserved k now enc).1)) [
        | inl held ↦ rw held (λ q. cc)
        | inr not_held ↦ rw not_held (λ q. (free not_held, rest q))
      ],
    )

abbrev new_claims : ℕ → List String → List Claim
new_claims now [] = []
new_claims now (k ∷ ks) =
    record { key = k; expiry = now + reservation_ttl_ms; cancel_owner_id = none }
    ∷ new_claims now ks

abbrev pub named : String → List String → Bool
named k [] = false
named k (j ∷ js) = ite (string_discrete j k) true (named k js)

claims-claim_all :
    (ks : List String) (now : ℕ) (calls : Ledger) (enc : Encoder)
    → (claim_all ks now calls enc).1.claims ≡ calls.claims ++ new_claims now ks
unfolding claim_all claim_outpoint
claims-claim_all [] now calls enc = sym (append-nil (calls.claims))
claims-claim_all (k ∷ ks) now calls enc =
    claims-claim_all ks now (claim_outpoint calls k now enc).1 (claim_outpoint calls k now enc).0
    ∙ append_assoc (calls.claims) _ (new_claims now ks)

reservations-claim_all :
    (ks : List String) (now : ℕ) (calls : Ledger) (enc : Encoder) (k : String)
    → (claim_all ks now calls enc).0.outpoint_reservations k
      ≡ (if named k ks then some (now + reservation_ttl_ms) else enc.outpoint_reservations k)
unfolding claim_all claim_outpoint
reservations-claim_all [] now calls enc k = refl
reservations-claim_all (j ∷ ks) now calls enc k =
    reservations-claim_all ks now (claim_outpoint calls j now enc).1
      (claim_outpoint calls j now enc).0 k
    ∙ elim (string_discrete j k) [
      | yes e ↦ rw (if_pos (string_discrete j k) e, if_pos (string_discrete j k) e) (ground arith)
      | no n ↦ rw (if_neg (string_discrete j k) n, if_neg (string_discrete j k) n) refl
    ]

owned-new_claims :
    (ks : List String) (now : ℕ) (k : String) (s : Option ℕ)
    → ((named k ks ≡ false) → owned k s (new_claims now ks) ≡ false)
      × ((named k ks ≡ true) → owned k (some (now + reservation_ttl_ms)) (new_claims now ks) ≡ true)
owned-new_claims [] now k s = (λ _. refl, λ h. h)
owned-new_claims (j ∷ ks) now k s = ground (arith, owned-new_claims ks now k s)

named-free :
    (ks : List String) (k : String) (enc : Encoder)
    → All (λ j. enc.outpoint_reservations j ≡ none) ks
    → named k ks ≡ true
    → enc.outpoint_reservations k ≡ none
named-free [] k enc h e = cc
named-free (j ∷ ks) k enc h e = elim (string_discrete j k) [
  | yes p ↦ subst (λ (x : String). enc.outpoint_reservations x ≡ none) p h.0
  | no n ↦ named-free ks k enc h.1 (rw (if_neg (string_discrete j k) n) at e)
]

-- Claiming free outpoints and releasing the ledger leaves every outpoint as it was.
release-claim_all :
    (ks : List String) (now : ℕ) (enc : Encoder) (k : String)
    → All (λ j. enc.outpoint_reservations j ≡ none) ks
    → (release_call_reservations
          (new_claims now ks)
          (claim_all ks now
            (record { claims = []; build_txid = none })
            enc).0).outpoint_reservations
        k
      ≡ enc.outpoint_reservations k
release-claim_all ks now enc k free =
    rw
      (
        release_call_reservations-owned (new_claims now ks) _ k,
        reservations-claim_all ks now (record { claims = []; build_txid = none }) enc k,
      )
      (elim (Bool-cases (named k ks)) [
        | inl h ↦ rw (h, (owned-new_claims ks now k none).1 h) (sym (named-free ks k enc free h))
        | inr h ↦ rw (h, (owned-new_claims ks now k (enc.outpoint_reservations k)).0 h)
      ])

abbrev pub empty_ledger : Ledger
empty_ledger = record { claims = []; build_txid = none }

List-cases : (l : List String) → (l ≡ []) ⊎ ((j : String) × (js : List String) × (l ≡ j ∷ js))
List-cases [] = inl refl
List-cases (j ∷ js) = inr (j, js, refl)

claim_exact_free :
    (keys : List String) (now : ℕ) (calls : Ledger) (enc : Encoder)
    → (held_by_others keys now (evict_expired_reservations now enc)).0
      ≡ evict_expired_reservations now enc
    → (held_by_others keys now (evict_expired_reservations now enc)).1 ≡ []
    → claim_exact_inputs keys now calls enc ≡ (
      (claim_all keys now calls (evict_expired_reservations now enc)).0,
      ok (claim_all keys now calls (evict_expired_reservations now enc)).1,
    )
unfolding claim_exact_inputs
claim_exact_free keys now calls enc same e = rw (e, claim_exact_inputs) (rw same)

claim_exact_held :
    (keys : List String) (now : ℕ) (calls : Ledger) (enc : Encoder) {j : String} {js : List String}
    → (held_by_others keys now (evict_expired_reservations now enc)).0
      ≡ evict_expired_reservations now enc
    → (held_by_others keys now (evict_expired_reservations now enc)).1 ≡ j ∷ js
    → claim_exact_inputs keys now calls enc
      ≡ (evict_expired_reservations now enc, throw (operational input_reserved))
unfolding claim_exact_inputs
claim_exact_held keys now calls enc same e = rw (e, claim_exact_inputs) (rw same)

-- The two outcomes of an exact-input claim, outpoint by outpoint. Success: every named outpoint is
-- reserved for the time to live, and if the build fails afterwards, releasing its ledger leaves each
-- outpoint exactly as the sweep at its start left it. Refusal: nothing but that sweep happened.
pub claim_exact_inputs-all_or_nothing :
    (keys : List String) (now : ℕ) (enc : Encoder) (k : String)
    → ((enc' : Encoder) × (calls : Ledger) × (claim_exact_inputs keys now empty_ledger enc
          ≡ (enc', ok calls))
        × (named k keys ≡ true → enc'.outpoint_reservations k ≡ some (now + reservation_ttl_ms))
        × ((release_call_reservations (calls.claims) enc').outpoint_reservations k
            ≡ keep_live now (enc.outpoint_reservations k)))
      ⊎ (claim_exact_inputs keys now empty_ledger enc
          ≡ (evict_expired_reservations now enc, throw (operational input_reserved)))
unfolding evict_expired_reservations
claim_exact_inputs-all_or_nothing keys now enc k =
    let swept : Encoder = evict_expired_reservations now enc in
    let h = held_swept keys now swept (evict-IsSwept now enc) in
    elim (List-cases (held_by_others keys now swept).1) [
      | inl e ↦ inl (
        (claim_all keys now empty_ledger swept).0,
        (claim_all keys now empty_ledger swept).1,
        claim_exact_free keys now empty_ledger enc h.0 e,
        (λ n. reservations-claim_all keys now empty_ledger swept k ∙ rw n refl),
        rw (claims-claim_all keys now empty_ledger swept)
            (release-claim_all keys now swept k (h.1 e)),
      )
      | inr (j, js, e) ↦ inr (claim_exact_held keys now empty_ledger enc h.0 e)
    ]
