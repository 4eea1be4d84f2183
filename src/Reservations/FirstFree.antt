-- ===== src/Reservations/FirstFree.antt =====
-- src/XChainEncoder/build_transaction/first_input_key.js: the input whose txid is the obfuscation
-- key. A candidate is its outpoint key, as `outpointKey` spells it, and its txid in lower case.
use xchain_encoder.Base.{
  ℕ, ◌+◌, ◌<◌, String, ◌≡◌, refl, sym, ap, ◌∙◌, subst, ◌⊎◌, inl, inr, Bool, true, false, Option,
  none, some, List, [], ◌∷◌, ◌++◌, map, append_assoc, append-nil, arith, if◌then◌else◌, Bool-cases,
  Option-cases, All, map_set,
}
use xchain_encoder.Failures.{Result, ok, ◌>>=◌}
use xchain_encoder.Reservations.State.{Ledger, Encoder, reservation_ttl_ms}
use xchain_encoder.Reservations.Operations.{
  is_outpoint_reserved, reserve_outpoint, claim_outpoint, evict_expired_reservations,
}
use xchain_encoder.Reservations.Exact.{claim_exact_inputs, IsSwept, evict-IsSwept, reserved_swept}

pub record Candidate : Type 0 where
  pub key : String
  pub txid : String

-- The state after the claim, with the candidates in their new order and the claimed one.
pub record Bound : Type 0 where
  pub enc : Encoder
  pub calls : Ledger
  pub utxos : List Candidate
  pub first : Option Candidate

-- `passed` are the candidates before this one, all of them reserved.
unfoldable pub first_free_loop : ℕ → Ledger → List Candidate → List Candidate → Encoder → Bound
unfolding is_outpoint_reserved claim_outpoint
first_free_loop now calls passed [] enc = record {
  enc = enc;
  calls = calls;
  utxos = passed;
  first = none;
}
first_free_loop now calls passed (u ∷ us) enc =
    let asked = is_outpoint_reserved (u.key) now enc in
    let claimed = claim_outpoint calls (u.key) now (asked.0) in
    let rest = first_free_loop now calls (passed ++ u ∷ []) us (asked.0) in
    if asked.1
    then rest
    else record { enc = claimed.0; calls = claimed.1; utxos = u ∷ (passed ++ us); first = some u }

unfoldable pub claim_first_free_input : ℕ → Ledger → List Candidate → Encoder → Bound
unfolding first_free_loop evict_expired_reservations
claim_first_free_input now calls utxos enc =
    first_free_loop now calls [] utxos (evict_expired_reservations now enc)

-- The key: the claimed candidate's txid, or that of the first where none was free.
abbrev pub key_of : Option Candidate → List Candidate → Option String
key_of (some u) utxos = some (u.txid)
key_of none [] = none
key_of none (u ∷ us) = some (u.txid)

unfoldable pub txid_first_input : Bound → Option String
txid_first_input bound = key_of (bound.first) (bound.utxos)

-- What `bindObfuscationKey` leaves in the build.
pub record Binding : Type 0 where
  pub calls : Ledger
  pub utxos : List Candidate
  pub first_reserved_outpoint : Option String
  pub txid_first_input : Option String

abbrev pub outpoint_of : Option Candidate → Option String
outpoint_of none = none
outpoint_of (some u) = some (u.key)

-- A reveal has no candidates; exact inputs keep the caller's order.
unfoldable pub bind_obfuscation_key :
    Bool → ℕ → Ledger → List Candidate → Encoder → Encoder × Result Binding
unfolding claim_exact_inputs claim_first_free_input txid_first_input
bind_obfuscation_key exact_inputs now calls [] enc = (
  enc,
  ok (record {
    calls = calls;
    utxos = [];
    first_reserved_outpoint = none;
    txid_first_input = none;
  }),
)
bind_obfuscation_key true now calls (u ∷ us) enc =
    let claimed = claim_exact_inputs (map (λ c. c.key) (u ∷ us)) now calls enc in
    (
      claimed.0,
      claimed.1 >>= λ c. ok (record {
        calls = c;
        utxos = u ∷ us;
        first_reserved_outpoint = none;
        txid_first_input = some (u.txid);
      }),
    )
bind_obfuscation_key false now calls (u ∷ us) enc =
    let bound = claim_first_free_input now calls (u ∷ us) enc in
    (
      bound.enc,
      ok (record {
        calls = bound.calls;
        utxos = bound.utxos;
        first_reserved_outpoint = outpoint_of (bound.first);
        txid_first_input = txid_first_input bound;
      }),
    )

-- Whether another build holds the outpoint at `now`.
abbrev pub IsHeldAt : ℕ → Encoder → Candidate → Type 0
IsHeldAt now enc u = (e : ℕ) × (enc.outpoint_reservations (u.key) ≡ some e) × (now < e)

-- The candidate reserved for the time to live, and nothing else changed.
abbrev pub reserved_for : Candidate → ℕ → Encoder → Encoder
reserved_for u now enc = record enc {
  outpoint_reservations = map_set (u.key) (now + reservation_ttl_ms) (enc.outpoint_reservations);
}

-- The outcome of the loop on `us` behind `passed`.
abbrev Outcome : ℕ → Ledger → List Candidate → List Candidate → Encoder → Bound → Type 0
Outcome now calls passed us enc bound =
    ((bound ≡ record { enc = enc; calls = calls; utxos = passed ++ us; first = none })
      × All (IsHeldAt now enc) us)
    ⊎ ((pre : List Candidate) × (u : Candidate) × (post : List Candidate) × (us ≡ pre ++ u ∷ post)
        × All (IsHeldAt now enc) pre
        × (enc.outpoint_reservations (u.key) ≡ none)
        × (bound ≡ record {
          enc = reserved_for u now enc;
          calls = record calls {
            claims =
                calls.claims
                ++ record { key = u.key; expiry = now + reservation_ttl_ms; cancel_owner_id = none }
                  ∷ [];
          };
          utxos = u ∷ (passed ++ (pre ++ post));
          first = some u;
        }))

held_at :
    (now : ℕ) (enc : Encoder) (u : Candidate)
    → IsSwept now enc
    → (is_outpoint_reserved (u.key) now enc).1 ≡ true
    → IsHeldAt now enc u
unfolding is_outpoint_reserved
held_at now enc u swept h = elim (Option-cases (enc.outpoint_reservations (u.key))) [
  | inl e ↦ ground arith
  | inr (v, e) ↦ (v, e, swept (u.key) v e)
]

snoc_append :
    (passed us : List Candidate) (u : Candidate) → (passed ++ u ∷ []) ++ us ≡ passed ++ u ∷ us
snoc_append passed us u = append_assoc passed (u ∷ []) us

-- A held candidate is passed over.
pass_over :
    (now : ℕ) (calls : Ledger) (passed us : List Candidate) (enc : Encoder) (u : Candidate)
    (bound : Bound)
    → IsHeldAt now enc u
    → Outcome now calls (passed ++ u ∷ []) us enc bound
    → Outcome now calls passed (u ∷ us) enc bound
pass_over now calls passed us enc u bound held (inl (e, all)) = inl (
  e
      ∙ ap (λ l. record { enc = enc; calls = calls; utxos = l; first = none })
          (snoc_append passed us u),
  (held, all),
)
pass_over now calls passed us enc u bound held (inr (pre, v, post, e, all, free, same)) = inr (
  u ∷ pre,
  v,
  post,
  ap (◌∷◌ u) e,
  (held, all),
  free,
  subst
      (λ l. bound ≡ record {
        enc = reserved_for v now enc;
        calls = record calls {
          claims =
              calls.claims
              ++ record { key = v.key; expiry = now + reservation_ttl_ms; cancel_owner_id = none }
                ∷ [];
        };
        utxos = v ∷ (l);
        first = some v;
      })
      (snoc_append passed (pre ++ post) u) same,
)

txid_of_first :
    (bound : Bound) (u : Candidate) → bound.first ≡ some u → txid_first_input bound ≡ some (u.txid)
unfolding txid_first_input
txid_of_first bound u e = ap (λ f. key_of f (bound.utxos)) e

loop-Outcome :
    (now : ℕ) (calls : Ledger) (passed us : List Candidate) (enc : Encoder)
    → IsSwept now enc
    → Outcome now calls passed us enc (first_free_loop now calls passed us enc)
unfolding first_free_loop claim_outpoint reserve_outpoint
loop-Outcome now calls passed [] enc swept = inl (
  ap (λ l. record { enc = enc; calls = calls; utxos = l; first = none }) (sym (append-nil passed)),
  tt,
)
loop-Outcome now calls passed (u ∷ us) enc swept =
    let (same, free) = reserved_swept (u.key) now enc swept in
    elim (Bool-cases ((is_outpoint_reserved (u.key) now enc).1)) [
      | inl held ↦
          rw (held, same)
            (pass_over now calls passed us enc u _ (held_at now enc u swept held)
              (loop-Outcome now calls (passed ++ u ∷ []) us enc swept))
      | inr is_free ↦ rw (is_free, same) (inr ([], u, us, refl, tt, free is_free, refl))
    ]

-- Greedy selection binds the obfuscation key to the head of the candidates. Either every candidate
-- is held by a live reservation, nothing is claimed or reordered, and only the sweep happened. Or
-- one is not: the first such candidate is moved to the head, those before and after it keep their
-- order, and the key is its txid. It is the one claimed: it is reserved for the time to live, its
-- claim is added to the build's ledger with that stamp, and nothing else changes after the sweep.
pub claim_first_free_input-head :
    (now : ℕ) (calls : Ledger) (utxos : List Candidate) (enc : Encoder)
    → let swept : Encoder = evict_expired_reservations now enc in
      let bound = claim_first_free_input now calls utxos enc in
      ((bound ≡ record { enc = swept; calls = calls; utxos = utxos; first = none })
        × All (IsHeldAt now swept) utxos)
      ⊎ ((pre : List Candidate) × (u : Candidate) × (post : List Candidate) × (utxos
            ≡ pre ++ u ∷ post)
          × All (IsHeldAt now swept) pre
          × (swept.outpoint_reservations (u.key) ≡ none)
          × (txid_first_input bound ≡ some (u.txid))
          × (bound ≡ record {
            enc = reserved_for u now swept;
            calls = record calls {
              claims =
                  calls.claims
                  ++ record {
                    key = u.key;
                    expiry = now + reservation_ttl_ms;
                    cancel_owner_id = none;
                  }
                    ∷ [];
            };
            utxos = u ∷ (pre ++ post);
            first = some u;
          }))
unfolding claim_first_free_input
claim_first_free_input-head now calls utxos enc =
    elim (loop-Outcome now calls [] utxos (evict_expired_reservations now enc)
      (evict-IsSwept now enc)) [
        | inl o ↦ inl o
        | inr (pre, u, post, e, all, free, same) ↦
            inr (pre, u, post, e, all, free, txid_of_first _ u (ap (λ b. b.first) same), same)
      ]
