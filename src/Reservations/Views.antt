-- ===== src/Reservations/Views.antt =====
-- The sweeps of src/XChainEncoder/outpoint_reservations.js cannot be told from leases that are never
-- swept.
use xchain_encoder.Base.{
  ℕ, ◌≤◌, String, ◌≡◌, refl, sym, ap, ◌∙◌, subst, inl, inr, ite, Bool, true, false, Option, none,
  some, List, [], ◌∷◌, arith, leb, Bool-cases, Option-cases, string_discrete, Map, map_empty,
  map_delete,
}
use xchain_encoder.Reservations.State.{Claim, Encoder, no_reservations, stamp_is, keep_live, has}
use xchain_encoder.Reservations.Operations.{
  is_outpoint_reserved, reserve_outpoint, claim_outpoint, release_call_reservations,
  release_stamped, evict_expired_reservations,
}
use xchain_encoder.Reservations.Leases.{
  Call, sweep_all, ask, claim, release, Event, IsOrdered, is_held, end_lease, end_leases,
  lease_step, lease_answers, encoder_step, encoder_answers,
}

-- Two maps that no one who looks from `now` on can tell apart.
abbrev pub IsView : ℕ → Map ℕ → Map ℕ → Type 0
IsView now held leases = (k : String) → keep_live now (held k) ≡ keep_live now (leases k)

keep_live-later :
    (now later : ℕ) (x y : Option ℕ)
    → now ≤ later
    → keep_live now x ≡ keep_live now y
    → keep_live later x ≡ keep_live later y
keep_live-later now later none none le h = refl
keep_live-later now later none (some y) le h = ground arith
keep_live-later now later (some x) none le h = ground arith
keep_live-later now later (some x) (some y) le h = ground arith

keep_live-keep_live : (now : ℕ) (x : Option ℕ) → keep_live now (keep_live now x) ≡ keep_live now x
keep_live-keep_live now none = refl
keep_live-keep_live now (some x) = ground arith

ite_view :
    {P : Type 0} (now : ℕ) (x a b : Option ℕ) (d : Dec P)
    → keep_live now a ≡ keep_live now b
    → keep_live now (ite d x a) ≡ keep_live now (ite d x b)
ite_view now x a b (yes p) h = refl
ite_view now x a b (no n) h = h

ite_dead :
    {P : Type 0} (now : ℕ) (a b : Option ℕ) (d : Dec P)
    → (P → keep_live now b ≡ none)
    → keep_live now a ≡ keep_live now b
    → keep_live now (ite d none a) ≡ keep_live now b
ite_dead now a b (yes p) dead h = sym (dead p)
ite_dead now a b (no n) dead h = h

-- Setting the same, and deleting what neither shows, keeps the view.
set-IsView :
    (now : ℕ) (held leases : Map ℕ) (key : String) (x : Option ℕ)
    → IsView now held leases
    → IsView now
        (λ k. ite (string_discrete key k) x (held k))
        (λ k. ite (string_discrete key k) x (leases k))
set-IsView now held leases key x v k = ite_view now x _ _ (string_discrete key k) (v k)

delete-IsView :
    (now : ℕ) (held leases : Map ℕ) (key : String)
    → keep_live now (leases key) ≡ none
    → IsView now held leases
    → IsView now (map_delete key held) leases
delete-IsView now held leases key dead v k =
    ite_dead now _ _ (string_discrete key k)
      (λ e. subst (λ j. keep_live now (leases j) ≡ none) e dead) (v k)

IsView-sym : (now : ℕ) (a b : Map ℕ) → IsView now a b → IsView now b a
IsView-sym now a b v k = sym (v k)

ask-IsView :
    (now : ℕ) (key : String) (enc : Encoder) (leases : Map ℕ)
    → IsView now (enc.outpoint_reservations) leases
    → IsView now ((is_outpoint_reserved key now enc).0.outpoint_reservations) leases
      × ((is_outpoint_reserved key now enc).1 ≡ is_held now (leases key))
unfolding is_outpoint_reserved
ask-IsView now key enc leases v = elim (Option-cases (enc.outpoint_reservations key)) [
  | inl e ↦
      let w : keep_live now (leases key) ≡ none = sym (v key) ∙ ap (keep_live now) e in
      rw (e, is_outpoint_reserved) (v, sym (ap has w))
  | inr (expiry, e) ↦
      let w : keep_live now (leases key) ≡ keep_live now (some expiry) =
        sym (v key) ∙ ap (keep_live now) e in
      elim (Bool-cases (leb expiry now)) [
        | inl f ↦
            let dead : keep_live now (leases key) ≡ none = w ∙ rw f refl in
            rw (e, is_outpoint_reserved, f)
              (delete-IsView now (enc.outpoint_reservations) leases key dead v, sym (ap has dead))
        | inr f ↦
            let live : keep_live now (leases key) ≡ some expiry = w ∙ rw f refl in
            rw (e, is_outpoint_reserved, f) (v, sym (ap has live))
      ]
]

keep_live-some :
    (now : ℕ) (x : Option ℕ) (expiry : ℕ) → keep_live now x ≡ some expiry → x ≡ some expiry
keep_live-some now none expiry h = h
keep_live-some now (some e) expiry h = ground arith

abbrev delete_if : Bool → String → Map ℕ → Map ℕ
delete_if true key m = map_delete key m
delete_if false key m = m

-- A dead entry may go on either side.
dead-IsView :
    (now : ℕ) (held leases : Map ℕ) (key : String) (a b : Bool)
    → keep_live now (leases key) ≡ none
    → IsView now held leases
    → IsView now (delete_if a key held) (delete_if b key leases)
dead-IsView now held leases key true true dead v = set-IsView now held leases key none v
dead-IsView now held leases key true false dead v = delete-IsView now held leases key dead v
dead-IsView now held leases key false true dead v =
    IsView-sym now _ _
      (delete-IsView now leases held key (v key ∙ dead) (IsView-sym now held leases v))
dead-IsView now held leases key false false dead v = v

live-IsView :
    (now : ℕ) (held leases : Map ℕ) (key : String) (a : Bool)
    → IsView now held leases
    → IsView now (delete_if a key held) (delete_if a key leases)
live-IsView now held leases key true v = set-IsView now held leases key none v
live-IsView now held leases key false v = v

released_lem :
    (c : Claim) (enc : Encoder)
    → (release_stamped c enc).outpoint_reservations
      ≡ delete_if
          (stamp_is (enc.outpoint_reservations (c.key)) (c.expiry))
          (c.key)
          (enc.outpoint_reservations)
released_lem c enc = elim (Bool-cases (stamp_is (enc.outpoint_reservations (c.key)) (c.expiry))) [
  | inl e ↦ rw e refl
  | inr e ↦ rw e refl
]

ended_lem :
    (c : Claim) (leases : Map ℕ)
    → end_lease c leases ≡ delete_if (stamp_is (leases (c.key)) (c.expiry)) (c.key) leases
ended_lem c leases = elim (Bool-cases (stamp_is (leases (c.key)) (c.expiry))) [
  | inl e ↦ rw e refl
  | inr e ↦ rw e refl
]

stamped-IsView :
    (now : ℕ) (c : Claim) (held leases : Map ℕ)
    → IsView now held leases
    → IsView now
        (delete_if (stamp_is (held (c.key)) (c.expiry)) (c.key) held)
        (delete_if (stamp_is (leases (c.key)) (c.expiry)) (c.key) leases)
stamped-IsView now c held leases v = elim (Option-cases (keep_live now (leases (c.key)))) [
  | inl dead ↦ dead-IsView now held leases (c.key) _ _ dead v
  | inr (expiry, live) ↦
      let same : held (c.key) ≡ leases (c.key) =
        keep_live-some now (held (c.key)) expiry (v (c.key) ∙ live)
        ∙ sym (keep_live-some now (leases (c.key)) expiry live) in
      subst
        (λ o.
          IsView now (delete_if (stamp_is o (c.expiry)) (c.key) held)
            (delete_if (stamp_is (leases (c.key)) (c.expiry)) (c.key) leases))
        (sym same) (live-IsView now held leases (c.key) _ v)
]

release-IsView :
    (now : ℕ) (cs : List Claim) (enc : Encoder) (leases : Map ℕ)
    → IsView now (enc.outpoint_reservations) leases
    → IsView now ((release_call_reservations cs enc).outpoint_reservations) (end_leases cs leases)
unfolding release_call_reservations end_leases
release-IsView now [] enc leases v = v
release-IsView now (c ∷ cs) enc leases v =
    release-IsView now cs (release_stamped c enc) (end_lease c leases) (
      rw (released_lem c enc, ended_lem c leases)
        (stamped-IsView now c (enc.outpoint_reservations) leases v))

-- One call keeps the view and gives the same answer.
call-IsView :
    (now : ℕ) (call : Call) (enc : Encoder) (leases : Map ℕ)
    → let e : Event = record { now = now; call = call } in
      IsView now (enc.outpoint_reservations) leases
      → IsView now ((encoder_step e enc).0.outpoint_reservations) (lease_step e leases).0
        × ((encoder_step e enc).1 ≡ (lease_step e leases).1)
unfolding encoder_step lease_step claim_outpoint reserve_outpoint evict_expired_reservations
call-IsView now sweep_all enc leases v =
    ((λ k. keep_live-keep_live now (enc.outpoint_reservations k) ∙ v k), refl)
call-IsView now (ask key) enc leases v = ask-IsView now key enc leases v
call-IsView now (claim key) enc leases v =
    (set-IsView now (enc.outpoint_reservations) leases key _ v, refl)
call-IsView now (release cs) enc leases v = (release-IsView now cs enc leases v, refl)

answers_lem :
    (now : ℕ) (es : List Event) (enc : Encoder) (leases : Map ℕ)
    → IsOrdered now es
    → IsView now (enc.outpoint_reservations) leases
    → encoder_answers es enc ≡ lease_answers es leases
unfolding encoder_answers lease_answers
answers_lem now [] enc leases order v = refl
answers_lem now (e ∷ es) enc leases order v =
    let (view, same) =
      call-IsView (e.now) (e.call) enc leases
        (λ k. keep_live-later now (e.now) _ _ order.0 (v k)) in
    let rest = answers_lem (e.now) es (encoder_step e enc).0 (lease_step e leases).0 order.1 view in
    ap (λ a. a ∷ encoder_answers es (encoder_step e enc).0) same
    ∙ ap (◌∷◌ (lease_step e leases).1) rest

-- Sweeps and evictions on reading are never observed: on any sequence of sweeps, questions, claims
-- and releases of any ledgers in the order of the clock, the encoder, started without reservations,
-- answers every question as leases do that only a claim renews and a release by its stamp ends.
pub encoder_answers-leases :
    (es : List Event)
    → IsOrdered 0 es
    → encoder_answers es no_reservations ≡ lease_answers es map_empty
encoder_answers-leases es order = answers_lem 0 es no_reservations map_empty order (λ k. refl)
