-- ===== src/Fees/Bounds.antt =====
-- The bounds on the rates of src/XChainEncoder/build_transaction/fee_rates.js.
use xchain_encoder.Base.{
  ℕ, zero, suc, ◌*◌, ◌≤◌, ◌<◌, max, ◌≡◌, refl, sym, subst, ◌≢◌, ◌⊎◌, inl, inr, Option, none, some,
  arith, if◌then◌else◌, Option-cases,
}
use xchain_encoder.Failures.{ok, Result-cases}
use xchain_encoder.Fees.Rates.{choose_fee_rate}
use xchain_encoder.Fees.Policy.{cap_caller_fee_rate, burn_backstop_multiplier}
use xchain_encoder.Fees.Ceilings.{IsBelow, cap_caller_fee_rate-within}
use xchain_encoder.Fees.Rates.{
  Network, Rates, suggested_fee_ceiling, suggested_fee_ceiling_floor,
  suggested_fee_ceiling_relay_multiplier, under_ceiling, resolve_relay_fee_rate, use_node_fee_rate,
  use_caller_fee_rate, anchor_relay_fee_rate, final_dust_of, apply_fee_cap_and_dust_floor,
  resolve_fee_rates,
}

-- The cap keeps a rate or lowers it to one of its two limits.
record IsCapped (network : Network) (relay node rate : ℕ) (dust : Option ℕ) (rates : Rates)
    : Type 0 where
  same_relay : rates.relay_rate ≡ relay
  same_node : rates.node_rate ≡ node
  lowered : rates.rate ≤ rate
  below_max : IsBelow (rates.rate) (network.max_rate)
  below_multiple : network.max_rate_multiplier ≢ 0 → rates.rate ≤ node * network.max_rate_multiplier
  below_backstop : rates.rate ≤ node * burn_backstop_multiplier
  kept :
      (rates.rate ≡ rate)
      ⊎ (rates.cap_rate ≡ some (rates.rate))
      ⊎ (rates.rate ≡ node * burn_backstop_multiplier)
  dusted : network.output_floor ≤ rates.final_dust

limit_lem :
    (rate node relay : ℕ) (max_rate : Option ℕ) (multiplier : ℕ)
    → let capped = cap_caller_fee_rate rate (some node) relay max_rate multiplier in
      (◌≡◌ {A = ℕ} (if capped.clamped then capped.rate else rate) (capped.rate))
      × ((capped.rate ≡ rate)
          ⊎ (capped.cap_rate ≡ some (capped.rate))
          ⊎ (capped.rate ≡ node * burn_backstop_multiplier))
unfolding cap_caller_fee_rate
limit_lem rate node relay none multiplier = (ground arith, ground arith)
limit_lem rate node relay (some m) multiplier = (ground arith, ground arith)

final_dust_lem : (dust : Option ℕ) (floor : ℕ) → floor ≤ final_dust_of dust floor
final_dust_lem none floor = omega arith
final_dust_lem (some dust) floor = omega arith

cap_lem :
    (network : Network) (relay node rate : ℕ) (dust : Option ℕ)
    → IsCapped network relay node rate dust
        (apply_fee_cap_and_dust_floor network relay node rate dust)
unfolding apply_fee_cap_and_dust_floor
cap_lem network relay node rate dust =
    let (same, limit) =
      limit_lem rate node relay (network.max_rate) (network.max_rate_multiplier) in
    let (lowered, below, anchored, _) =
      cap_caller_fee_rate-within rate (some node) relay (network.max_rate)
        (network.max_rate_multiplier) in
    record {
      same_relay = refl;
      same_node = refl;
      lowered = rw same lowered;
      below_max = rw same below;
      below_multiple = λ on. rw same ((anchored node refl).1 on);
      below_backstop = rw same (anchored node refl).0;
      kept = rw same limit;
      dusted = final_dust_lem dust (network.output_floor);
    }

under_lem :
    (estimate ceiling relay : ℕ)
    → under_ceiling estimate (some ceiling) (suggested_fee_ceiling_floor relay)
      ≤ max ceiling (relay * suggested_fee_ceiling_relay_multiplier)
unfolding suggested_fee_ceiling_floor
under_lem estimate ceiling relay = ground arith

-- A rate that the node's estimate settles.
node_lem :
    (network : Network) (relay rate : ℕ) (estimate : Option ℕ)
    → use_node_fee_rate network relay ≡ ok (rate, estimate)
    → (relay ≤ rate)
      × ((ceiling : ℕ)
          → suggested_fee_ceiling (network.suggested_max) (network.is_test_network) ≡ some ceiling
          → rate ≤ max (max ceiling (relay * suggested_fee_ceiling_relay_multiplier)) relay)
unfolding use_node_fee_rate
node_lem network relay rate estimate h = elim (Option-cases (network.fee_estimate)) [
  | inl e ↦ absurd (ground (arith, e))
  | inr (answered, e) ↦
      let asked = suggested_fee_ceiling (network.suggested_max) (network.is_test_network) in
      let same : max (under_ceiling answered asked (suggested_fee_ceiling_floor relay)) relay
          ≡ rate =
        ground (arith, e) in
      (
        omega (arith, same),
        λ ceiling c.
            let b : under_ceiling answered asked (suggested_fee_ceiling_floor relay)
                ≤ max ceiling (relay * suggested_fee_ceiling_relay_multiplier) =
              rw c (under_lem answered ceiling relay) in
            omega (arith, same, b),
      )
]

-- What the three steps before the cap settle.
record IsChosen (network : Network) (fee_per_kb dust : Option ℕ) (rates : Rates) : Type 0 where
  relay : ℕ
  rate : ℕ
  estimate : Option ℕ
  usable : 0 < relay
  chosen : choose_fee_rate network fee_per_kb relay ≡ ok (rate, estimate)
  capped :
      apply_fee_cap_and_dust_floor network relay (anchor_relay_fee_rate estimate relay) rate dust
      ≡ rates

relay_lem : (network : Network) (relay : ℕ) → resolve_relay_fee_rate network ≡ ok relay → 0 < relay
unfolding resolve_relay_fee_rate
relay_lem network relay h = ground arith

resolve_fee_rates-IsChosen :
    (network : Network) (fee_per_kb dust : Option ℕ) (rates : Rates)
    → resolve_fee_rates network fee_per_kb dust ≡ ok rates
    → IsChosen network fee_per_kb dust rates
unfolding resolve_fee_rates
resolve_fee_rates-IsChosen network fee_per_kb dust rates h =
    elim (Result-cases (resolve_relay_fee_rate network)) [
      | inr (failure, e) ↦ absurd (ground (arith, e))
      | inl (relay, e) ↦ elim (Result-cases (choose_fee_rate network fee_per_kb relay)) [
        | inr (failure, f) ↦ absurd (ground (arith, e, f))
        | inl ((rate, estimate), f) ↦ record {
          relay = relay;
          rate = rate;
          estimate = estimate;
          usable = relay_lem network relay e;
          chosen = f;
          capped = ground (arith, e, f);
        }
      ]
    ]

chosen_lem :
    (network : Network) (relay rate : ℕ) (estimate fee_per_kb : Option ℕ)
    → choose_fee_rate network fee_per_kb relay ≡ ok (rate, estimate)
    → ((fee : ℕ) → fee_per_kb ≡ some (suc fee) → rate ≡ suc fee)
      × ((fee_per_kb ≡ none) ⊎ (fee_per_kb ≡ some 0)
          → use_node_fee_rate network relay ≡ ok (rate, estimate))
unfolding choose_fee_rate use_caller_fee_rate
chosen_lem network relay rate estimate none h = ((λ fee e. absurd (ground arith)), λ e. h)
chosen_lem network relay rate estimate (some zero) h = ((λ fee e. absurd (ground arith)), λ e. h)
chosen_lem network relay rate estimate (some (suc n)) h =
    ((λ fee e. ground arith), λ e. absurd (ground arith))

-- Rates that are resolved come from a node with a positive relay floor, and dust is at least the
-- output floor. The rate is within the operator's maximum, within his multiple of the node's rate where
-- he set one, within a hundred times the node's rate, and at most a caller's rate. Without a caller's rate it is at least the relay floor, unless it was lowered
-- to the cap or to that hundredfold, and a ceiling on suggested rates bounds it, with ten times the
-- relay floor where that is higher.
pub resolve_fee_rates-bounded :
    (network : Network) (fee_per_kb dust : Option ℕ) (rates : Rates)
    → resolve_fee_rates network fee_per_kb dust ≡ ok rates
    → (0 < rates.relay_rate)
      × (network.output_floor ≤ rates.final_dust)
      × IsBelow (rates.rate) (network.max_rate)
      × (network.max_rate_multiplier ≢ 0
          → rates.rate ≤ rates.node_rate * network.max_rate_multiplier)
      × (rates.rate ≤ rates.node_rate * burn_backstop_multiplier)
      × ((fee : ℕ) → fee_per_kb ≡ some (suc fee) → rates.rate ≤ suc fee)
      × ((fee_per_kb ≡ none) ⊎ (fee_per_kb ≡ some 0)
          → ((rates.relay_rate ≤ rates.rate)
              ⊎ (rates.cap_rate ≡ some (rates.rate))
              ⊎ (rates.rate ≡ rates.node_rate * burn_backstop_multiplier))
            × ((ceiling : ℕ)
                → suggested_fee_ceiling (network.suggested_max) (network.is_test_network)
                  ≡ some ceiling
                → rates.rate
                  ≤ max ceiling (rates.relay_rate * suggested_fee_ceiling_relay_multiplier)))
resolve_fee_rates-bounded network fee_per_kb dust rates h =
    let p = resolve_fee_rates-IsChosen network fee_per_kb dust rates h in
    let (caller, node) = chosen_lem network (p.relay) (p.rate) (p.estimate) fee_per_kb (p.chosen) in
    let c : IsCapped network (p.relay) (anchor_relay_fee_rate (p.estimate) (p.relay)) (p.rate) dust
        rates =
      subst (IsCapped network (p.relay) _ (p.rate) dust) (p.capped)
        (cap_lem network (p.relay) (anchor_relay_fee_rate (p.estimate) (p.relay)) (p.rate) dust) in
    (
      omega (arith, c.same_relay, p.usable),
      c.dusted,
      c.below_max,
      (λ on.
          subst (λ n. rates.rate ≤ n * network.max_rate_multiplier) (sym c.same_node)
            (c.below_multiple on)),
      omega (arith, c.same_node, c.below_backstop),
      (λ fee e. omega (arith, c.lowered, caller fee e)),
      λ e.
          let (floor, ceil) = node_lem network (p.relay) (p.rate) (p.estimate) (node e) in
          (
            elim (c.kept) [
              | inl k ↦ inl (omega (arith, k, floor, c.same_relay))
              | inr (inl k) ↦ inr (inl k)
              | inr (inr k) ↦ inr (inr (omega (arith, k, c.same_node)))
            ],
            λ ceiling a. omega (arith, c.lowered, c.same_relay, p.usable, ceil ceiling a),
          ),
    )
