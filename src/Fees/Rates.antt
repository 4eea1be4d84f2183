-- ===== src/Fees/Rates.antt =====
-- src/XChainEncoder/build_transaction/fee_rates.js, with the ceilings on suggested rates of
-- src/XChainEncoder/fee_policy.js. Rates are base units per kilobyte, as in Fees/Policy, where the
-- epsilon of the source's comparison is not needed; a configured ceiling is a whole number per
-- byte. A node that reports no usable relay floor, or no estimate, answers `none`.
use xchain_encoder.Base.{
  ℕ, zero, suc, ◌*◌, max, Bool, ◌&&◌, Option, none, some, ltb, ◌==◌, if◌then◌else◌,
}
use xchain_encoder.Failures.{Result, ok, throw, internal, ◌>>=◌}
use xchain_encoder.Fees.Policy.{cap_caller_fee_rate}

abbrev pub default_suggested_fee_max_per_vbyte : ℕ
default_suggested_fee_max_per_vbyte = 20

abbrev pub suggested_fee_ceiling_relay_multiplier : ℕ
suggested_fee_ceiling_relay_multiplier = 10

-- A configured 0 turns the ceiling off.
unfoldable pub suggested_fee_ceiling : Option ℕ → Bool → Option ℕ
suggested_fee_ceiling configured is_test_network =
    let per_vbyte : ℕ = elim configured [
      | some per_vbyte ↦ per_vbyte
      | none ↦ if is_test_network then default_suggested_fee_max_per_vbyte else 0
    ] in
    if per_vbyte == 0 then none else some (per_vbyte * 1000)

unfoldable pub suggested_fee_ceiling_floor : ℕ → Option ℕ
suggested_fee_ceiling_floor relay =
    if relay == 0 then none else some (relay * suggested_fee_ceiling_relay_multiplier)

-- What the node answers, and what the operator configured.
pub record Network : Type 0 where
  pub relay_fee : Option ℕ
  pub fee_estimate : Option ℕ
  pub suggested_max : Option ℕ
  pub is_test_network : Bool
  pub max_rate : Option ℕ
  pub max_rate_multiplier : ℕ
  pub output_floor : ℕ

pub record Rates : Type 0 where
  pub relay_rate : ℕ
  pub rate : ℕ
  pub node_rate : ℕ
  pub cap_rate : Option ℕ
  pub final_dust : ℕ

unfoldable pub resolve_relay_fee_rate : Network → Result ℕ
resolve_relay_fee_rate network = elim (network.relay_fee) [
  | none ↦ throw internal
  | some relay ↦ if relay == 0 then throw internal else ok relay
]

-- The ceiling, lifted to its floor where the estimate is above it.
abbrev pub lifted_ceiling : ℕ → ℕ → Option ℕ → ℕ
lifted_ceiling estimate ceiling none = ceiling
lifted_ceiling estimate ceiling (some floor) =
    if ltb ceiling estimate && ltb ceiling floor then floor else ceiling

abbrev pub under_ceiling : ℕ → Option ℕ → Option ℕ → ℕ
under_ceiling estimate none floor = estimate
under_ceiling estimate (some ceiling) floor =
    if ltb (lifted_ceiling estimate ceiling floor) estimate
    then lifted_ceiling estimate ceiling floor
    else estimate

-- The rate and the node's rate; a failed estimate throws.
unfoldable pub use_node_fee_rate : Network → ℕ → Result (ℕ × Option ℕ)
unfolding suggested_fee_ceiling suggested_fee_ceiling_floor
use_node_fee_rate network relay = elim (network.fee_estimate) [
  | none ↦ throw internal
  | some estimate ↦ ok (
    max
        (under_ceiling estimate
          (suggested_fee_ceiling (network.suggested_max) (network.is_test_network))
          (suggested_fee_ceiling_floor relay))
        relay,
    some estimate,
  )
]

-- A caller's rate stands whatever the node answers.
unfoldable pub use_caller_fee_rate : Network → ℕ → Result (ℕ × Option ℕ)
use_caller_fee_rate network fee_per_kb = ok (fee_per_kb, network.fee_estimate)

abbrev pub anchor_relay_fee_rate : Option ℕ → ℕ → ℕ
anchor_relay_fee_rate none relay = relay
anchor_relay_fee_rate (some node) relay = node

abbrev pub final_dust_of : Option ℕ → ℕ → ℕ
final_dust_of none output_floor = output_floor
final_dust_of (some dust) output_floor = max dust output_floor

unfoldable pub apply_fee_cap_and_dust_floor : Network → ℕ → ℕ → ℕ → Option ℕ → Rates
unfolding cap_caller_fee_rate
apply_fee_cap_and_dust_floor network relay node rate dust =
    let capped =
      cap_caller_fee_rate rate (some node) relay (network.max_rate) (network.max_rate_multiplier) in
    record {
      relay_rate = relay;
      rate = if capped.clamped then capped.rate else rate;
      node_rate = node;
      cap_rate = capped.cap_rate;
      final_dust = final_dust_of dust (network.output_floor);
    }

-- A caller's rate of 0 is none.
unfoldable pub choose_fee_rate : Network → Option ℕ → ℕ → Result (ℕ × Option ℕ)
unfolding use_caller_fee_rate use_node_fee_rate
choose_fee_rate network none relay = use_node_fee_rate network relay
choose_fee_rate network (some zero) relay = use_node_fee_rate network relay
choose_fee_rate network (some (suc fee)) relay = use_caller_fee_rate network (suc fee)

unfoldable pub resolve_fee_rates : Network → Option ℕ → Option ℕ → Result Rates
unfolding resolve_relay_fee_rate choose_fee_rate apply_fee_cap_and_dust_floor
resolve_fee_rates network fee_per_kb dust = resolve_relay_fee_rate network >>= λ relay.
    choose_fee_rate network fee_per_kb relay >>= λ (rate, estimate).
    ok (apply_fee_cap_and_dust_floor network relay (anchor_relay_fee_rate estimate relay) rate dust)
