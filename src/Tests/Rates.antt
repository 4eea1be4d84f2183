-- ===== src/Tests/Rates.antt =====
-- src/XChainEncoder/build_transaction/fee_rates.js on a test chain whose node asks for too much.
use xchain_encoder.Base.{ℕ, suc, ◌*◌, ◌≤◌, ◌<◌, max, ◌≡◌, refl, ◌≢◌, ◌⊎◌, true, Option, none, some}
use xchain_encoder.Failures.{ok}
use xchain_encoder.Fees.Policy.{cap_caller_fee_rate, burn_backstop_multiplier}
use xchain_encoder.Fees.Ceilings.{IsBelow}
use xchain_encoder.Fees.Rates.{
  Network, Rates, suggested_fee_ceiling, suggested_fee_ceiling_floor,
  suggested_fee_ceiling_relay_multiplier, resolve_relay_fee_rate, choose_fee_rate,
  use_node_fee_rate, apply_fee_cap_and_dust_floor, resolve_fee_rates,
}
use xchain_encoder.Fees.Bounds.{resolve_fee_rates-bounded}

abbrev test_chain : Network
test_chain = record {
  relay_fee = some 1000;
  fee_estimate = some 50000;
  suggested_max = none;
  is_test_network = true;
  max_rate = some 100000;
  max_rate_multiplier = 1;
  output_floor = 546;
}

abbrev clamped_rates : Rates
clamped_rates = record {
  relay_rate = 1000;
  rate = 20000;
  node_rate = 50000;
  cap_rate = some 50000;
  final_dust = 600;
}

rates_resolved : resolve_fee_rates test_chain none (some 600) ≡ ok clamped_rates
unfolding resolve_fee_rates resolve_relay_fee_rate choose_fee_rate use_node_fee_rate
    suggested_fee_ceiling suggested_fee_ceiling_floor apply_fee_cap_and_dust_floor
    cap_caller_fee_rate
rates_resolved = refl

resolve_fee_rates-bounded_example :
    (0 < 1000)
    × (546 ≤ 600)
    × IsBelow 20000 (some 100000)
    × (◌≢◌ {A = ℕ} 1 0 → 20000 ≤ 50000 * 1)
    × (20000 ≤ 50000 * burn_backstop_multiplier)
    × ((fee : ℕ) → ◌≡◌ {A = Option ℕ} none (some (suc fee)) → 20000 ≤ suc fee)
    × ((◌≡◌ {A = Option ℕ} none none) ⊎ (◌≡◌ {A = Option ℕ} none (some 0))
        → ((1000 ≤ 20000)
            ⊎ (◌≡◌ {A = Option ℕ} (some 50000) (some 20000))
            ⊎ (◌≡◌ {A = ℕ} 20000 (50000 * burn_backstop_multiplier)))
          × ((ceiling : ℕ)
              → suggested_fee_ceiling none true ≡ some ceiling
              → 20000 ≤ max ceiling (1000 * suggested_fee_ceiling_relay_multiplier)))
resolve_fee_rates-bounded_example =
    resolve_fee_rates-bounded test_chain none (some 600) clamped_rates rates_resolved
