-- ===== src/Fees/Policy.antt =====
-- src/XChainEncoder/fee_policy.js. A rate that the source holds in coin per byte is here the same
-- rate in base units per kilobyte, a whole number: the case that `feeForVsize` computes exactly. The
-- doubles that `packageFeeUpliftSatoshis` multiplies are exact here, so its epsilon is not needed.
use xchain_encoder.Base.{
  ℕ, ◌+◌, ◌-◌, ◌*◌, ◌/◌, min, Bool, false, ◌&&◌, ◌||◌, Option, none, some, List, [], ◌∷◌, ltb, leb,
  ◌==◌, if◌then◌else◌,
}

abbrev pub burn_backstop_multiplier : ℕ
burn_backstop_multiplier = 100

-- Math.ceil(size * ratePerKb / 1000).
unfoldable pub fee_for_vsize : ℕ → ℕ → ℕ
fee_for_vsize vsize whole_rate = (vsize * whole_rate + 999) / 1000

-- `ancestor_fee_satoshis` is in base units; zero is "no uplift".
unfoldable pub package_fee_uplift_satoshis : ℕ → ℕ → ℕ → ℕ → ℕ → ℕ
unfolding fee_for_vsize
package_fee_uplift_satoshis current_fee tx_size ancestor_size ancestor_fee_satoshis target_fee =
    let package_fee_needed = fee_for_vsize (ancestor_size + tx_size) target_fee in
    if (target_fee == 0) || ((tx_size == 0) || (ancestor_size == 0))
    then 0
    else if ltb (ancestor_fee_satoshis + current_fee) package_fee_needed
    then package_fee_needed - ancestor_fee_satoshis - current_fee
    else 0

pub data Limit : Type 0 where
  no_limit cap backstop : Limit

pub record Capped : Type 0 where
  pub anchor : Option ℕ
  pub cap_rate : Option ℕ
  pub backstop_rate : Option ℕ
  pub limit : Limit
  pub clamped : Bool
  pub rate : ℕ

-- The node's rate, or the relay floor.
abbrev pub anchor_rate : Option ℕ → ℕ → Option ℕ
anchor_rate (some node) relay = some node
anchor_rate none relay = if ltb 0 relay then some relay else none

-- `maxFeeRateMultiplier` of 0 is off.
abbrev pub operator_cap : Option ℕ → ℕ → Option ℕ → Option ℕ
operator_cap max_rate multiplier none = max_rate
operator_cap none multiplier (some anchor) =
    if multiplier == 0 then none else some (anchor * multiplier)
operator_cap (some m) multiplier (some anchor) =
    if multiplier == 0 then some m else some (min m (anchor * multiplier))

abbrev pub backstop_of : Option ℕ → Option ℕ
backstop_of none = none
backstop_of (some anchor) = some (anchor * burn_backstop_multiplier)

abbrev pub binding_limit : Option ℕ → Option ℕ → Limit
binding_limit none none = no_limit
binding_limit none (some b) = backstop
binding_limit (some c) none = cap
binding_limit (some c) (some b) = if leb c b then cap else backstop

abbrev pub ceiling_of : Limit → Option ℕ → Option ℕ → Option ℕ
ceiling_of no_limit c b = none
ceiling_of cap c b = c
ceiling_of backstop c b = b

abbrev pub exceeds : ℕ → Option ℕ → Bool
exceeds rate none = false
exceeds rate (some ceiling) = ltb ceiling rate

abbrev pub clamp : ℕ → Option ℕ → ℕ
clamp rate none = rate
clamp rate (some ceiling) = if ltb ceiling rate then ceiling else rate

unfoldable pub cap_caller_fee_rate : ℕ → Option ℕ → ℕ → Option ℕ → ℕ → Capped
cap_caller_fee_rate rate node_rate relay_rate max_rate multiplier =
    let anchor = anchor_rate node_rate relay_rate in
    let cap_rate = operator_cap max_rate multiplier anchor in
    let backstop_rate = backstop_of anchor in
    let limit = binding_limit cap_rate backstop_rate in
    let ceiling = ceiling_of limit cap_rate backstop_rate in
    record {
      anchor = anchor;
      cap_rate = cap_rate;
      backstop_rate = backstop_rate;
      limit = limit;
      clamped = exceeds rate ceiling;
      rate = clamp rate ceiling;
    }

-- A soft limit of 0 is none.
unfoldable pub soft_dust_surcharge_for : List ℕ → ℕ → ℕ
soft_dust_surcharge_for [] soft_dust_floor = 0
soft_dust_surcharge_for (v ∷ vs) soft_dust_floor =
    let rest = soft_dust_surcharge_for vs soft_dust_floor in
    if ltb 0 v && ltb v soft_dust_floor then soft_dust_floor + rest else rest
