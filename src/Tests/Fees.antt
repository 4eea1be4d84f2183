-- ===== src/Tests/Fees.antt =====
-- A build of 250 bytes at 20 base units per byte, on top of an ancestor that paid too little.
use xchain_encoder.Base.{
  ℕ, ◌+◌, ◌≤◌, max, ◌≡◌, refl, ◌↔◌, ◌⊎◌, Bool, true, false, Option, none, some, arith, replicate,
}
use xchain_encoder.Failures.{ok}
use xchain_encoder.Fees.Policy.{fee_for_vsize, package_fee_uplift_satoshis}
use xchain_encoder.Fees.Settlement.{
  Build, AncestorPackage, RevealPrefund, refuse_excessive_fee, reaches_relay_minimum,
  uplift_ancestor_fee, settle_fees, refuse_insufficient_relay_fee, uplift_for_ancestors,
  floor_estimated_fee, prefund_reveal_package, prefund_commit, apply_reveal_prefund, compute_change,
}
use xchain_encoder.Payload.Slices.{Bytes}
use xchain_encoder.Sizes.Estimator.{estimate_output_size_for_address}
use xchain_encoder.Fees.Cancel.{
  below_floor, cancel_vsize, Sweep, pad_value, size_cancel_sweep, size_cancel_sweep-exact,
}
use xchain_encoder.Fees.Change.{settle_fees-balanced, settle_fees-funded}

abbrev commit : RevealPrefund
commit = record { reveal_fee = 3000; reveal_size = 300; commit_value = 4000; envelope = none }

abbrev build_of_250 : Build
build_of_250 = record {
  fee = false;
  caller_rate = false;
  p2sh_hash = false;
  change = true;
  cap_rate = some 500000;
  node_rate = some 20000;
  rate = 20000;
  relay_rate = 1000;
  estimated_tx_size = 250;
  estimated_fee = 5000;
  soft_dust_surcharge = 0;
  input_satoshis = 100000;
  output_satoshis = 60000;
  commit_ancestor_size = 0;
  commit_ancestor_fee = 0;
  reveal_prefund = some commit;
  change_satoshis = 0;
}

abbrev parent : AncestorPackage
parent = record { size = 400; fees = 1000 }

relay_reached : reaches_relay_minimum 546 build_of_250 ≡ true
unfolding reaches_relay_minimum fee_for_vsize
relay_reached = refl

not_excessive : refuse_excessive_fee 546 build_of_250 ≡ ok tt
unfolding refuse_excessive_fee fee_for_vsize
not_excessive = refl

-- The parent's shortfall of 7000 is lifted, and the rest is change.
abbrev settled_build : Build
settled_build = record build_of_250 {
  estimated_fee = 12000;
  commit_ancestor_size = 400;
  commit_ancestor_fee = 1000;
  output_satoshis = 63000;
  change_satoshis = 25000;
  reveal_prefund =
      some (record { reveal_fee = 6000; reveal_size = 300; commit_value = 7000; envelope = none });
}

settles : settle_fees 546 10000000 (some parent) build_of_250 ≡ ok settled_build
unfolding settle_fees refuse_insufficient_relay_fee refuse_excessive_fee uplift_for_ancestors
    floor_estimated_fee prefund_reveal_package compute_change reaches_relay_minimum
    uplift_ancestor_fee prefund_commit apply_reveal_prefund package_fee_uplift_satoshis
    fee_for_vsize
settles = refl

settle_fees-balanced_example :
    (settled_build.input_satoshis ≡ 100000)
    × (settled_build.input_satoshis
        ≡ settled_build.output_satoshis + settled_build.estimated_fee
          + settled_build.change_satoshis)
    × (max 5000 (546 + 0) ≤ settled_build.estimated_fee)
    × (60000 ≤ settled_build.output_satoshis)
    × ((settled_build.change_satoshis ≤ 546) ⊎ (◌≡◌ {A = Bool} true true))
settle_fees-balanced_example =
    settle_fees-balanced 546 10000000 (some parent) build_of_250 settled_build refl settles

settle_fees-funded_example :
    (after : Build) × (settle_fees 546 10000000 (some parent) build_of_250 ≡ ok after)
    × (after.input_satoshis ≡ after.output_satoshis + after.estimated_fee + after.change_satoshis)
settle_fees-funded_example =
    settle_fees-funded 546 10000000 (some parent) build_of_250 refl refl relay_reached not_excessive
      (omega arith)

-- A commit of 10000 swept to a 22-byte script at 10 base units per byte, on a chain whose floor is
-- 82 bytes.
abbrev destination : Option (Option Bytes)
destination = some (some (replicate 22 9))

abbrev cancel_bytes : ℕ
cancel_bytes = cancel_vsize (estimate_output_size_for_address destination) (some 82)

size_cancel_sweep-exact_example :
    ((◌≡◌ {A = Bool} true true → fee_for_vsize cancel_bytes 1000 ≤ fee_for_vsize cancel_bytes 10000)
      × (max 546 (fee_for_vsize cancel_bytes 10000)
            + pad_value 546
                (below_floor (51 + estimate_output_size_for_address destination) (some 82))
            + 546
          ≤ 10000))
    ↔ ((sweep : Sweep) × (size_cancel_sweep 546 (some 82) destination 10000 10000 1000 true
          ≡ ok sweep)
        × (sweep.cancel_fee ≡ max 546 (fee_for_vsize cancel_bytes 10000))
        × (546 ≤ sweep.sweep_value)
        × (10000
            ≡ sweep.sweep_value
              + sweep.cancel_fee
              + pad_value 546
                  (below_floor (51 + estimate_output_size_for_address destination) (some 82))))
size_cancel_sweep-exact_example =
    size_cancel_sweep-exact 546 (some 82) destination 10000 10000 1000 true
