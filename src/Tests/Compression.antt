-- ===== src/Tests/Compression.antt =====
-- src/build/compression.js on one FILE, with a toy compressor that drops a leading zero.
use xchain_encoder.Base.{
  zero, suc, ◌≡◌, refl, ◌↔◌, ◌⊎◌, Bool, true, Option, none, some, [], ◌∷◌, ◌++◌, arith, replicate,
}
use xchain_encoder.Failures.{Failure, ok, throw}
use xchain_encoder.Payload.Slices.{Bytes}
use xchain_encoder.Compression.Fields.{
  Text, split, join, to_upper_case, text_eq, pad_fields, strip_fields, set_field, is_file_v0_action,
  is_gated_file_action, compression_field_of, with_compression_field,
}
use xchain_encoder.Compression.Payloads.{
  Packed, guard_compressible, keep_if_smaller, compression_code_deflate_raw,
  compress_payload_for_action,
}
use xchain_encoder.Compression.Marker.{with_compression_field-read}
use xchain_encoder.Compression.Kept.{IsRaw, IsReadable, compress_payload_for_action-IsReadable}
use xchain_encoder.Compression.Refused.{IsIncompressible, compress_payload_for_action-refuses}

-- file|0|A, in the lower case that the source accepts.
abbrev action : Text
action = 102 ∷ 105 ∷ 108 ∷ 101 ∷ 124 ∷ 48 ∷ 124 ∷ 65 ∷ []

action_is_file : is_file_v0_action (some action) ≡ true
unfolding is_file_v0_action split to_upper_case text_eq
action_is_file = refl

-- file|0|A||||||||1.
action_marked :
    with_compression_field action compression_code_deflate_raw
    ≡ action ++ replicate 8 124 ++ 49 ∷ []
unfolding with_compression_field set_field split join pad_fields strip_fields
action_marked = refl

with_compression_field-read_example :
    (is_file_v0_action (some (with_compression_field action compression_code_deflate_raw)) ≡ true)
    × (compression_field_of (some (with_compression_field action compression_code_deflate_raw))
        ≡ compression_code_deflate_raw)
    × (is_gated_file_action (some (with_compression_field action compression_code_deflate_raw))
        ≡ is_gated_file_action (some action))
    × ((next : Text)
        → with_compression_field (with_compression_field action compression_code_deflate_raw) next
          ≡ with_compression_field action next)
with_compression_field-read_example =
    with_compression_field-read action compression_code_deflate_raw (omega arith, tt) action_is_file

abbrev drop_zero : Bytes → Option Bytes
drop_zero [] = none
drop_zero (zero ∷ bs) = some bs
drop_zero (suc b ∷ bs) = none

abbrev add_zero : Bytes → Option Bytes
add_zero bs = some (0 ∷ bs)

drop_zero_inverse :
    (payload stored : Bytes) → drop_zero payload ≡ some stored → add_zero stored ≡ some payload
drop_zero_inverse [] stored h = absurd (ground arith)
drop_zero_inverse (zero ∷ bs) stored h = ground arith
drop_zero_inverse (suc b ∷ bs) stored h = absurd (ground arith)

abbrev kept : Packed
kept = record {
  data_out = some (with_compression_field action compression_code_deflate_raw);
  raw_data = some (5 ∷ []);
  compressed = true;
  raw_length = 2;
  stored_length = 1;
  reason = none;
}

action_kept :
    compress_payload_for_action drop_zero 150 1000 true (some action) (some (0 ∷ 5 ∷ [])) ≡ ok kept
unfolding compress_payload_for_action guard_compressible keep_if_smaller is_file_v0_action
    is_gated_file_action compression_field_of split to_upper_case text_eq
action_kept = refl

compress_payload_for_action-IsReadable_example :
    IsRaw (some action) (some (0 ∷ 5 ∷ [])) kept
    ⊎ IsReadable add_zero 150 (some action) (some (0 ∷ 5 ∷ [])) kept
compress_payload_for_action-IsReadable_example =
    compress_payload_for_action-IsReadable drop_zero add_zero 150 1000 true (some action)
      (some (0 ∷ 5 ∷ [])) kept drop_zero_inverse action_kept

compress_payload_for_action-refuses_example :
    ((failure : Failure) × (compress_payload_for_action drop_zero 150 1 true
          (some action)
          (some (0 ∷ 5 ∷ []))
        ≡ throw failure))
    ↔ ((◌≡◌ {A = Bool} true true) × IsIncompressible (some action) (0 ∷ 5 ∷ []) 1)
compress_payload_for_action-refuses_example =
    compress_payload_for_action-refuses drop_zero 150 1 true (some action) 0 (5 ∷ [])
