-- ===== src/Compression/Payloads.antt =====
-- `guardCompressible` and `compressPayloadForAction` of src/build/compression.js.
use xchain_encoder.Base.{
  ℕ, ◌*◌, Bool, true, false, not, Option, none, some, [], ◌∷◌, ltb, leb, if◌then◌else◌, length,
}
use xchain_encoder.Failures.{Failure, Result, ok, throw, param_type, param_range}
use xchain_encoder.Payload.Slices.{Bytes}
use xchain_encoder.Compression.Fields.{
  Text, is_empty, is_file_v0_action, is_gated_file_action, compression_field_of,
  with_compression_field,
}

pub data Reason : Type 0 where
  no_payload not_a_file_action gated_file codec_already_declared : Reason
  over_input_cap deflate_failed not_smaller ratio_guard : Reason

-- What the transaction carries; the lengths are those of the payload before and after.
pub record Packed : Type 0 where
  pub data_out : Option Text
  pub raw_data : Option Bytes
  pub compressed : Bool
  pub raw_length : ℕ
  pub stored_length : ℕ
  pub reason : Option Reason

abbrev pub compression_code_deflate_raw : Text
compression_code_deflate_raw = 49 ∷ []

-- The first condition that holds, with the class that it throws.
unfoldable pub guard_compressible : Option Text → Bytes → ℕ → Option (Failure × Reason)
unfolding is_file_v0_action is_gated_file_action compression_field_of
guard_compressible action raw max_input_bytes =
    if not (is_file_v0_action action)
    then some (param_type, not_a_file_action)
    else if is_gated_file_action action
    then some (param_type, gated_file)
    else if not (is_empty (compression_field_of action))
    then some (param_type, codec_already_declared)
    else if ltb max_input_bytes (length raw)
    then some (param_range, over_input_cap)
    else none

abbrev pub length_of : Option Bytes → ℕ
length_of none = 0
length_of (some raw) = length raw

abbrev pub unchanged : Option Text → Option Bytes → Reason → Packed
unchanged action raw reason = record {
  data_out = action;
  raw_data = raw;
  compressed = false;
  raw_length = length_of raw;
  stored_length = length_of raw;
  reason = some reason;
}

-- The compressed payload with its marker, where it is smaller and within the ratio.
unfoldable pub keep_if_smaller : ℕ → Option Text → Bytes → Option Bytes → Packed
unfolding with_compression_field
keep_if_smaller max_ratio action raw none = unchanged action (some raw) deflate_failed
keep_if_smaller max_ratio none raw (some deflated) = unchanged none (some raw) not_a_file_action
keep_if_smaller max_ratio (some action) raw (some deflated) =
    if leb (length raw) (length deflated)
    then unchanged (some action) (some raw) not_smaller
    else if ltb (max_ratio * length deflated) (length raw)
    then unchanged (some action) (some raw) ratio_guard
    else record {
      data_out = some (with_compression_field action compression_code_deflate_raw);
      raw_data = some deflated;
      compressed = true;
      raw_length = length raw;
      stored_length = length deflated;
      reason = none;
    }

-- `explicit` is whether the caller asked for it.
unfoldable pub compress_payload_for_action :
    (Bytes → Option Bytes) → ℕ → ℕ → Bool → Option Text → Option Bytes → Result Packed
unfolding guard_compressible keep_if_smaller
compress_payload_for_action deflate max_ratio max_input_bytes explicit action none =
    ok (unchanged action none no_payload)
compress_payload_for_action deflate max_ratio max_input_bytes explicit action (some []) =
    ok (unchanged action (some []) no_payload)
compress_payload_for_action deflate max_ratio max_input_bytes explicit action (some (b ∷ bs)) =
    elim (guard_compressible action (b ∷ bs) max_input_bytes) [
      | some (failure, reason) ↦
          if explicit then throw failure else ok (unchanged action (some (b ∷ bs)) reason)
      | none ↦ ok (keep_if_smaller max_ratio action (b ∷ bs) (deflate (b ∷ bs)))
    ]
