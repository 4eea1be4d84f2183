-- ===== src/Compression/Kept.antt =====
-- What a reader makes of the payloads that src/build/compression.js lets through.
use xchain_encoder.Base.{
  ℕ, ◌*◌, ◌≤◌, ◌<◌, ◌≡◌, refl, ◌∙◌, subst, ◌⊎◌, inl, inr, Bool, true, false, Option, none, some, [],
  ◌∷◌, arith, ltb, leb, if◌then◌else◌, Bool-cases, Option-cases, length,
}
use xchain_encoder.Failures.{Failure, Result, ok, throw}
use xchain_encoder.Payload.Slices.{Bytes}
use xchain_encoder.Compression.Fields.{
  Text, is_empty, is_file_v0_action, is_gated_file_action, compression_field_of,
  with_compression_field,
}
use xchain_encoder.Compression.Payloads.{
  Packed, unchanged, guard_compressible, keep_if_smaller, compression_code_deflate_raw,
  compress_payload_for_action,
}
use xchain_encoder.Compression.Marker.{with_compression_field-read}

-- The payload rides as it came.
pub record IsRaw (action : Option Text) (raw : Option Bytes) (packed : Packed) : Type 0 where
  pub flag : packed.compressed ≡ false
  pub same_data : packed.data_out ≡ action
  pub same_raw : packed.raw_data ≡ raw

-- The payload rides as deflate answered, under a marker.
pub record IsCompressed (answer : Option Bytes) (max_ratio : ℕ) (action : Option Text) (raw : Bytes)
    (packed : Packed) : Type 0 where
  pub text : Text
  pub stored : Bytes
  pub of_action : action ≡ some text
  pub deflated : answer ≡ some stored
  pub flag : packed.compressed ≡ true
  pub marked_data :
      packed.data_out ≡ some (with_compression_field text compression_code_deflate_raw)
  pub stored_data : packed.raw_data ≡ some stored
  pub smaller : length stored < length raw
  pub ratio : length raw ≤ max_ratio * length stored

pub guard_compressible-none :
    (action : Option Text) (raw : Bytes) (max_input_bytes : ℕ)
    → guard_compressible action raw max_input_bytes ≡ none
    → (is_file_v0_action action ≡ true)
      × (is_gated_file_action action ≡ false)
      × (is_empty (compression_field_of action) ≡ true)
      × (length raw ≤ max_input_bytes)
unfolding guard_compressible
guard_compressible-none action raw max_input_bytes h = ground arith

keep_if_smaller-cases :
    (max_ratio : ℕ) (action : Option Text) (raw : Bytes) (answer : Option Bytes)
    → let packed = keep_if_smaller max_ratio action raw answer in
      IsRaw action (some raw) packed ⊎ IsCompressed answer max_ratio action raw packed
unfolding keep_if_smaller
keep_if_smaller-cases max_ratio action raw none =
    inl (record { flag = refl; same_data = refl; same_raw = refl })
keep_if_smaller-cases max_ratio none raw (some stored) =
    inl (record { flag = refl; same_data = refl; same_raw = refl })
keep_if_smaller-cases max_ratio (some text) raw (some stored) =
    elim (Bool-cases (leb (length raw) (length stored))) [
      | inl e ↦ inl (record { flag = rw e refl; same_data = rw e refl; same_raw = rw e refl })
      | inr e ↦ elim (Bool-cases (ltb (max_ratio * length stored) (length raw))) [
        | inl f ↦ inl (record {
          flag = rw (e, f) refl;
          same_data = rw (e, f) refl;
          same_raw = rw (e, f) refl;
        })
        | inr f ↦ inr (record {
          text = text;
          stored = stored;
          of_action = refl;
          deflated = refl;
          flag = rw (e, f) refl;
          marked_data = rw (e, f) refl;
          stored_data = rw (e, f) refl;
          smaller = ground arith;
          ratio = ground arith;
        })
      ]
    ]

-- What a reader of the transaction can do with a compressed payload.
pub record IsReadable (inflate : Bytes → Option Bytes) (max_ratio : ℕ) (action : Option Text)
    (raw : Option Bytes) (packed : Packed) : Type 0 where
  pub text : Text
  pub marked : Text
  pub payload : Bytes
  pub stored : Bytes
  pub of_action : action ≡ some text
  pub of_raw : raw ≡ some payload
  pub flag : packed.compressed ≡ true
  pub marked_data : packed.data_out ≡ some marked
  pub stored_data : packed.raw_data ≡ some stored
  pub inflates : inflate stored ≡ some payload
  pub smaller : length stored < length payload
  pub ratio : length payload ≤ max_ratio * length stored
  pub file : is_file_v0_action (some marked) ≡ true
  pub no_gate : is_gated_file_action (some marked) ≡ false
  pub codec : compression_field_of (some marked) ≡ compression_code_deflate_raw
  pub unmarked : with_compression_field marked [] ≡ with_compression_field text []

readable_lem :
    (deflate inflate : Bytes → Option Bytes) (max_ratio : ℕ) (action : Option Text) (raw : Bytes)
    (packed : Packed)
    → ((payload stored : Bytes) → deflate payload ≡ some stored → inflate stored ≡ some payload)
    → is_file_v0_action action ≡ true
    → is_gated_file_action action ≡ false
    → IsCompressed (deflate raw) max_ratio action raw packed
    → IsReadable inflate max_ratio action (some raw) packed
readable_lem deflate inflate max_ratio action raw packed library file gate c =
    let (still, codec, same_gate, again) =
      with_compression_field-read (c.text) compression_code_deflate_raw (omega arith, tt)
        (subst (λ a. is_file_v0_action a ≡ true) (c.of_action) file) in
    record {
      text = c.text;
      marked = with_compression_field (c.text) compression_code_deflate_raw;
      payload = raw;
      stored = c.stored;
      of_action = c.of_action;
      of_raw = refl;
      flag = c.flag;
      marked_data = c.marked_data;
      stored_data = c.stored_data;
      inflates = library raw (c.stored) (c.deflated);
      smaller = c.smaller;
      ratio = c.ratio;
      file = still;
      no_gate = same_gate ∙ subst (λ a. is_gated_file_action a ≡ false) (c.of_action) gate;
      codec = codec;
      unmarked = again [];
    }

refused_lem :
    (explicit : Bool) (failure : Failure) (result : Packed) (packed : Packed)
    → ◌≡◌ {A = Result Packed} (if explicit then throw failure else ok result) (ok packed)
    → result ≡ packed
refused_lem true failure result packed h = absurd (ground arith)
refused_lem false failure result packed h = ground arith

-- A payload that compression lets through is either untouched, or compressed, and then a reader can
-- undo it: where inflating gives back what was deflated, the stored bytes inflate to the payload,
-- they are fewer than its bytes and within the ratio, and the ACTION that goes with them is a FILE
-- v0 without a gate that reads as raw deflate, and is the caller's once the marker is taken off
-- both.
pub compress_payload_for_action-IsReadable :
    (deflate inflate : Bytes → Option Bytes) (max_ratio max_input_bytes : ℕ) (explicit : Bool)
    (action : Option Text) (raw : Option Bytes) (packed : Packed)
    → ((payload stored : Bytes) → deflate payload ≡ some stored → inflate stored ≡ some payload)
    → compress_payload_for_action deflate max_ratio max_input_bytes explicit action raw ≡ ok packed
    → IsRaw action raw packed ⊎ IsReadable inflate max_ratio action raw packed
unfolding compress_payload_for_action
compress_payload_for_action-IsReadable deflate inflate max_ratio max_input_bytes explicit action
      none packed library h =
    inl (record { flag = ground arith; same_data = ground arith; same_raw = ground arith })
compress_payload_for_action-IsReadable deflate inflate max_ratio max_input_bytes explicit action
      (some []) packed library h =
    inl (record { flag = ground arith; same_data = ground arith; same_raw = ground arith })
compress_payload_for_action-IsReadable deflate inflate max_ratio max_input_bytes explicit action
      (some (b ∷ bs)) packed library h =
    elim (Option-cases (guard_compressible action (b ∷ bs) max_input_bytes)) [
      | inr (refusal, e) ↦ inl (
          subst (IsRaw action (some (b ∷ bs)))
            (refused_lem explicit (refusal.0) (unchanged action (some (b ∷ bs)) (refusal.1)) packed
              (rw (e, compress_payload_for_action) at h))
            (record { flag = refl; same_data = refl; same_raw = refl }))
      | inl e ↦
          let is_kept : keep_if_smaller max_ratio action (b ∷ bs) (deflate (b ∷ bs)) ≡ packed =
            ground (arith, e) in
          let (file, gate, _, _) = guard_compressible-none action (b ∷ bs) max_input_bytes e in
          elim (keep_if_smaller-cases max_ratio action (b ∷ bs) (deflate (b ∷ bs))) [
            | inl r ↦ inl (subst (IsRaw action (some (b ∷ bs))) is_kept r)
            | inr c ↦ inr (
                subst (IsReadable inflate max_ratio action (some (b ∷ bs))) is_kept
                  (readable_lem deflate inflate max_ratio action (b ∷ bs) _ library file gate c))
          ]
    ]
