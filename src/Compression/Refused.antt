-- ===== src/Compression/Refused.antt =====
-- When src/build/compression.js refuses a caller's request to compress.
use xchain_encoder.Base.{
  ℕ, ◌<◌, ◌≡◌, refl, ◌≢◌, ◌↔◌, ◌⊎◌, inl, inr, Bool, true, false, Option, none, some, [], ◌∷◌, arith,
  Bool-cases, Option-cases, length,
}
use xchain_encoder.Failures.{Failure, throw}
use xchain_encoder.Payload.Slices.{Bytes}
use xchain_encoder.Compression.Fields.{
  Text, is_empty, is_file_v0_action, is_gated_file_action, compression_field_of,
}
use xchain_encoder.Compression.Kept.{guard_compressible-none}
use xchain_encoder.Compression.Payloads.{Reason, guard_compressible, compress_payload_for_action}

-- Whether a payload of that action must not be compressed.
abbrev pub IsIncompressible : Option Text → Bytes → ℕ → Type 0
IsIncompressible action raw max_input_bytes =
    (is_file_v0_action action ≡ false)
    ⊎ (is_gated_file_action action ≡ true)
    ⊎ (compression_field_of action ≢ [])
    ⊎ (max_input_bytes < length raw)

full_lem : (t : Text) → is_empty t ≡ false → t ≢ []
full_lem [] h e = absurd (ground arith)
full_lem (c ∷ cs) h e = absurd (ground arith)

nil_lem : (t : Text) → is_empty t ≡ true → t ≡ []
nil_lem [] h = refl
nil_lem (c ∷ cs) h = absurd (ground arith)

guard_compressible-some :
    (action : Option Text) (raw : Bytes) (max_input_bytes : ℕ) (refusal : Failure × Reason)
    → guard_compressible action raw max_input_bytes ≡ some refusal
    → IsIncompressible action raw max_input_bytes
unfolding guard_compressible
guard_compressible-some action raw max_input_bytes refusal h =
    elim (Bool-cases (is_file_v0_action action)) [
      | inr e ↦ inl e
      | inl file ↦ elim (Bool-cases (is_gated_file_action action)) [
        | inl e ↦ inr (inl e)
        | inr gate ↦ elim (Bool-cases (is_empty (compression_field_of action))) [
          | inr e ↦ inr (inr (inl (λ n. full_lem (compression_field_of action) e n)))
          | inl codec ↦ inr (inr (inr (ground (arith, file, gate, codec))))
        ]
      ]
    ]

incompressible_lem :
    (action : Option Text) (raw : Bytes) (max_input_bytes : ℕ)
    → IsIncompressible action raw max_input_bytes
    → ¬ (guard_compressible action raw max_input_bytes ≡ none)
incompressible_lem action raw max_input_bytes h e =
    let (file, gate, codec, cap) = guard_compressible-none action raw max_input_bytes e in
    elim h [
      | inl n ↦ absurd (ground arith)
      | inr (inl n) ↦ absurd (ground arith)
      | inr (inr (inl n)) ↦ n (nil_lem (compression_field_of action) codec)
      | inr (inr (inr n)) ↦ absurd (omega (arith, n, cap))
    ]

-- A payload with bytes is refused exactly if the caller asked for compression and the ACTION is no
-- FILE v0, is gated, already declares a codec, or the payload is over the input cap. In every
-- other case the call returns.
pub compress_payload_for_action-refuses :
    (deflate : Bytes → Option Bytes) (max_ratio max_input_bytes : ℕ) (explicit : Bool)
    (action : Option Text) (b : ℕ) (bs : Bytes)
    → ((failure : Failure) × (compress_payload_for_action deflate max_ratio max_input_bytes explicit
            action
            (some (b ∷ bs))
          ≡ throw failure))
      ↔ ((explicit ≡ true) × IsIncompressible action (b ∷ bs) max_input_bytes)
unfolding compress_payload_for_action
compress_payload_for_action-refuses deflate max_ratio max_input_bytes explicit action b bs =
    elim (Option-cases (guard_compressible action (b ∷ bs) max_input_bytes)) [
      | inl e ↦ (
        (λ (failure, h). absurd (ground (arith, e))),
        λ (_, h). absurd (incompressible_lem action (b ∷ bs) max_input_bytes h e),
      )
      | inr ((failure, reason), e) ↦ (
        (λ (_, h).
            (ground (arith, e), guard_compressible-some action (b ∷ bs) max_input_bytes _ e)),
        λ (asked, h). (failure, ground (arith, e)),
      )
    ]
