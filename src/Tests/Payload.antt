-- ===== src/Tests/Payload.antt =====
-- src/XChainEncoder/payload_encodings.js on small payloads.
use xchain_encoder.Base.{
  ℕ, zero, suc, ◌<◌, ◌≡◌, refl, ◌≢◌, true, some, List, [], ◌∷◌, ◌++◌, map, arith, length, take,
  drop, replicate, concat, All,
}
use xchain_encoder.Failures.{ok, throw, param_range}
use xchain_encoder.Payload.Slices.{Bytes, slice_script_hash_chunks}
use xchain_encoder.Payload.Rejoin.{IsPush, slice_script_hash_chunks-pushes}
use xchain_encoder.Payload.Carriers.{
  p2wsh, ScriptElement, magic_word, op_return_payload, script_hash_payload, envelope_payload,
  multisign_payload,
}
use xchain_encoder.Payload.Multisign.{IsSlot, strip_magic, multisign_payload-slots}
use xchain_encoder.Payload.Reading.{
  IsByte, leading_push, read_envelope, script_hash_payload-read, envelope_payload-read,
}

-- Ends in a byte that alone would compile to OP_7.
abbrev seven : Bytes
seven = 1 ∷ 2 ∷ 3 ∷ 4 ∷ 5 ∷ 6 ∷ 7 ∷ []

slices_of_seven :
    slice_script_hash_chunks seven 3 ≡ (1 ∷ 2 ∷ 3 ∷ []) ∷ (4 ∷ 5 ∷ []) ∷ (6 ∷ 7 ∷ []) ∷ []
unfolding slice_script_hash_chunks
slices_of_seven = refl

op_return_of_77 : op_return_payload (replicate 77 65) magic_word ≡ throw param_range
unfolding op_return_payload
op_return_of_77 = refl

multisign_of_seven :
    multisign_payload seven magic_word ≡ (magic_word ++ (seven ++ replicate 53 0)) ∷ []
unfolding multisign_payload
multisign_of_seven = refl

slice_script_hash_chunks-pushes_example :
    (concat (slice_script_hash_chunks seven 3) ≡ seven)
    × (length seven ≢ 1 → All (IsPush 3) (slice_script_hash_chunks seven 3))
slice_script_hash_chunks-pushes_example = slice_script_hash_chunks-pushes seven 3 (omega arith)

multisign_payload-slots_example :
    All IsSlot (multisign_payload seven magic_word)
    × ((pad : ℕ) × (pad < 60)
        × (concat (map strip_magic (multisign_payload seven magic_word))
            ≡ seven ++ replicate pad 0))
    × (take 7 (concat (map strip_magic (multisign_payload seven magic_word))) ≡ seven)
multisign_payload-slots_example = multisign_payload-slots seven

abbrev key : Bytes
key = 2 ∷ replicate 32 7

replicate_bytes : (n b : ℕ) → IsByte b → All IsByte (replicate n b)
replicate_bytes zero b h = tt
replicate_bytes (suc n) b h = (h, replicate_bytes n b h)

-- A compiler that keeps the elements as they are.
abbrev kept : List ScriptElement → List ScriptElement
kept es = es

seven_bytes : All IsByte seven
seven_bytes = (
  omega arith,
  (omega arith, (omega arith, (omega arith, (omega arith, (omega arith, (omega arith, tt)))))),
)

hash_bytes : All IsByte (replicate 20 9)
hash_bytes = replicate_bytes 20 9 (omega arith)

key_bytes : All IsByte key
key_bytes = (omega arith, replicate_bytes 32 7 (omega arith))

script_hash_payload-read_example :
    (ss : List (List ScriptElement)) × (script_hash_payload kept seven p2wsh (ok (replicate 20 9))
      ≡ ok ss)
    × (concat (map (λ s. leading_push (kept s)) ss) ≡ seven)
script_hash_payload-read_example =
    script_hash_payload-read kept kept (λ es h. refl) seven p2wsh (replicate 20 9) (omega arith)
      (omega arith) seven_bytes hash_bytes

envelope_payload-read_example :
    (s : List ScriptElement) × (envelope_payload kept seven (some key) (λ _. true) magic_word
      ≡ ok (s, drop 1 key))
    × (read_envelope (kept s) ≡ some (magic_word, 0 ∷ [], seven))
envelope_payload-read_example =
    envelope_payload-read kept kept (λ es h. refl) seven key (λ _. true) (omega arith) (omega arith)
      refl seven_bytes key_bytes
