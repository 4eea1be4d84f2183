-- ===== src/Reveal/Matched.antt =====
-- The legs that the chunks of src/XChainEncoder/build_transaction/script_hash_legs.js need, the inputs
-- that spend them, and lemmas on comparing and on indexing.
use xchain_encoder.Base.{
  ℕ, zero, suc, ◌+◌, ◌≡◌, refl, true, none, some, List, [], ◌∷◌, arith, get_elem?, drop,
}
use xchain_encoder.Payload.Slices.{Bytes}
use xchain_encoder.Payload.Carriers.{Encoding, p2sh, p2wsh}
use xchain_encoder.Sizes.Estimator.{bytes_eq}
use xchain_encoder.Sizes.Reveals.{TxOut, p2sh_marker, p2wsh_marker}
use xchain_encoder.Emission.Plan.{Library}
use xchain_encoder.Reveal.Legs.{Request, LegInput}

-- The script that a leg needs for a chunk.
abbrev pub leg_script : Library → Encoding → Bytes → Bytes
leg_script library p2sh chunk = library.p2sh_output chunk
leg_script library _ chunk = library.p2wsh_output chunk

abbrev pub marker_of : Encoding → Bytes
marker_of p2sh = p2sh_marker
marker_of _ = p2wsh_marker

abbrev pub IsTwoPhase : Encoding → Type 0
IsTwoPhase p2sh = Unit
IsTwoPhase p2wsh = Unit
IsTwoPhase _ = ⊥

-- The chunks' legs, as they stand in the funding transaction from its first output on.
abbrev pub IsFunded : Library → Encoding → List Bytes → List TxOut → Type 0
IsFunded library encoding [] legs = Unit
IsFunded library encoding (chunk ∷ chunks) [] = ⊥
IsFunded library encoding (chunk ∷ chunks) (leg ∷ legs) =
    (leg.script ≡ leg_script library encoding chunk) × IsFunded library encoding chunks legs

-- The inputs that spend the legs from one index on.
unfoldable pub leg_inputs_from : Request → ℕ → List Bytes → List TxOut → List LegInput
leg_inputs_from request vout [] legs = []
leg_inputs_from request vout (chunk ∷ chunks) [] = []
leg_inputs_from request vout (chunk ∷ chunks) (leg ∷ legs) =
    record {
      hash = request.p2sh_hash;
      vout = vout;
      sequence = request.utxo_sequence;
      script = chunk;
      value = leg.value;
    }
    ∷ leg_inputs_from request (vout + 1) chunks legs

pub bytes_eq-eq : (xs ys : Bytes) → bytes_eq xs ys ≡ true → xs ≡ ys
unfolding bytes_eq
bytes_eq-eq [] [] h = refl
bytes_eq-eq [] (y ∷ ys) h = cc
bytes_eq-eq (x ∷ xs) [] h = cc
bytes_eq-eq (x ∷ xs) (y ∷ ys) h =
    let e = bytes_eq-eq xs ys (ground arith) in let d : x ≡ y = ground arith in cc

pub bytes_eq_refl : (xs : Bytes) → bytes_eq xs xs ≡ true
unfolding bytes_eq
bytes_eq_refl [] = refl
bytes_eq_refl (x ∷ xs) = ground (arith, bytes_eq_refl xs)

pub drop-get_elem? : (n : ℕ) (xs : List TxOut) → drop n xs ≡ [] → get_elem? xs n ≡ none
drop-get_elem? n [] h = refl
drop-get_elem? zero (x ∷ xs) h = cc
drop-get_elem? (suc n) (x ∷ xs) h = drop-get_elem? n xs h

pub drop-get_elem?_cons :
    (n : ℕ) (xs rest : List TxOut) (y : TxOut)
    → drop n xs ≡ y ∷ rest
    → (get_elem? xs n ≡ some y) × (drop (suc n) xs ≡ rest)
drop-get_elem?_cons zero [] rest y h = absurd (ground arith)
drop-get_elem?_cons (suc n) [] rest y h = absurd (ground arith)
drop-get_elem?_cons zero (x ∷ xs) rest y h = (cc, cc)
drop-get_elem?_cons (suc n) (x ∷ xs) rest y h = drop-get_elem?_cons n xs rest y h
