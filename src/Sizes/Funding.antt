-- ===== src/Sizes/Funding.antt =====
-- The legs of a reveal against the whole reveal: the outputs of the first transaction carry one
-- per-chunk estimate each, and the second transaction spends them together.
use xchain_encoder.Base.{
  ℕ, ◌+◌, ◌*◌, ◌≤◌, ◌≡◌, Option, none, some, List, [], ◌∷◌, map, arith, length,
}
use xchain_encoder.Payload.Slices.{Bytes}
use xchain_encoder.Sizes.Framing.{compact_size_len}
use xchain_encoder.Sizes.Estimator.{
  estimate_p2sh_input_with_redeem, estimate_op_return_output, floored,
}
use xchain_encoder.Sizes.Reveals.{
  p2sh_marker, p2wsh_marker, estimate_spending_p2sh_tx, p2sh_inputs_loop, estimate_p2sh_reveal_tx,
  padded, estimate_spending_p2wsh_tx, p2wsh_witness_loop, estimate_p2wsh_reveal_tx,
}

abbrev pub total : List ℕ → ℕ
total [] = 0
total (n ∷ ns) = n + total ns

-- What a leg carries besides its input: the header of a transaction and the marker.
abbrev pub p2sh_frame : ℕ
p2sh_frame = 10 + estimate_op_return_output p2sh_marker

p2sh_inputs_lem :
    (n : ℕ) (ds : List Bytes)
    → p2sh_inputs_loop n ds + length ds * p2sh_frame ≡ n + total (map estimate_spending_p2sh_tx ds)
unfolding p2sh_inputs_loop estimate_spending_p2sh_tx
p2sh_inputs_lem n [] = omega arith
p2sh_inputs_lem n (d ∷ ds) =
    omega (arith, p2sh_inputs_lem (n + estimate_p2sh_input_with_redeem d + 8) ds)

-- The P2SH legs of any number of chunks, plus one frame (the header and the marker output), carry
-- exactly the whole reveal without further outputs plus one frame for each chunk: the legs of one
-- chunk are the reveal to the byte, and every further chunk leaves one frame over.
estimate_spending_p2sh_tx-total :
    (ds : List Bytes)
    → total (map estimate_spending_p2sh_tx ds) + p2sh_frame
      ≡ estimate_p2sh_reveal_tx ds 0 + length ds * p2sh_frame
unfolding estimate_p2sh_reveal_tx
estimate_spending_p2sh_tx-total ds = omega (arith, p2sh_inputs_lem 0 ds)

-- The witness of one chunk's input, and the bytes a leg carries besides it.
abbrev witness_size : Bytes → ℕ
witness_size d = 1 + (1 + 72) + (1 + 33) + compact_size_len (length d) + length d

witness_loop_lem :
    (n : ℕ) (ds : List Bytes) → p2wsh_witness_loop n ds ≡ n + total (map witness_size ds)
unfolding p2wsh_witness_loop
witness_loop_lem n [] = omega arith
witness_loop_lem n (d ∷ ds) = omega (
  arith,
  witness_loop_lem (n + 1 + (1 + 72) + (1 + 33) + compact_size_len (length d) + length d) ds,
)

padded-floored : (floor : Option ℕ) (bytes pad : ℕ) → floored bytes floor ≤ padded bytes pad floor
padded-floored none bytes pad = omega arith
padded-floored (some floor) bytes pad = ground arith

bytes-le-padded : (floor : Option ℕ) (bytes pad : ℕ) → bytes ≤ padded bytes pad floor
bytes-le-padded none bytes pad = omega arith
bytes-le-padded (some floor) bytes pad = ground arith

floored_add : (floor : Option ℕ) (a b c : ℕ) → c ≡ a + b → floored c floor ≤ a + floored b floor
floored_add none a b c h = omega arith
floored_add (some floor) a b c h = ground arith

-- The P2WSH legs of at least one chunk carry at least the whole reveal without further outputs,
-- whatever the network's floor on stripped sizes and the pad.
estimate_spending_p2wsh_tx-covers :
    (floor : Option ℕ) (pad : ℕ) (d : Bytes) (ds : List Bytes)
    → estimate_p2wsh_reveal_tx floor (d ∷ ds) 0
      ≤ total (map (λ c. estimate_spending_p2wsh_tx floor c pad) (d ∷ ds))
unfolding estimate_p2wsh_reveal_tx estimate_spending_p2wsh_tx
estimate_spending_p2wsh_tx-covers floor pad d [] =
    let frame = 51 + estimate_op_return_output p2wsh_marker in
    omega (arith, padded-floored floor frame pad, witness_loop_lem 2 (d ∷ []))
estimate_spending_p2wsh_tx-covers floor pad d (e ∷ ds) =
    let marker = estimate_op_return_output p2wsh_marker in
    omega (
      arith,
      estimate_spending_p2wsh_tx-covers floor pad e ds,
      bytes-le-padded floor (51 + marker) pad,
      floored_add floor 41 (10 + 41 * length (e ∷ ds) + marker + 0)
          (10 + 41 * length (d ∷ e ∷ ds) + marker + 0) (omega arith),
      witness_loop_lem 2 (d ∷ e ∷ ds),
      witness_loop_lem 2 (e ∷ ds),
    )
