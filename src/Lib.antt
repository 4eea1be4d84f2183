-- ===== src/Lib.antt =====
-- The XChain encoder turns an ACTION stream into Bitcoin-family transactions: it lays the stream out
-- over outputs, prices the transactions that carry it, selects and reserves the inputs, and settles
-- the fee and the change. This library models its deterministic core and proves what makes it correct.
--
-- How the program is put together. `buildSteps` in src/XChainEncoder.js runs a build as a sequence
-- of steps over one record. The payload is cut and framed (payload_encodings.js), each output is
-- sized (size_estimation.js, tx_size_estimator.js), inputs are claimed against the claims of other
-- builds (outpoint_reservations.js), and fee and change are settled (fee_settlement.js on
-- fee_policy.js). A second call that is given the first transaction builds the reveal, which spends
-- its data outputs and sweeps what they hold beyond the fee (script_hash_legs.js,
-- reveal_outputs.js). The validators check what callers send (src/common/validator). The HTTP
-- service in front sheds load through a gate (concurrency_gate.js), and one process of a host holds
-- the instance lock (single_instance_guard.js). Paths below are from the repository's root.
--
-- The files and what they model:
-- Base: names every module shares, Boolean tests on native numbers, lists measured by them, maps
--   from strings as functions (a key that is absent has `none`).
-- Failures: src/build/errors.js, and `Result`, the outcome of code that throws. Messages are left
--   out.
-- Payload: src/XChainEncoder/payload_encodings.js and `prepareData` of payload_preparation.js
--   beside it. Slices has `sliceScriptHashChunks` and `sliceEnvelopeChunks` with
--   `isMinimalOpSingleByte` of src/common/validator/action_data_checks.js; SliceLoop, Rebalance and
--   Rejoin hold their lemmas. Carriers has the five layouts and the dispatch, Multisign and Reading
--   read them back. A byte is a number. A script is its list of elements; bitcoin.script.compile is
--   a parameter that takes elements to what it compiles, and where a theorem reads a compiled
--   script its hypothesis is the documented behaviour that scripts keep pushes of 1 to 520 bytes
--   which are no minimal opcode, and opcodes that are OP_0 or lie from OP_NOP on.
-- Reservations: src/XChainEncoder/outpoint_reservations.js (State, Operations, Tickets), the commit
--   claim of envelope_cancel.js (Cancel) and the claims of build_transaction/first_input_key.js
--   (Exact for named inputs, FirstFree for the first free one and the obfuscation key). A method
--   takes the four maps and returns them; the clock, the random ids and the transaction hash are
--   arguments. Exclusion and Guard have the step relation of builds interleaving over one encoder;
--   Release, Mint, SingleUse and Duplicates the other results. Leases states what the reservations
--   promise, leases that no sweep touches, and Views refines them.
-- Gate: src/server/concurrency_gate.js. Machine has the counters, the slots and one function for
--   each closure; a run is a list of events. Accounting and Holding have the invariants.
-- Sizes: Framing has the push sizes and the compactSize varint; Estimator
--   src/build/tx_size_estimator.js; Reveals src/XChainEncoder/size_estimation.js; Wire the wire
--   format, written without them; Funding compares the legs with the whole reveal; Choice is about
--   `selectEncoding`; Floor is src/XChainEncoder/build_transaction/stripped_floor.js and Relay its
--   theorem. bitcoinjs-lib's decoders (p2ms, HASH160, the outputs of a transaction) are parameters.
-- Fees: Policy is src/XChainEncoder/fee_policy.js, Settlement the steps of
--   src/XChainEncoder/build_transaction/fee_settlement.js in the order of `buildSteps`; Ceilings,
--   Balance and Change have their theorems; Rates is
--   src/XChainEncoder/build_transaction/fee_rates.js and Bounds its theorem; Cancel is the fee and
--   the sweep of an envelope cancel (envelope_cancel.js). The source holds a rate as a double in
--   coin per byte; the model holds the same rate in whole base units per kilobyte, the case that
--   `feeForVsize` computes exactly in BigInt, so products and ceilings are exact and the epsilon
--   that absorbs the doubles' error has nothing to absorb.
-- Inputs: src/XChainEncoder/build_transaction/input_candidates.js from the exact-input checks on. A
--   candidate carries its outpoint key and the code units of its lower-case txid; `sort` is a
--   stable insertion sort by `compareCandidates`. Filter and Order have the theorems.
-- Selection: the selection of inputs, src/XChainEncoder/build_transaction/input_selection.js. State
--   has the order (what the build has settled before), the state that the loop writes, and a World:
--   what bitcoinjs-lib and the node compute and what other builds do to the shared maps while one
--   waits for the node. Skipping, Adding and Loop have the loop, Scripts the kinds of inputs
--   (nested_segwit.js and legacy_p2sh.js beside it), Checks the steps round it. Rounds and Sound
--   have the lemmas of the loop, Covered what it promises, and Settled what the fee settlement
--   makes of it.
-- Compression: src/build/compression.js. Fields has the fields of an ACTION string, a list of
--   UTF-16 code units, Payloads the guards and the choice, with zlib's deflate a parameter; Parts,
--   Trimming and Marker have the lemmas of the marker, Kept and Refused the two outcomes. A
--   hypothesis states the documented behaviour of zlib, that inflating gives back what was
--   deflated.
-- Emission: the outputs of a build that spends no legs,
--   src/XChainEncoder/build_transaction/data_outputs.js and script_hash_legs.js beside it. Plan has
--   what is settled before, the running state, and `obfuscate` and `dataToPubkey` of
--   payload_preparation.js, with AES-CTR and bitcoinjs-lib's payment scripts in a Library of
--   parameters; Carriers, Legs and Payments have the outputs. Accounting has the running total,
--   Covering what the legs leave the reveal, and Conserved the whole build from outputs to change;
--   Change is the change output of build_transaction/reveal_outputs.js and what the miner is paid.
-- Reveal: a build that spends the legs of a commit. Legs has the inputs, `spendP2shLeg`,
--   `spendP2wshLeg` and what they check of script_hash_legs.js, and `assertRevealFundingTxMatches`
--   of request_resolution.js; Sweep the pad, the sweep and its uplift of
--   build_transaction/reveal_outputs.js, and the steps of `buildSteps` on a reveal; Envelope the
--   second transaction of a TAPROOT build. Transaction.fromHex is a parameter. Matched, Spent,
--   Inputs and Recovered are about the inputs; Paid, Kept, Swept and Funded have the lemmas on what
--   goes out, and Balanced the whole pair of commit and reveal; Enveloped is about the envelope.
-- Instance: src/server/single_instance_guard.js and src/server/stale_lock_breaker.js. Guard has the
--   next operation of one process on the lock file and the mutex, System the interleaving of any
--   number of processes with deaths, Exclusion what stays true, and Alone a start without others.
--   The mount has hard links and a process can read its own command line; a release is two
--   operations, a read and an unlink; how long a process waits for the mutex is its choice.
-- Amounts: Values has the parsing of amounts of src/common/validator/value_checks.js, u64.js of
--   src/build/apply_bufferutils_patch and the two forms of an amount in script_amount_helpers.js;
--   RoundTrip is about amounts that are handed on, Digits states the decimal digits of a number
--   apart from the parser, and Spelled is about what the parser accepts. Checks is from
--   src/common/validator/fee_and_utxo_checks.js, with `validateAddress`, and Accepted leads from
--   there to the emission.
-- Maintenance: `parseMaintenanceWindow` of src/server/maintenance_window.js, on the text of a
--   sentinel and a time. JSON.parse, Date.parse and the UTF-8 length are parameters.
-- Tests: runs on concrete inputs, and the theorems at inputs that meet their hypotheses.
--
-- Bounds and fuel. The slicing loops count down a fuel of the payload's length, which is enough
-- because each round consumes at least one byte; the theorems on slices are about the whole
-- function, so they include that the fuel suffices. Everything else is structural recursion.
-- Amounts are natural numbers of base units; where the source subtracts, the model states which
-- side is larger or compares sums.
--
-- The loop of the instance lock counts its operations on the files as fuel; a process on its own
-- needs at most eight to break a record and three to publish its own. A text of digits is read
-- exactly, and printed on a fuel of the number plus one, which is more than it has digits.
--
-- Not modelled: the checks of whole requests, the tracker and node clients, the other operational
-- guards and the coin tables, which are later parts; HTTP, logging and RPC are input and output;
-- zlib is a library, and the PSBT and the scripts are bitcoinjs-lib's.
pub mod Base
pub mod Failures
pub mod Payload
pub mod Reservations
pub mod Gate
pub mod Sizes
pub mod Fees
pub mod Inputs
pub mod Selection
pub mod Compression
pub mod Emission
pub mod Reveal
pub mod Instance
pub mod Amounts
pub mod Maintenance
pub mod Tests
