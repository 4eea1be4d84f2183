-- ===== src/Failures.antt =====
-- The error classes of src/build/errors.js, and the outcome of code that may throw one of them.
-- Messages are left out; an operational error keeps its code.
use xchain_encoder.Base.{◌≡◌, refl, ◌⊎◌, inl, inr, Bool, true, false}

pub data Code : Type 0 where
  insufficient_funds change_address_required no_utxos no_confirmed_utxo : Code
  duplicate_transaction input_reserved input_selection_race : Code
  envelope_cancel_outpoint_reserved envelope_cancel_below_dust tx_below_min_standard_size : Code
  utxo_tracker_error : Code

-- `internal` is a plain `Error`.
pub data Failure : Type 0 where
  operational : Code → Failure
  param_type : Failure
  param_range : Failure
  internal : Failure

pub data Result {ℓ} (A : Type ℓ) : Type ℓ where
  ok : A → Result A
  throw : Failure → Result A

infixl 5 ◌>>=◌ ◌>>◌
abbrev pub ◌>>=◌ {ℓ κ} : {A : Type ℓ} {B : Type κ} → Result A → (A → Result B) → Result B
throw failure >>= next = throw failure
ok value >>= next = next value

abbrev pub ◌>>◌ {ℓ} : {B : Type ℓ} → Result (Unit {0}) → Result B → Result B
first >> next = first >>= λ _. next

-- `if (test) throw e`.
abbrev pub throw_if : Bool → Failure → Result (Unit {0})
throw_if true e = throw e
throw_if false e = ok tt

-- Whether the API answers with invalid params (-32602).
unfoldable pub is_invalid_params : Failure → Bool
is_invalid_params param_type = true
is_invalid_params param_range = true
is_invalid_params _ = false

-- To split on a computed outcome and keep the equation.
pub Result-cases {ℓ} :
    {A : Type ℓ} (r : Result A) → ((a : A) × (r ≡ ok a)) ⊎ ((e : Failure) × (r ≡ throw e))
Result-cases (ok a) = inl (a, refl)
Result-cases (throw e) = inr (e, refl)

pub ok_inj {ℓ} : {A : Type ℓ} {a b : A} → ◌≡◌ {A = Result A} (ok a) (ok b) → a ≡ b
ok_inj h = cc

-- A chain that returns has returned on the way.
pub bind_inv {ℓ κ} :
    {A : Type ℓ} {B : Type κ} (r : Result A) (next : A → Result B) {b : B}
    → r >>= next ≡ ok b
    → (a : A) × (r ≡ ok a) × (next a ≡ ok b)
bind_inv (ok a) next h = (a, refl, h)
bind_inv (throw failure) next h = absurd (cc h)
