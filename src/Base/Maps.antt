-- ===== src/Base/Maps.antt =====
-- A JavaScript `Map` with string keys, as the function that `get` computes, and decidable
-- equality of strings. Insertion order, which the modelled code never reads, is left out.
use Prim.Native.String.{String}
use mathlib.Core.Path.{◌≡◌, refl}
use mathlib.Core.Logic.{ite, inl, inr, ◌⊎◌}
use mathlib.Core.Bool.{Bool, true, false}
use mathlib.Core.Option.{Option, none, some}
use text.Mathlib.Text.{◌==◌}
use text.Mathlib.TextEquality.{eq_iff}
use native.Mathlib.Omega.{arith}

keep_test : (b : Bool) → (b ≡ true) ⊎ (b ≡ false)
keep_test true = inl refl
keep_test false = inr refl

unfoldable pub string_discrete : Discrete String
unfolding keep_test
string_discrete s t = elim (keep_test (s == t)) [
  | inl e ↦ yes ((eq_iff s t).0 e)
  | inr e ↦ no (λ p. grind (arith, (eq_iff s t).1))
]

abbrev pub Map {ℓ} : Type ℓ → Type ℓ
Map V = String → Option V

module _ {ℓ} {V : Type ℓ} where
  abbrev pub map_empty : Map V
  map_empty k = none

  abbrev pub map_set : String → V → Map V → Map V
  map_set k v m j = ite (string_discrete k j) (some v) (m j)

  abbrev pub map_delete : String → Map V → Map V
  map_delete k m j = ite (string_discrete k j) none (m j)
