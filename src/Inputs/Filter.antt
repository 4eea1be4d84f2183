-- ===== src/Inputs/Filter.antt =====
-- What the filter of the candidates keeps.
use xchain_encoder.Base.{
  String, ◌≡◌, refl, sym, ◌∙◌, subst, ◌≢◌, ◌⊎◌, inl, inr, if_pos, if_neg, Bool, true, false, not,
  ◌&&◌, List, [], ◌∷◌, arith, Bool-cases, All, In, string_discrete,
}
use xchain_encoder.Inputs.Candidates.{Utxo, is_unconfirmed_utxo, has_key, filter_loop}

-- The mempool filter lets the candidate through.
abbrev pub IsAllowed : Bool → Utxo → Type 0
IsAllowed unconfirmed u = (not unconfirmed && is_unconfirmed_utxo u) ≡ false

-- No outpoint twice.
abbrev pub IsDistinct : List Utxo → Type 0
IsDistinct [] = Unit
IsDistinct (u ∷ us) = All (λ v. u.key ≢ v.key) us × IsDistinct us

abbrev IsNew : Bool → List String → Utxo → Type 0
IsNew unconfirmed seen v = IsAllowed unconfirmed v × (has_key (v.key) seen ≡ false)

pub All-map : {P Q : Utxo → Type 0} (l : List Utxo) → ((v : Utxo) → P v → Q v) → All P l → All Q l
All-map [] f a = tt
All-map (u ∷ us) f (p, a) = (f u p, All-map us f a)

pub true_ne_false : {X : Type 0} → true ≡ false → X
true_ne_false e = ground arith

has_key-tail :
    (k j : String) (js : List String)
    → has_key k (j ∷ js) ≡ false
    → (j ≢ k) × (has_key k js ≡ false)
has_key-tail k j js h = elim (string_discrete k j) [
  | yes e ↦ true_ne_false (sym (if_pos (string_discrete k j) e _ _) ∙ h)
  | no ne ↦ (λ e. ne (sym e), sym (if_neg (string_discrete k j) ne _ _) ∙ h)
]

pub filter-IsNew :
    (unconfirmed : Bool) (seen : List String) (us : List Utxo)
    → All (IsNew unconfirmed seen) (filter_loop unconfirmed seen us)
unfolding filter_loop
filter-IsNew unconfirmed seen [] = tt
filter-IsNew unconfirmed seen (u ∷ us) =
    elim (Bool-cases (not unconfirmed && is_unconfirmed_utxo u)) [
      | inl drop' ↦ rw drop' (filter-IsNew unconfirmed seen us)
      | inr keep ↦ elim (Bool-cases (has_key (u.key) seen)) [
        | inl old ↦ rw (keep, old) (filter-IsNew unconfirmed seen us)
        | inr new ↦
            rw (keep, new)
              (
                (keep, new),
                All-map (filter_loop unconfirmed (u.key ∷ seen) us)
                    (λ v p. (p.0, (has_key-tail (v.key) (u.key) seen p.1).1))
                    (filter-IsNew unconfirmed (u.key ∷ seen) us),
              )
      ]
    ]

pub filter-IsDistinct :
    (unconfirmed : Bool) (seen : List String) (us : List Utxo)
    → IsDistinct (filter_loop unconfirmed seen us)
unfolding filter_loop
filter-IsDistinct unconfirmed seen [] = tt
filter-IsDistinct unconfirmed seen (u ∷ us) =
    elim (Bool-cases (not unconfirmed && is_unconfirmed_utxo u)) [
      | inl drop' ↦ rw drop' (filter-IsDistinct unconfirmed seen us)
      | inr keep ↦ elim (Bool-cases (has_key (u.key) seen)) [
        | inl old ↦ rw (keep, old) (filter-IsDistinct unconfirmed seen us)
        | inr new ↦
            rw (keep, new)
              (
                All-map (filter_loop unconfirmed (u.key ∷ seen) us)
                    (λ v p. (has_key-tail (v.key) (u.key) seen p.1).0)
                    (filter-IsNew unconfirmed (u.key ∷ seen) us),
                filter-IsDistinct unconfirmed (u.key ∷ seen) us,
              )
      ]
    ]

pub In-filter :
    (unconfirmed : Bool) (seen : List String) (us : List Utxo) (v : Utxo)
    → In v (filter_loop unconfirmed seen us)
    → In v us
unfolding filter_loop
In-filter unconfirmed seen [] v i = i
In-filter unconfirmed seen (u ∷ us) v i =
    elim (Bool-cases (not unconfirmed && is_unconfirmed_utxo u)) [
      | inl drop' ↦ inr (In-filter unconfirmed seen us v (rw drop' at i))
      | inr keep ↦ elim (Bool-cases (has_key (u.key) seen)) [
        | inl old ↦ inr (In-filter unconfirmed seen us v (rw (keep, old) at i))
        | inr new ↦ elim (rw (keep, new) at i) [
          | inl e ↦ inl e
          | inr j ↦ inr (In-filter unconfirmed (u.key ∷ seen) us v j)
        ]
      ]
    ]

has_key-cons :
    (k j : String) (js : List String) → has_key k (j ∷ js) ≡ true → (j ≡ k) ⊎ (has_key k js ≡ true)
has_key-cons k j js h = elim (string_discrete k j) [
  | yes e ↦ inl (sym e)
  | no ne ↦ inr (sym (if_neg (string_discrete k j) ne _ _) ∙ h)
]

-- Every outpoint of an allowed candidate was seen before, or is kept.
abbrev pub IsCovered : List String → List Utxo → Utxo → Type 0
IsCovered seen kept u = (has_key (u.key) seen ≡ true) ⊎ ((v : Utxo) × In v kept × (v.key ≡ u.key))

IsCovered-cons :
    (seen : List String) (kept : List Utxo) (w u : Utxo)
    → IsCovered (w.key ∷ seen) kept u
    → IsCovered seen (w ∷ kept) u
IsCovered-cons seen kept w u (inl h) = elim (has_key-cons (u.key) (w.key) seen h) [
  | inl e ↦ inr (w, inl refl, e)
  | inr old ↦ inl old
]
IsCovered-cons seen kept w u (inr (v, i, e)) = inr (v, inr i, e)

filter-first :
    (unconfirmed : Bool) (seen : List String) (us : List Utxo) (w : Utxo)
    → IsAllowed unconfirmed w
    → IsCovered seen (filter_loop unconfirmed seen (w ∷ us)) w
unfolding filter_loop
filter-first unconfirmed seen us w a = elim (Bool-cases (has_key (w.key) seen)) [
  | inl old ↦ inl old
  | inr new ↦ rw (a, new) (inr (w, inl refl, refl))
]

pub filter-IsCovered :
    (unconfirmed : Bool) (seen : List String) (us : List Utxo) (u : Utxo)
    → In u us
    → IsAllowed unconfirmed u
    → IsCovered seen (filter_loop unconfirmed seen us) u
unfolding filter_loop
filter-IsCovered unconfirmed seen [] u i a = absurd i
filter-IsCovered unconfirmed seen (w ∷ us) u (inl e) a =
    subst (λ x. IsCovered seen (filter_loop unconfirmed seen (w ∷ us)) x) e
      (filter-first unconfirmed seen us w (subst (IsAllowed unconfirmed) (sym e) a))
filter-IsCovered unconfirmed seen (w ∷ us) u (inr j) a =
    elim (Bool-cases (not unconfirmed && is_unconfirmed_utxo w)) [
      | inl drop' ↦ rw drop' (filter-IsCovered unconfirmed seen us u j a)
      | inr keep ↦ elim (Bool-cases (has_key (w.key) seen)) [
        | inl old ↦ rw (keep, old) (filter-IsCovered unconfirmed seen us u j a)
        | inr new ↦
            rw (keep, new)
              (IsCovered-cons seen (filter_loop unconfirmed (w.key ∷ seen) us) w u
                (filter-IsCovered unconfirmed (w.key ∷ seen) us u j a))
      ]
    ]
