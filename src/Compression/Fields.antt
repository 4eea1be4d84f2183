-- ===== src/Compression/Fields.antt =====
-- The fields of an ACTION string in src/build/compression.js: `isFileV0Action`, `isGatedFileAction`,
-- `compressionFieldOf` and `withCompressionField`.
use xchain_encoder.Base.{
  ℕ, zero, suc, ◌-◌, Bool, true, false, not, ◌&&◌, Option, none, some, List, [], ◌∷◌, ◌++◌, leb,
  ◌==◌, if◌then◌else◌, get_elem?, set,
}

abbrev pub Text : Type 0
Text = List ℕ

abbrev pub pipe : ℕ
pipe = 124

abbrev pub gate_ticker_field_index : ℕ
gate_ticker_field_index = 6

abbrev pub compression_field_index : ℕ
compression_field_index = 10

abbrev pub is_empty {ℓ} : {A : Type ℓ} → List A → Bool
is_empty [] = true
is_empty (x ∷ xs) = false

-- `split('|')` and `join('|')`.
abbrev pub extend : ℕ → List Text → List Text
extend c [] = (c ∷ []) ∷ []
extend c (part ∷ parts) = (c ∷ part) ∷ parts

unfoldable pub split : Text → List Text
split [] = [] ∷ []
split (c ∷ cs) = let rest = split cs in if c == pipe then [] ∷ rest else extend c rest

unfoldable pub join : List Text → Text
join [] = []
join (part ∷ []) = part
join (part ∷ next ∷ parts) = part ++ pipe ∷ join (next ∷ parts)

-- `toUpperCase`, on the units that it takes to a letter of FILE: the dotless i and the ligature fi
-- are among them. Another unit stays, since it goes to none of the four either way.
abbrev pub upper : ℕ → Text
upper c =
    if leb 97 c && leb c 122
    then (c - 32) ∷ []
    else if c == 0x131
    then 73 ∷ []
    else if c == 0xfb01
    then 70 ∷ 73 ∷ []
    else c ∷ []

unfoldable pub to_upper_case : Text → Text
to_upper_case [] = []
to_upper_case (c ∷ cs) = upper c ++ to_upper_case cs

unfoldable pub text_eq : Text → Text → Bool
text_eq [] [] = true
text_eq (a ∷ as') (b ∷ bs) = (a == b) && text_eq as' bs
text_eq _ _ = false

abbrev pub file : Text
file = 70 ∷ 73 ∷ 76 ∷ 69 ∷ []

abbrev pub version_0 : Text
version_0 = 48 ∷ []

abbrev pub names_file : List Text → Bool
names_file (action ∷ version ∷ rest) =
    text_eq (to_upper_case action) file && text_eq version version_0
names_file _ = false

-- Absent where there are too few fields.
abbrev pub field_or_empty : List Text → ℕ → Text
field_or_empty parts i = elim (get_elem? parts i) [ none ↦ [] | some part ↦ part ]

unfoldable pub is_file_v0_action : Option Text → Bool
unfolding split to_upper_case text_eq
is_file_v0_action none = false
is_file_v0_action (some action) = not (is_empty action) && names_file (split action)

unfoldable pub is_gated_file_action : Option Text → Bool
unfolding is_file_v0_action
is_gated_file_action none = false
is_gated_file_action (some action) =
    is_file_v0_action (some action)
    && not (is_empty (field_or_empty (split action) gate_ticker_field_index))

unfoldable pub compression_field_of : Option Text → Text
unfolding is_file_v0_action
compression_field_of none = []
compression_field_of (some action) =
    if is_file_v0_action (some action)
    then field_or_empty (split action) compression_field_index
    else []

-- The loop that pushes empty fields up to a length.
unfoldable pub pad_fields : ℕ → List Text → List Text
pad_fields zero parts = parts
pad_fields (suc n) [] = [] ∷ pad_fields n []
pad_fields (suc n) (part ∷ parts) = part ∷ pad_fields n parts

-- The loop that pops empty fields off the end.
unfoldable pub strip_fields : List Text → List Text
strip_fields [] = []
strip_fields (part ∷ parts) =
    let rest = strip_fields parts in if is_empty part && is_empty rest then [] else part ∷ rest

-- The loop stops at two fields.
abbrev pub strip_after_two : List Text → List Text
strip_after_two (action ∷ version ∷ parts) = action ∷ version ∷ strip_fields parts
strip_after_two parts = parts

-- The field set among the parts, and the parts joined.
unfoldable pub set_field : List Text → Text → List Text
unfolding pad_fields strip_fields
set_field parts value =
    strip_after_two
      (set (pad_fields (suc compression_field_index) parts) compression_field_index value)

unfoldable pub with_compression_field : Text → Text → Text
unfolding split join set_field
with_compression_field action value = join (set_field (split action) value)
