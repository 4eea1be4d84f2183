-- ===== src/Compression/Marker.antt =====
-- The marker of src/build/compression.js, written and read back.
use xchain_encoder.Base.{
  ◌≡◌, refl, sym, ap, ◌∙◌, subst, ◌↔◌, true, false, not, some, List, [], ◌∷◌, arith, All, set,
}
use xchain_encoder.Compression.Fields.{
  Text, is_empty, split, join, names_file, field_or_empty, is_file_v0_action, is_gated_file_action,
  gate_ticker_field_index, compression_field_index, compression_field_of, pad_fields, strip_fields,
  set_field, with_compression_field,
}
use xchain_encoder.Compression.Parts.{IsPart, split-join, split-IsPart, set_field-IsPart}
use xchain_encoder.Compression.Trimming.{
  set_trimmed-set_trimmed, strip_fields-field, set-same, set-other,
}

-- What setting a field does to the fields of a FILE.
record IsMarking (parts : List Text) (value : Text) : Type 0 where
  file : names_file (set_field parts value) ≡ true
  marked : field_or_empty (set_field parts value) compression_field_index ≡ value
  gate :
      field_or_empty (set_field parts value) gate_ticker_field_index
      ≡ field_or_empty parts gate_ticker_field_index
  again : (next : Text) → set_field (set_field parts value) next ≡ set_field parts next
  present : (part : Text) × (rest : List Text) × (set_field parts value ≡ part ∷ rest)

set_field-IsMarking :
    (parts : List Text) (value : Text) → names_file parts ≡ true → IsMarking parts value
unfolding set_field pad_fields strip_fields
set_field-IsMarking [] value h = absurd (ground arith)
set_field-IsMarking (action ∷ []) value h = absurd (ground arith)
set_field-IsMarking (action ∷ version ∷ parts) value h = record {
  file = h;
  marked = strip_fields-field (set (pad_fields 9 parts) 8 value) 8 ∙ set-same 8 parts value;
  gate =
      strip_fields-field (set (pad_fields 9 parts) 8 value) 4
      ∙ set-other 8 4 parts value (omega arith);
  again = λ next. ap (λ l. action ∷ version ∷ l) (set_trimmed-set_trimmed 8 parts value next);
  present = (action, _, refl);
}

-- The parts of what is written are the parts that were set.
with_compression_field-split :
    (action value : Text)
    → IsPart value
    → names_file (split action) ≡ true
    → split (with_compression_field action value) ≡ set_field (split action) value
unfolding with_compression_field
with_compression_field-split action value v h =
    let (part, rest, e) = (set_field-IsMarking (split action) value h).present in
    let parts = set_field-IsPart (split action) value v (split-IsPart action) in
    ap (λ l. split (join l)) e ∙ split-join part rest (subst (All IsPart) e parts) ∙ sym e

names_file-present : (action : Text) → names_file (split action) ≡ true → is_empty action ≡ false
unfolding split
names_file-present [] h = absurd (ground arith)
names_file-present (c ∷ cs) h = refl

is_file_v0_action-names_file :
    (action : Text) → (is_file_v0_action (some action) ≡ true) ↔ (names_file (split action) ≡ true)
unfolding is_file_v0_action
is_file_v0_action-names_file action = ((λ h. ground arith), λ h. rw (names_file-present action h) h)

with_compression_field_lem :
    (action value : Text)
    → with_compression_field action value ≡ join (set_field (split action) value)
unfolding with_compression_field
with_compression_field_lem action value = refl

-- Writing a COMPRESSION value without a separator into a FILE v0 leaves a FILE v0, from which the
-- value is read back, and which is gated exactly if it was. Writing another value over it gives
-- what writing that value in the first place gives: in particular the empty value takes the
-- marker off.
pub with_compression_field-read :
    (action value : Text)
    → IsPart value
    → is_file_v0_action (some action) ≡ true
    → (is_file_v0_action (some (with_compression_field action value)) ≡ true)
      × (compression_field_of (some (with_compression_field action value)) ≡ value)
      × (is_gated_file_action (some (with_compression_field action value))
          ≡ is_gated_file_action (some action))
      × ((next : Text)
          → with_compression_field (with_compression_field action value) next
            ≡ with_compression_field action next)
unfolding compression_field_of is_gated_file_action
with_compression_field-read action value v h =
    let named = (is_file_v0_action-names_file action).0 h in
    let m = set_field-IsMarking (split action) value named in
    let parts = with_compression_field-split action value v named in
    let still =
      (is_file_v0_action-names_file (with_compression_field action value)).1
        (ap names_file parts ∙ m.file) in
    (
      still,
      rw still (ap (λ l. field_or_empty l compression_field_index) parts ∙ m.marked),
      rw (still, h)
          (ap (λ l. not (is_empty (field_or_empty l gate_ticker_field_index))) parts
            ∙ ap (λ l. not (is_empty l)) (m.gate)),
      λ next.
          with_compression_field_lem _ next
          ∙ ap (λ l. join (set_field l next)) parts
          ∙ ap join (m.again next)
          ∙ sym (with_compression_field_lem action next),
    )
