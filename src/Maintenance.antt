-- ===== src/Maintenance.antt =====
-- The maintenance window that an operator declares, src/server/maintenance_window.js. Text is a list of
-- UTF-16 code units and a time is a whole number of epoch milliseconds. JSON.parse, Date.parse and
-- the UTF-8 length are parameters; the reading of the file is input and output.
use xchain_encoder.Base.{
  ℕ, ◌+◌, ◌*◌, ◌≤◌, ◌<◌, ◌≡◌, refl, sym, ◌∙◌, subst, inl, inr, Bool, true, false, ◌&&◌, ◌||◌,
  Option, none, some, List, [], ◌∷◌, map, arith, ltb, leb, ◌==◌, if◌then◌else◌, Bool-cases,
  Option-cases, length, take,
}

abbrev pub Text : Type 0
Text = List ℕ

abbrev pub max_sentinel_bytes : ℕ
max_sentinel_bytes = 4096

abbrev pub max_reason_chars : ℕ
max_reason_chars = 120

abbrev pub max_window_ms : ℕ
max_window_ms = 24 * 60 * 60 * 1000

abbrev pub max_epoch_ms : ℕ
max_epoch_ms = 8640000000000000

-- A value of a parsed document; `nothing` is undefined or null.
pub data Value : Type 0 where
  nothing : Value
  number : ℕ → Value
  string : Text → Value
  other : Value

pub record Document : Type 0 where
  pub until : Value
  pub since : Value
  pub reason : Value

pub record Window : Type 0 where
  pub reason : Text
  pub since : Option ℕ
  pub until : ℕ

abbrev pub printable : ℕ → ℕ
printable c = if leb 0x20 c && leb c 0x7e then c else 0x20

unfoldable pub trim_start : Text → Text
trim_start [] = []
trim_start (c ∷ cs) = let rest = trim_start cs in if c == 0x20 then rest else c ∷ cs

unfoldable pub trim_end : Text → Text
trim_end [] = []
trim_end (c ∷ cs) =
    let rest = trim_end cs in
    elim rest [ [] ↦ if c == 0x20 then [] else c ∷ [] | d ∷ ds ↦ c ∷ d ∷ ds ]

unfoldable pub clean_reason : Value → Text
unfolding trim_start trim_end
clean_reason (string t) = take max_reason_chars (trim_end (trim_start (map printable t)))
clean_reason _ = []

some_lem : {a b : Document} → ◌≡◌ {A = Option Document} (some a) (some b) → a ≡ b
some_lem h = cc

time_lem : {a b : ℕ} → ◌≡◌ {A = Option ℕ} (some a) (some b) → a ≡ b
time_lem h = cc

module _ (date_parse : Text → Option ℕ) where
  unfoldable pub to_epoch_ms : Value → Option ℕ
  to_epoch_ms nothing = none
  to_epoch_ms other = none
  to_epoch_ms (string t) = date_parse t
  to_epoch_ms (number n) = if leb n max_epoch_ms then some n else none

  -- Whether the start allows a window at `now` that ends at `until`.
  abbrev pub opens_by : Value → ℕ → ℕ → Bool
  opens_by nothing now until = true
  opens_by value now until = elim (to_epoch_ms value) [
    | none ↦ false
    | some since ↦ leb since now && leb until (since + max_window_ms)
  ]

  unfoldable pub window_of : Document → ℕ → Option Window
  unfolding to_epoch_ms clean_reason
  window_of doc now = elim (to_epoch_ms (doc.until)) [
    | none ↦ none
    | some until ↦
        if leb until now
        then none
        else if ltb (now + max_window_ms) until
        then none
        else if opens_by (doc.since) now until
        then some (record {
          reason = clean_reason (doc.reason);
          since = to_epoch_ms (doc.since);
          until = until;
        })
        else none
  ]

  unfoldable pub parse_maintenance_window :
      (Text → Option Document) → (Text → ℕ) → Text → ℕ → Option Window
  unfolding window_of
  parse_maintenance_window json_parse byte_length text now =
      if (length text == 0) || ltb max_sentinel_bytes (byte_length text)
      then none
      else elim (json_parse text) [ none ↦ none | some doc ↦ window_of doc now ]

  window_of-bounds :
      (doc : Document) (now : ℕ) (w : Window)
      → window_of doc now ≡ some w
      → (to_epoch_ms (doc.until) ≡ some (w.until))
        × (now < w.until)
        × (w.until ≤ now + max_window_ms)
  unfolding window_of
  window_of-bounds doc now w h = elim (Option-cases (to_epoch_ms (doc.until))) [
    | inl e ↦ absurd (ground (arith, e))
    | inr (until, e) ↦ ground (arith, e)
  ]

  window_of-closed :
      (doc : Document) (now until : ℕ)
      → to_epoch_ms (doc.until) ≡ some until
      → until ≤ now
      → window_of doc now ≡ none
  unfolding window_of
  window_of-closed doc now until e le = ground (arith, e)

  parsed_lem :
      (json_parse : Text → Option Document) (byte_length : Text → ℕ) (text : Text) (now : ℕ)
      (w : Window)
      → parse_maintenance_window json_parse byte_length text now ≡ some w
      → (doc : Document) × (json_parse text ≡ some doc) × (window_of doc now ≡ some w)
  unfolding parse_maintenance_window
  parsed_lem json_parse byte_length text now w h =
      elim (Bool-cases ((length text == 0) || ltb max_sentinel_bytes (byte_length text))) [
        | inl t ↦ absurd (ground (arith, t))
        | inr t ↦ elim (Option-cases (json_parse text)) [
          | inl e ↦ absurd (ground (arith, t, e))
          | inr (doc, e) ↦ (doc, e, rw (t, parse_maintenance_window, e) at h)
        ]
      ]

  closed_lem :
      (json_parse : Text → Option Document) (byte_length : Text → ℕ) (text : Text) (now : ℕ)
      (doc : Document)
      → json_parse text ≡ some doc
      → window_of doc now ≡ none
      → parse_maintenance_window json_parse byte_length text now ≡ none
  unfolding parse_maintenance_window
  closed_lem json_parse byte_length text now doc e h =
      elim (Bool-cases ((length text == 0) || ltb max_sentinel_bytes (byte_length text))) [
        | inl t ↦ rw t refl
        | inr t ↦ rw (t, e) h
      ]

  -- A sentinel that is read as a window at two times names one end, which is later than both; the
  -- times are less than a day apart, and from the end on the sentinel is never read as a window.
  -- So no file excuses an outage for a day or longer, whatever it declares.
  pub parse_maintenance_window-closes :
      (json_parse : Text → Option Document) (byte_length : Text → ℕ) (text : Text) (now later : ℕ)
      (w v : Window)
      → parse_maintenance_window json_parse byte_length text now ≡ some w
      → parse_maintenance_window json_parse byte_length text later ≡ some v
      → (v.until ≡ w.until)
        × (now < w.until)
        × (later < now + max_window_ms)
        × ((after : ℕ)
            → w.until ≤ after
            → parse_maintenance_window json_parse byte_length text after ≡ none)
  unfolding parse_maintenance_window
  parse_maintenance_window-closes json_parse byte_length text now later w v h k =
      let (doc, d, a) = parsed_lem json_parse byte_length text now w h in
      let (same, e, b) = parsed_lem json_parse byte_length text later v k in
      let one : same ≡ doc = some_lem (sym e ∙ d) in
      let (until, starts, ends) = window_of-bounds doc now w a in
      let (until', starts', ends') =
        window_of-bounds doc later v (subst (λ x. window_of x later ≡ some v) one b) in
      let agree : v.until ≡ w.until = time_lem (sym until' ∙ until) in
      (
        agree,
        starts,
        omega (arith, agree, starts', ends),
        λ after le.
            closed_lem json_parse byte_length text after doc d
              (window_of-closed doc after (w.until) until le),
      )
