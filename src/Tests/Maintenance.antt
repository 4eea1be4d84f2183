-- ===== src/Tests/Maintenance.antt =====
-- src/server/maintenance_window.js on a sentinel that ends at 1000.
use xchain_encoder.Base.{ℕ, ◌+◌, ◌≤◌, ◌<◌, ◌≡◌, refl, Option, none, some, [], ◌∷◌, length}
use xchain_encoder.Maintenance.{
  Text, nothing, number, string, Document, Window, max_window_ms, to_epoch_ms, trim_start, trim_end,
  clean_reason, window_of, parse_maintenance_window, parse_maintenance_window-closes,
}

abbrev parse_one : Text → Option Document
parse_one text = some (record { until = number 1000; since = nothing; reason = string text })

abbrev note : Text
note = 10 ∷ 65 ∷ 32 ∷ []

abbrev until_1000 : Window
until_1000 = record { reason = 65 ∷ []; since = none; until = 1000 }

open_at_900 : parse_maintenance_window (λ t. none) parse_one length note 900 ≡ some until_1000
unfolding parse_maintenance_window window_of to_epoch_ms clean_reason trim_start trim_end
open_at_900 = refl

parse_maintenance_window-closes_example :
    (◌≡◌ {A = ℕ} 1000 1000)
    × (900 < 1000)
    × (900 < 900 + max_window_ms)
    × ((after : ℕ)
        → 1000 ≤ after
        → parse_maintenance_window (λ t. none) parse_one length note after ≡ none)
parse_maintenance_window-closes_example =
    parse_maintenance_window-closes (λ t. none) parse_one length note 900 900 until_1000 until_1000
      open_at_900 open_at_900
