-- ===== src/Examples/SavedLayout.antt =====
-- A saved layout with a moved pane, the pane that production runs replaced, and one that is unknown.
use shatter_nc.Prelude.{◌≡◌, refl, none, some, List, [], ◌∷◌, String, ℕ}
use shatter_nc.Prelude.Tests.{string_eq}
use shatter_nc.Prelude.Numbers.{whole}
use shatter_nc.Layout.Defaults.{PaneLayout, default_layout}
use shatter_nc.Layout.{LayoutConfig, merge_layout_with_defaults}
use shatter_nc.Layout.Again.{merge_layout_idempotent}

abbrev saved : String → ℕ → PaneLayout
saved i y = record {
  i = i;
  x = some (whole 0);
  y = some (whole y);
  w = some (whole 12);
  h = some (whole 6);
  min_w = none;
  min_h = none;
  static = none;
  visible = none;
}

abbrev custom : List PaneLayout
custom = saved "alarms" 9 ∷ saved "cycleHistory" 2 ∷ saved "notes" 40 ∷ []

merge_layout_idempotent_example :
    merge_layout_with_defaults
      (some (merge_layout_with_defaults (some custom) default_layout))
      default_layout
    ≡ merge_layout_with_defaults (some custom) default_layout
merge_layout_idempotent_example = merge_layout_idempotent (some custom) default_layout refl refl

abbrev retired : LayoutConfig
retired = record { panes = some (saved "compressorTelemetry" 0 ∷ []); grid_cols = none }
