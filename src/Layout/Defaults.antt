-- ===== src/Layout/Defaults.antt =====
-- The default grids of frontend/src/types/layout.ts, on 24 columns.
use shatter_nc.Prelude.{ℕ, Bool, true, Option, none, some, List, [], ◌∷◌, String}
use shatter_nc.Prelude.Numbers.{Num, whole}

-- A position or a size that is missing in saved data is `none`.
pub record PaneLayout : Type 0 where
  pub i : String
  pub x : Option Num
  pub y : Option Num
  pub w : Option Num
  pub h : Option Num
  pub min_w : Option Num
  pub min_h : Option Num
  pub static : Option Bool
  pub visible : Option Bool

-- an entry of the defaults: id, column, row, width, height and the least width and height
abbrev pane : String → ℕ → ℕ → ℕ → ℕ → ℕ → ℕ → PaneLayout
pane i x y w h min_w min_h = record {
  i = i;
  x = some (whole x);
  y = some (whole y);
  w = some (whole w);
  h = some (whole h);
  min_w = some (whole min_w);
  min_h = some (whole min_h);
  static = none;
  visible = some true;
}

abbrev pub default_compressor_layout : List PaneLayout
default_compressor_layout =
    pane "compressorPanel" 0 0 24 8 8 5
    ∷ pane "compressorOverview" 0 8 24 5 6 4
    ∷ pane "compressorAlarms" 0 13 12 7 3 4
    ∷ pane "compressorStatusTimeline" 12 13 12 7 6 4
    ∷ pane "compressorPsiTimeline" 0 20 12 7 6 4
    ∷ pane "compressorTempTimeline" 12 20 12 7 6 4
    ∷ pane "compressorStatusHistory" 0 27 24 6 6 3
    ∷ []

abbrev pub default_layout : List PaneLayout
default_layout =
    pane "statusTimeline" 0 0 24 5 6 3
    ∷ pane "alarms" 0 5 12 7 3 4
    ∷ pane "currentProgram" 12 5 12 7 6 4
    ∷ pane "tools" 0 12 12 7 6 4
    ∷ pane "productionRuns" 12 12 12 7 6 4
    ∷ pane "statusHistory" 0 19 24 6 6 3
    ∷ pane "panel" 0 25 24 8 3 6
    ∷ pane "fileManager" 0 27 24 8 6 4
    ∷ []
