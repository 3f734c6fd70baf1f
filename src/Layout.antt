-- ===== src/Layout.antt =====
-- Saved pane layouts: frontend/src/utils/layoutUtils.ts, and the types of
-- frontend/src/types/layout.ts. The default grids stand in Layout/Defaults.antt.
pub mod Defaults
pub mod Ids
pub mod Merge
pub mod Again
pub mod Valid
use mathlib.Core.Option.{get_or}
use mathlib.Core.List.{foldl}
use shatter_nc.Prelude.{
  Bool, true, false, not, ◌&&◌, ◌||◌, Option, none, some, List, [], ◌∷◌, ◌++◌, map, String,
  if◌then◌else◌, filter, any, all,
}
use shatter_nc.Prelude.Tests.{◌==◌, string_eq}
use shatter_nc.Prelude.Maps.{Map, lookup, insert}
use shatter_nc.Prelude.Numbers.{Num, whole, lt_num}
use shatter_nc.Layout.Defaults.{PaneLayout, default_layout, default_compressor_layout}

-- `a ?? b` on an optional field
infixr 40 ◌<|>◌
abbrev pub ◌<|>◌ {ℓ} : {A : Type ℓ} → Option A → Option A → Option A
some a <|> b = some a
none <|> b = b

pub record LayoutConfig : Type 0 where
  pub panes : Option (List PaneLayout)
  pub grid_cols : Option Num

unfoldable pub get_default_layout : List PaneLayout
get_default_layout = default_layout

-- the map of the custom panes by their ids, before the legacy rule
unfoldable pub custom_map : List PaneLayout → Map String PaneLayout
custom_map = foldl (λ (m : Map String PaneLayout) (pane : PaneLayout). insert pane.i pane m) []

-- a saved 'cycleHistory' stands in for a missing 'productionRuns'
unfoldable pub with_legacy : Map String PaneLayout → Map String PaneLayout
with_legacy m = elim (lookup "cycleHistory" m) [
  | none ↦ m
  | some saved ↦ elim (lookup "productionRuns" m) [
    | some runs ↦ m
    | none ↦ insert "productionRuns" (record saved { i = "productionRuns" }) m
  ]
]

unfoldable pub fill_pane : PaneLayout → PaneLayout → PaneLayout
fill_pane custom default = record {
  i = custom.i;
  x = custom.x <|> default.x;
  y = custom.y <|> default.y;
  w = custom.w <|> default.w;
  h = custom.h <|> default.h;
  min_w = custom.min_w <|> default.min_w;
  min_h = custom.min_h <|> default.min_h;
  static = custom.static <|> default.static;
  visible = custom.visible <|> default.visible <|> some true;
}

abbrev pub place : Option PaneLayout → PaneLayout → PaneLayout
place none default = default
place (some custom) default = fill_pane custom default

-- a custom pane that the defaults do not have, and that is not the legacy one
abbrev pub is_extra : List PaneLayout → PaneLayout → Bool
is_extra defaults pane =
    not (pane.i == "cycleHistory") && not (any (λ (p : PaneLayout). p.i == pane.i) defaults)

unfoldable pub merge_panes : List PaneLayout → List PaneLayout → List PaneLayout
merge_panes custom defaults =
    let m = with_legacy (custom_map custom) in
    map (λ (p : PaneLayout). place (lookup p.i m) p) defaults ++ filter (is_extra defaults) custom

unfoldable pub merge_layout_with_defaults :
    Option (List PaneLayout) → List PaneLayout → List PaneLayout
unfolding merge_panes
merge_layout_with_defaults none defaults = defaults
merge_layout_with_defaults (some []) defaults = defaults
merge_layout_with_defaults (some (pane ∷ panes)) defaults = merge_panes (pane ∷ panes) defaults

-- `typeof v === 'number'` and the bound
abbrev pub number_and : (Num → Bool) → Option Num → Bool
number_and ok none = false
number_and ok (some n) = ok n

unfoldable pub valid_pane : PaneLayout → Bool
valid_pane p =
    not (p.i == "")
    && number_and (λ n. not (lt_num n (whole 0))) p.x
    && number_and (λ n. not (lt_num n (whole 0))) p.y
    && number_and (λ n. lt_num (whole 0) n) p.w
    && number_and (λ n. lt_num (whole 0) n) p.h

unfoldable pub validate_layout : List PaneLayout → Bool
unfolding valid_pane
validate_layout [] = false
validate_layout (p ∷ ps) = all valid_pane (p ∷ ps)

unfoldable pub layout_config_to_panes : Option LayoutConfig → List PaneLayout
layout_config_to_panes none = get_default_layout
layout_config_to_panes (some config) = elim config.panes [
  | none ↦ get_default_layout
  | some panes ↦ merge_layout_with_defaults (some panes) default_layout
]

unfoldable pub get_default_compressor_layout : List PaneLayout
get_default_compressor_layout = default_compressor_layout

abbrev pub not_telemetry : PaneLayout → Bool
not_telemetry p = not (p.i == "compressorTelemetry")

unfoldable pub layout_config_to_compressor_panes : Option LayoutConfig → List PaneLayout
layout_config_to_compressor_panes none = get_default_compressor_layout
layout_config_to_compressor_panes (some config) = elim config.panes [
  | none ↦ get_default_compressor_layout
  | some panes ↦
      filter not_telemetry
        (merge_layout_with_defaults (some (filter not_telemetry panes)) default_compressor_layout)
]

unfoldable pub panes_to_layout_config : List PaneLayout → Option Num → LayoutConfig
panes_to_layout_config panes grid_cols = record {
  panes = some panes;
  grid_cols = some (get_or grid_cols (whole 12));
}
