-- ===== src/Tools/Occupancy/Pots.antt =====
-- The pots that are taken.
use mathlib.Core.List.{foldl}
use shatter_nc.Prelude.{
  ◌≡◌, refl, ◌∙◌, Bool, true, false, ◌&&◌, ◌||◌, none, List, [], ◌∷◌, arith, any, ==_iff,
  Option-cases, inl, inr,
}
use shatter_nc.Prelude.Maps.{Map, lookup, lookup-insert}
use shatter_nc.Prelude.Numbers.{Num, whole, lt_num, num_eq}
use shatter_nc.Tools.{Tool, EmptyPocket, UnifiedToolRow, UnifiedToolView, Slice, Pending}
use shatter_nc.Tools.Pots.{parse_pot_number}
use shatter_nc.Tools.Fields.{is_true, empty_pocket_as_tool}
use shatter_nc.Tools.Pending.{merge_server_tool_with_pending}
use shatter_nc.Tools.Occupancy.{
  is_real_atc_tool_number, occupy, occupy_row, occupy_pocket, build_pot_occupancy_map,
  get_pot_occupant_tool,
}
use shatter_nc.Tools.UnifiedView.Pockets.{names_pot}
use shatter_nc.Tools.UnifiedView.Rows.{is_some}

-- The merged tool is a real tool in pot `pot`.
abbrev pub holds : Num → Bool → Tool → Bool
holds pot present merged =
    names_pot pot (parse_pot_number merged.pot_number)
    && lt_num (whole 0) pot
    && present
    && is_real_atc_tool_number merged.tool_number

abbrev pub row_holds : Num → Pending → UnifiedToolRow → Bool
row_holds pot pending row =
    holds pot (is_true (merge_server_tool_with_pending row pending Slice.tool).in_atc)
      (merge_server_tool_with_pending row pending Slice.tool)

abbrev pub pocket_holds : Num → Pending → EmptyPocket → Bool
pocket_holds pot pending pocket =
    holds pot true
      (merge_server_tool_with_pending (empty_pocket_as_tool pocket) pending Slice.pocket)

occupy-lookup :
    (pot : Num) (present : Bool) (m : Map Num Num) (merged : Tool)
    → is_some (lookup pot (occupy present m merged))
      ≡ (is_some (lookup pot m) || holds pot present merged)
unfolding occupy
occupy-lookup pot present m merged = elim (Option-cases (parse_pot_number merged.pot_number)) [
  | inl missing ↦ rw (missing, occupy) (ground arith)
  | inr (p, named) ↦
      rw (named, occupy) (ground (arith, lookup-insert p pot merged.tool_number m, ==_iff p pot))
]

lookup-nil : (pot : Num) → is_some (lookup {V = Num} pot []) ≡ false
unfolding lookup
lookup-nil pot = refl

rows-lookup :
    (pot : Num) (pending : Pending) (m : Map Num Num) (rows : List UnifiedToolRow)
    → is_some (lookup pot (foldl (occupy_row pending) m rows))
      ≡ (is_some (lookup pot m) || any (row_holds pot pending) rows)
unfolding occupy_row
rows-lookup pot pending m [] = ground arith
rows-lookup pot pending m (row ∷ rows) =
    let merged = merge_server_tool_with_pending row pending Slice.tool in
    rows-lookup pot pending (occupy (is_true merged.in_atc) m merged) rows
    ∙ rw (occupy-lookup pot (is_true merged.in_atc) m merged) (ground arith)

pockets-lookup :
    (pot : Num) (pending : Pending) (m : Map Num Num) (pockets : List EmptyPocket)
    → is_some (lookup pot (foldl (occupy_pocket pending) m pockets))
      ≡ (is_some (lookup pot m) || any (pocket_holds pot pending) pockets)
unfolding occupy_pocket
pockets-lookup pot pending m [] = ground arith
pockets-lookup pot pending m (p ∷ pockets) =
    let merged = merge_server_tool_with_pending (empty_pocket_as_tool p) pending Slice.pocket in
    pockets-lookup pot pending (occupy true m merged) pockets
    ∙ rw (occupy-lookup pot true m merged) (ground arith)

-- A pot has an occupant exactly if, with the staged changes merged in, some row in the ATC or some
-- pocket names that pot, the pot is above 0, and its tool number is above 0 and marks no cap.
pub get_pot_occupant_tool_iff :
    (cache : UnifiedToolView) (pending : Pending) (pot : Num)
    → is_some (get_pot_occupant_tool cache pending pot none) ≡ (
        any (row_holds pot pending) cache.tools
        || any (pocket_holds pot pending) cache.empty_pockets)
unfolding get_pot_occupant_tool build_pot_occupancy_map
get_pot_occupant_tool_iff cache pending pot = ground (
  arith,
  rows-lookup pot pending [] cache.tools,
  lookup-nil pot,
  pockets-lookup pot pending (foldl (occupy_row pending) [] cache.tools) cache.empty_pockets,
)
