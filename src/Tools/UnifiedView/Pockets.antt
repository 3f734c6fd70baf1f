-- ===== src/Tools/UnifiedView/Pockets.antt =====
-- Which pots `buildUnifiedToolViewFromLegacy` lists as empty.
use mathlib.Core.List.{foldl}
use mathlib.Core.Option.{get_or}
use native.Mathlib.Decide.{ℕ_discrete}
use shatter_nc.Prelude.{
  ℕ, zero, suc, ◌+◌, ◌<◌, ◌≡◌, ◌∙◌, Bool, true, false, not, ◌&&◌, ◌||◌, Option, none, some, List,
  [], ◌∷◌, arith, ◌==◌, ==_iff, any, leb, ltb, Option-cases, Bool-cases, inl, inr,
}
use shatter_nc.Prelude.Maps.{Map, lookup, contains, lookup-insert}
use shatter_nc.Prelude.Numbers.{Num, whole, num_eq}
use shatter_nc.Tools.{EmptyPocket, LegacyAtcTool, LegacyTableTool}
use shatter_nc.Tools.Pots.{is_spindle_pot}
use shatter_nc.Tools.UnifiedView.{
  Scan, scan_step, scan, numeric_pot, loaded_number, pocket_of, fresh_pocket, list_pockets,
  build_pockets, build_unified_tool_view_from_legacy,
}
use shatter_nc.Tools.UnifiedView.Rows.{is_real}

-- The pot that an entry names is `pot`.
abbrev pub names_pot : Num → Option Num → Bool
names_pot pot none = false
names_pot pot (some p) = p == pot

-- The entry puts a real tool into pot `pot`.
abbrev pub fills : Num → LegacyAtcTool → Bool
fills pot atc =
    not (is_spindle_pot atc.pot_number)
    && names_pot pot (numeric_pot atc.pot_number)
    && is_real (loaded_number atc)

scan_step-occupied :
    (pot : Num) (s : Scan) (atc : LegacyAtcTool)
    → contains (scan_step s atc).occupied_pots pot ≡ (fills pot atc || contains s.occupied_pots pot)
unfolding scan_step contains
scan_step-occupied pot s atc = ground arith

foldl-occupied :
    (pot : Num) (s : Scan) (atcs : List LegacyAtcTool)
    → contains (foldl scan_step s atcs).occupied_pots pot
      ≡ (contains s.occupied_pots pot || any (fills pot) atcs)
foldl-occupied pot s [] = ground arith
foldl-occupied pot s (atc ∷ atcs) =
    foldl-occupied pot (scan_step s atc) atcs ∙ rw (scan_step-occupied pot s atc) (ground arith)

scan-occupied :
    (pot : Num) (atcs : List LegacyAtcTool)
    → contains (scan atcs).occupied_pots pot ≡ any (fills pot) atcs
unfolding scan contains
scan-occupied pot atcs = foldl-occupied pot _ atcs

-- Every pocket stands under its own pot number.
abbrev Keyed : Map Num EmptyPocket → Type 0
Keyed m = (pot : Num) (e : EmptyPocket) → lookup pot m ≡ some e → e.pot_number ≡ pot

scan_step-Keyed :
    (s : Scan) (atc : LegacyAtcTool) → Keyed s.empty_by_pot → Keyed (scan_step s atc).empty_by_pot
unfolding scan_step
scan_step-Keyed s atc keyed pot e found = elim (Option-cases (numeric_pot atc.pot_number)) [
  | inl missing ↦ ground (arith, keyed pot e)
  | inr (p, named) ↦
      ground
        (arith, keyed pot e, ==_iff p pot, lookup-insert p pot (pocket_of atc p) s.empty_by_pot)
]

foldl-Keyed :
    (s : Scan) (atcs : List LegacyAtcTool)
    → Keyed s.empty_by_pot
    → Keyed (foldl scan_step s atcs).empty_by_pot
foldl-Keyed s [] keyed = keyed
foldl-Keyed s (atc ∷ atcs) keyed = foldl-Keyed (scan_step s atc) atcs (scan_step-Keyed s atc keyed)

scan-Keyed : (atcs : List LegacyAtcTool) → Keyed (scan atcs).empty_by_pot
unfolding scan lookup
scan-Keyed atcs = foldl-Keyed _ atcs (λ pot e found. cc)

listed_pot :
    (m : Map Num EmptyPocket) (pot : Num)
    → Keyed m
    → (get_or (lookup pot m) (fresh_pocket pot)).pot_number ≡ pot
listed_pot m pot keyed = elim (Option-cases (lookup pot m)) [
  | inl missing ↦ rw missing
  | inr (e, found) ↦ rw found (keyed pot e found)
]

list_pockets-any :
    (s : Scan) (left pot i : ℕ)
    → Keyed s.empty_by_pot
    → any (λ (e : EmptyPocket). e.pot_number == whole i) (list_pockets s left pot)
      ≡ ((leb pot i && ltb i (pot + left)) && not (contains s.occupied_pots (whole i)))
unfolding list_pockets
list_pockets-any s zero pot i keyed = ground arith
list_pockets-any s (suc left) pot i keyed =
    let ih = list_pockets-any s left (pot + 1) i keyed in
    let listed = listed_pot s.empty_by_pot (whole pot) keyed in
    elim (ℕ_discrete pot i) [
      | yes same ↦ elim (Bool-cases (contains s.occupied_pots (whole pot))) [
        | inl full ↦
            let full_i : contains s.occupied_pots (whole i) ≡ true = rw same at full in
            rw (full, ih, full_i) (ground arith)
        | inr free ↦
            let free_i : contains s.occupied_pots (whole i) ≡ false = rw same at free in
            rw (free, ih, listed, free_i) (ground arith)
      ]
      | no other ↦ elim (Bool-cases (contains s.occupied_pots (whole pot))) [
        | inl full ↦ rw (full, ih) (ground arith)
        | inr free ↦ rw (free, ih, listed) (ground arith)
      ]
    ]

-- With a pocket count, pot i of the carousel is listed as empty exactly when no entry of the ATC
-- listing puts a real tool into it, and no pot outside 1 to the count is listed.
pub build_view-pockets :
    (table : List LegacyTableTool) (atcs : List LegacyAtcTool) (pockets i : ℕ)
    → 0 < pockets
    → any
        (λ (e : EmptyPocket). e.pot_number == whole i)
        (build_unified_tool_view_from_legacy table atcs (some pockets)).empty_pockets
      ≡ ((leb 1 i && leb i pockets) && not (any (fills (whole i)) atcs))
unfolding build_unified_tool_view_from_legacy build_pockets
build_view-pockets table atcs zero i h = absurd (omega arith)
build_view-pockets table atcs (suc n) i h =
    list_pockets-any (scan atcs) (suc n) 1 i (scan-Keyed atcs)
    ∙ rw (scan-occupied (whole i) atcs) (ground arith)
