-- ===== src/Layout/Merge.antt =====
-- Ids under a merge: default panes keep theirs, and extra panes have others.
use mathlib.Core.Option
use shatter_nc.Prelude.{
  ◌≡◌, refl, ◌∙◌, Bool, true, false, not, ◌&&◌, Option, none, some, List, [], ◌∷◌, ◌++◌, map,
  String, arith, if◌then◌else◌, filter, any, All, All-imp, Bool-cases, Option-cases, inl, inr,
}
use shatter_nc.Prelude.Tests.{◌==◌, ==_iff, ==_refl, string_eq}
use shatter_nc.Layout.Defaults.{PaneLayout}
use shatter_nc.Layout.{fill_pane, place, is_extra}
use shatter_nc.Layout.Ids.{last_pane, saved_pane, as_runs}

-- The list has a pane with the id; no id stands twice; every pane says whether it is visible.
abbrev pub has_id : String → List PaneLayout → Bool
has_id id = any (λ (p : PaneLayout). p.i == id)

abbrev pub distinct_ids : List PaneLayout → Bool
distinct_ids [] = true
distinct_ids (p ∷ ps) = not (has_id p.i ps) && distinct_ids ps

abbrev pub says_visible : PaneLayout → Bool
says_visible p = elim p.visible [ none ↦ false | some v ↦ true ]

-- what a default pane becomes for a list of saved panes
abbrev pub placed : List PaneLayout → PaneLayout → PaneLayout
placed custom p = place (saved_pane p.i custom) p

last_pane-id :
    (id : String) (found : Option PaneLayout) (ps : List PaneLayout) (p : PaneLayout)
    → ((q : PaneLayout) → found ≡ some q → q.i ≡ id)
    → last_pane id found ps ≡ some p
    → p.i ≡ id
last_pane-id id found [] p h e = h p e
last_pane-id id found (q ∷ ps) p h e =
    last_pane-id id (if q.i == id then some q else found) ps p
      (λ r g. ground (arith, ==_iff q.i id, h r)) e

legacy-id :
    (id : String) (o : Option PaneLayout) (p : PaneLayout)
    → (if "productionRuns" == id then Option.map as_runs o else none) ≡ some p
    → p.i ≡ id
legacy-id id none p e = absurd (ground arith)
legacy-id id (some q) p e = ground (arith, ==_iff "productionRuns" id)

pub saved_pane-id :
    (id : String) (custom : List PaneLayout) (p : PaneLayout)
    → saved_pane id custom ≡ some p
    → p.i ≡ id
saved_pane-id id custom p e = elim (Option-cases (last_pane id none custom)) [
  | inl absent ↦ legacy-id id (last_pane "cycleHistory" none custom) p (rw absent at e)
  | inr (q, found) ↦ last_pane-id id none custom p (λ r g. cc) (found ∙ rw found at e)
]

-- A default pane keeps its id.
pub placed-id : (custom : List PaneLayout) (p : PaneLayout) → (placed custom p).i ≡ p.i
unfolding fill_pane
placed-id custom p = elim (Option-cases (saved_pane p.i custom)) [
  | inl absent ↦ rw absent refl
  | inr (q, found) ↦ rw found (saved_pane-id p.i custom q found)
]

pub has_id-placed :
    (custom : List PaneLayout) (id : String) (ps : List PaneLayout)
    → has_id id (map (placed custom) ps) ≡ has_id id ps
has_id-placed custom id [] = refl
has_id-placed custom id (p ∷ ps) = rw (placed-id custom p, has_id-placed custom id ps)

pub last_pane-append :
    (id : String) (found : Option PaneLayout) (ps qs : List PaneLayout)
    → last_pane id found (ps ++ qs) ≡ last_pane id (last_pane id found ps) qs
last_pane-append id found [] qs = refl
last_pane-append id found (p ∷ ps) qs =
    last_pane-append id (if p.i == id then some p else found) ps qs

pub last_pane-absent :
    (id : String) (found : Option PaneLayout) (ps : List PaneLayout)
    → has_id id ps ≡ false
    → last_pane id found ps ≡ found
last_pane-absent id found [] h = refl
last_pane-absent id found (p ∷ ps) h =
    let here : (p.i == id) ≡ false = ground arith in
    let later : has_id id ps ≡ false = ground arith in rw here (last_pane-absent id found ps later)

extra-ne :
    (id : String) (defaults : List PaneLayout) (p : PaneLayout)
    → has_id id defaults ≡ true
    → is_extra defaults p ≡ true
    → (p.i == id) ≡ false
extra-ne id defaults p h keep = elim (Bool-cases (p.i == id)) [
  | inr other ↦ other
  | inl same ↦
      let e : p.i ≡ id = (==_iff p.i id).0 same in
      let absent : has_id p.i defaults ≡ false = ground arith in
      absurd (ground (arith, rw e at absent))
]

last_pane-head :
    (id : String) (found : Option PaneLayout) (q : PaneLayout) (ps : List PaneLayout)
    → q.i ≡ id
    → has_id id ps ≡ false
    → last_pane id found (q ∷ ps) ≡ some q
last_pane-head id found q ps e h = rw ((==_iff q.i id).1 e) (last_pane-absent id (some q) ps h)

-- No id of the defaults stands among the extra panes.
pub has_id-extra :
    (id : String) (defaults ps : List PaneLayout)
    → has_id id defaults ≡ true
    → has_id id (filter (is_extra defaults) ps) ≡ false
has_id-extra id defaults [] h = refl
has_id-extra id defaults (p ∷ ps) h = elim (Bool-cases (is_extra defaults p)) [
  | inr drop ↦ rw drop (has_id-extra id defaults ps h)
  | inl keep ↦
      let other : (p.i == id) ≡ false = extra-ne id defaults p h keep in
      rw (keep, other) (has_id-extra id defaults ps h)
]

-- Among panes with distinct ids, each is the last with its id.
pub last_pane-placed :
    (custom : List PaneLayout) (found : String → Option PaneLayout) (ps : List PaneLayout)
    → distinct_ids ps ≡ true
    → All
        (λ (p : PaneLayout).
          last_pane p.i (found p.i) (map (placed custom) ps) ≡ some (placed custom p))
        ps
last_pane-placed custom found [] h = tt
last_pane-placed custom found (p ∷ ps) h =
    let absent : has_id p.i ps ≡ false = ground arith in
    let later : distinct_ids ps ≡ true = ground arith in
    let next =
      λ (id : String). if (placed custom p).i == id then some (placed custom p) else found id in
    (
      last_pane-head p.i (found p.i) (placed custom p) (map (placed custom) ps) (placed-id custom p)
          (has_id-placed custom p.i ps ∙ absent),
      last_pane-placed custom next ps later,
    )

pub has_id_self : (ps : List PaneLayout) → All (λ (p : PaneLayout). has_id p.i ps ≡ true) ps
has_id_self [] = tt
has_id_self (p ∷ ps) = (
  rw (==_refl p.i) refl,
  All-imp (λ (q : PaneLayout). has_id q.i ps ≡ true) _ ps (has_id_self ps)
      (λ q h. ground (arith, h)),
)
