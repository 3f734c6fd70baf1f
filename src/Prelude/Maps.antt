-- ===== src/Prelude/Maps.antt =====
-- `Map` and `Set` of JavaScript as association lists in insertion order: a write to a key that is
-- there keeps its place.
use mathlib.Core.Path.{◌≡◌, refl, ap}
use mathlib.Core.Bool.{Bool, false, ◌||◌}
use mathlib.Core.Option.{Option, none, some}
use mathlib.Core.List.{List, [], ◌∷◌}
use mathlib.Core.Logic.{inl, inr}
use native.Mathlib.Omega.{arith}
use shatter_nc.Prelude.Tests.{Bool-cases, Eq, ◌==◌, ==_iff, ==_refl, if◌then◌else◌}

abbrev pub Map {ℓ κ} : Type ℓ → Type κ → Type (ℓ ⊔ κ)
Map K V = List (K × V)

module _ {ℓ κ} {K : Type ℓ} {V : Type κ} ⦃e : Eq K⦄ where
  unfoldable pub lookup : K → Map K V → Option V
  lookup k [] = none
  lookup k ((j, v) ∷ m) = if j == k then some v else lookup k m

  unfoldable pub insert : K → V → Map K V → Map K V
  insert k v [] = (k, v) ∷ []
  insert k v ((j, w) ∷ m) = if j == k then (j, v) ∷ m else (j, w) ∷ insert k v m

  unfoldable pub erase : K → Map K V → Map K V
  erase k [] = []
  erase k ((j, w) ∷ m) = if j == k then erase k m else (j, w) ∷ erase k m

  -- A key reads what was written to it last, and other keys are not touched.
  pub lookup-insert :
      (written read : K) (value : V) (m : Map K V)
      → lookup read (insert written value m)
        ≡ (if written == read then some value else lookup read m)
  unfolding lookup insert
  lookup-insert written read value [] = refl
  lookup-insert written read value ((first, w) ∷ m) = ground (
    arith,
    ==_iff written read,
    ==_iff first written,
    ==_iff first read,
    lookup-insert written read value m,
  )

  pub lookup-erase :
      (k j : K) (m : Map K V) → lookup j (erase k m) ≡ (if k == j then none else lookup j m)
  unfolding lookup erase
  lookup-erase k j [] = ground arith
  lookup-erase k j ((i, w) ∷ m) =
      ground (arith, ==_iff k j, ==_iff i k, ==_iff i j, lookup-erase k j m)

  -- Taking a new key out again leaves the map as it was, its order included.
  pub erase-insert : (k : K) (v : V) (m : Map K V) → lookup k m ≡ none → erase k (insert k v m) ≡ m
  unfolding erase insert lookup
  erase-insert k v [] h = rw (==_refl k) refl
  erase-insert k v ((j, w) ∷ m) h = elim (Bool-cases (j == k)) [
    | inl here ↦ cc (rw here at h)
    | inr away ↦
        rw (away, erase, away)
          (ap (λ (n : Map K V). (j, w) ∷ n) (erase-insert k v m (rw away at h)))
  ]

module _ {ℓ} {A : Type ℓ} ⦃e : Eq A⦄ where
  -- `Set.has`, and a set as the list of what was added
  unfoldable pub contains : List A → A → Bool
  contains [] a = false
  contains (x ∷ xs) a = x == a || contains xs a
