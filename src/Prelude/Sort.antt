-- ===== src/Prelude/Sort.antt =====
-- `Array.prototype.sort` with a comparison: a stable sort, here by insertion.
use Prim.Native.Nat.{suc}
use mathlib.Core.Path.{◌≡◌, refl, ◌∙◌, ap}
use mathlib.Core.Bool.{Bool, true, false, ◌||◌}
use mathlib.Core.List.{List, [], ◌∷◌}
use mathlib.Core.Logic.{inl, inr}
use native.Mathlib.Omega.{arith}
use shatter_nc.Prelude.Tests.{if◌then◌else◌, Bool-cases}
use shatter_nc.Prelude.Lists.{length, filter, any, All, All-imp}

-- `before a b` says that `a` may stand left of `b`: the comparison is not positive.
module _ {ℓ} {A : Type ℓ} (before : A → A → Bool) where
  unfoldable pub insert_sorted : A → List A → List A
  insert_sorted x [] = x ∷ []
  insert_sorted x (y ∷ ys) = if before x y then x ∷ y ∷ ys else y ∷ insert_sorted x ys

  unfoldable pub sort_by : List A → List A
  sort_by [] = []
  sort_by (x ∷ xs) = insert_sorted x (sort_by xs)

  any-insert_sorted :
      (p : A → Bool) (x : A) (xs : List A) → any p (insert_sorted x xs) ≡ (p x || any p xs)
  unfolding insert_sorted
  any-insert_sorted p x [] = refl
  any-insert_sorted p x (y ∷ ys) = ground (arith, any-insert_sorted p x ys)

  -- Sorting keeps the members.
  pub any-sort_by : (p : A → Bool) (xs : List A) → any p (sort_by xs) ≡ any p xs
  unfolding sort_by
  any-sort_by p [] = refl
  any-sort_by p (x ∷ xs) = ground (arith, any-insert_sorted p x (sort_by xs), any-sort_by p xs)

  All-insert_sorted {κ} :
      (P : A → Type κ) (x : A) (xs : List A) → P x → All P xs → All P (insert_sorted x xs)
  unfolding insert_sorted
  All-insert_sorted P x [] p h = (p, tt)
  All-insert_sorted P x (y ∷ ys) p (q, h) = ground (arith, All-insert_sorted P x ys p h)

  pub All-sort_by {κ} : (P : A → Type κ) (xs : List A) → All P xs → All P (sort_by xs)
  unfolding sort_by
  All-sort_by P [] h = tt
  All-sort_by P (x ∷ xs) (p, h) = All-insert_sorted P x (sort_by xs) p (All-sort_by P xs h)

  -- Every element may stand left of all that follow it.
  abbrev pub IsSorted : List A → Type 0
  IsSorted [] = Unit
  IsSorted (x ∷ xs) = All (λ y. before x y ≡ true) xs × IsSorted xs

  module _ (total : (a b : A) → before a b ≡ false → before b a ≡ true)
      (trans : (a b c : A) → before a b ≡ true → before b c ≡ true → before a c ≡ true) where
    insert_sorted-IsSorted : (x : A) (xs : List A) → IsSorted xs → IsSorted (insert_sorted x xs)
    unfolding insert_sorted
    insert_sorted-IsSorted x [] h = (tt, tt)
    insert_sorted-IsSorted x (y ∷ ys) (a, h) = elim (Bool-cases (before x y)) [
      | inl first ↦
          rw first
            ((first, All-imp (λ z. before y z ≡ true) _ ys a (λ z k. trans x y z first k)), (a, h))
      | inr later ↦ rw later (
        All-insert_sorted (λ z. before y z ≡ true) x ys (total x y later) a,
        insert_sorted-IsSorted x ys h,
      )
    ]

    pub sort_by-IsSorted : (xs : List A) → IsSorted (sort_by xs)
    unfolding sort_by
    sort_by-IsSorted [] = tt
    sort_by-IsSorted (x ∷ xs) = insert_sorted-IsSorted x (sort_by xs) (sort_by-IsSorted xs)

  -- The same for elements of which a predicate holds.
  module _ {κ} (P : A → Type κ)
      (total : (a b : A) → P a → P b → before a b ≡ false → before b a ≡ true)
      (trans : (a b c : A)
        → P a
        → P b
        → P c
        → before a b ≡ true
        → before b c ≡ true
        → before a c ≡ true) where
    All-trans :
        (x y : A) (ys : List A)
        → P x
        → P y
        → before x y ≡ true
        → All P ys
        → All (λ z. before y z ≡ true) ys
        → All (λ z. before x z ≡ true) ys
    All-trans x y [] px py first h a = tt
    All-trans x y (z ∷ zs) px py first (pz, h) (b, a) =
        (trans x y z px py pz first b, All-trans x y zs px py first h a)

    insert_sorted-IsSorted_on :
        (x : A) (xs : List A) → P x → All P xs → IsSorted xs → IsSorted (insert_sorted x xs)
    unfolding insert_sorted
    insert_sorted-IsSorted_on x [] px h s = (tt, tt)
    insert_sorted-IsSorted_on x (y ∷ ys) px (py, h) (a, s) = elim (Bool-cases (before x y)) [
      | inl first ↦ rw first ((first, All-trans x y ys px py first h a), (a, s))
      | inr later ↦ rw later (
        All-insert_sorted (λ z. before y z ≡ true) x ys (total x y px py later) a,
        insert_sorted-IsSorted_on x ys px h s,
      )
    ]

    pub sort_by-IsSorted_on : (xs : List A) → All P xs → IsSorted (sort_by xs)
    unfolding sort_by
    sort_by-IsSorted_on [] h = tt
    sort_by-IsSorted_on (x ∷ xs) (px, h) =
        insert_sorted-IsSorted_on x (sort_by xs) px (All-sort_by P xs h) (sort_by-IsSorted_on xs h)

  length-insert_sorted : (x : A) (xs : List A) → length (insert_sorted x xs) ≡ suc (length xs)
  unfolding insert_sorted
  length-insert_sorted x [] = refl
  length-insert_sorted x (y ∷ ys) = ground (arith, length-insert_sorted x ys)

  pub length-sort_by : (xs : List A) → length (sort_by xs) ≡ length xs
  unfolding sort_by
  length-sort_by [] = refl
  length-sort_by (x ∷ xs) = length-insert_sorted x (sort_by xs) ∙ ap suc (length-sort_by xs)

  length-filter-insert_sorted :
      (p : A → Bool) (x : A) (xs : List A)
      → length (filter p (insert_sorted x xs)) ≡ length (filter p (x ∷ xs))
  unfolding insert_sorted
  length-filter-insert_sorted p x [] = refl
  length-filter-insert_sorted p x (y ∷ ys) = ground (arith, length-filter-insert_sorted p x ys)

  -- Sorting keeps how often every element is there.
  pub length-filter-sort_by :
      (p : A → Bool) (xs : List A) → length (filter p (sort_by xs)) ≡ length (filter p xs)
  unfolding sort_by
  length-filter-sort_by p [] = refl
  length-filter-sort_by p (x ∷ xs) =
      ground (arith, length-filter-insert_sorted p x (sort_by xs), length-filter-sort_by p xs)
