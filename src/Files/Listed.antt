-- ===== src/Files/Listed.antt =====
-- The listing holds what the search finds, directories first.
use shatter_nc.Prelude.{
  ◌≡◌, refl, ◌∙◌, ap, Bool, true, false, not, ◌&&◌, ◌||◌, List, [], ◌∷◌, ◌++◌, if◌then◌else◌,
  filter, any, arith, All, All-imp, inl, inr, Bool-cases,
}
use shatter_nc.Prelude.Sort.{sort_by, IsSorted, any-sort_by, All-sort_by}
use shatter_nc.Prelude.Text.{Text, codes, text_beq, to_lower, trim}
use shatter_nc.Files.{
  Program, SortBy, SortDirection, Comparison, matches_search, searched, program_before,
  parent_entry, display_programs,
}

-- no directory stands after a file
abbrev pub directory_first : Program → Program → Bool
directory_first a b = a.is_directory || not b.is_directory

-- the search box is blank, or the entry matches it
abbrev pub is_found : Text → Program → Bool
is_found search_query p =
    text_beq (trim search_query) [] || matches_search (to_lower search_query) p

any-append {ℓ} :
    {A : Type ℓ} (f : A → Bool) (xs ys : List A) → any f (xs ++ ys) ≡ (any f xs || any f ys)
any-append f [] ys = refl
any-append f (x ∷ xs) ys = ground (arith, any-append f xs ys)

either : {a b c d : Bool} → a ≡ b → c ≡ d → (a || c) ≡ (b || d)
either h k = cc (h, k)

any-split {ℓ} :
    {A : Type ℓ} (f p : A → Bool) (xs : List A)
    → (any f (filter p xs) || any f (filter (λ x. not (p x)) xs)) ≡ any f xs
any-split f p [] = refl
any-split f p (x ∷ xs) = ground (arith, any-split f p xs)

any-filter {ℓ} :
    {A : Type ℓ} (f p : A → Bool) (xs : List A) → any f (filter p xs) ≡ any (λ x. p x && f x) xs
any-filter f p [] = refl
any-filter f p (x ∷ xs) = ground (arith, any-filter f p xs)

any-searched_by :
    (f p : Program → Bool) (b : Bool) (xs : List Program)
    → any f (if b then xs else filter p xs) ≡ any (λ x. (b || p x) && f x) xs
any-searched_by f p true xs = refl
any-searched_by f p false xs = any-filter f p xs

All-filter {ℓ} : {A : Type ℓ} (p : A → Bool) (xs : List A) → All (λ x. p x ≡ true) (filter p xs)
All-filter p [] = tt
All-filter p (x ∷ xs) = elim (Bool-cases (p x)) [
  | inl e ↦ rw e (e, All-filter p xs)
  | inr e ↦ rw e (All-filter p xs)
]

directories-IsSorted :
    (ds : List Program)
    → All (λ (p : Program). p.is_directory ≡ true) ds
    → IsSorted directory_first ds
directories-IsSorted [] h = tt
directories-IsSorted (d ∷ ds) (e, h) =
    (All-imp _ _ ds h (λ q k. ground arith), directories-IsSorted ds h)

files-IsSorted :
    (ds fs : List Program)
    → All (λ (p : Program). p.is_directory ≡ true) ds
    → All (λ (p : Program). not p.is_directory ≡ true) fs
    → IsSorted directory_first (ds ++ fs)
files-IsSorted [] [] h k = tt
files-IsSorted [] (f ∷ fs) h (e, k) =
    (All-imp _ _ fs k (λ q i. ground arith), files-IsSorted [] fs h k)
files-IsSorted (d ∷ ds) fs (e, h) k = (before (ds ++ fs), files-IsSorted ds fs h k)
  where
    before : (ps : List Program) → All (λ q. directory_first d q ≡ true) ps
    before [] = tt
    before (p ∷ ps) = (ground arith, before ps)

module _ (locale_compare : Text → Text → Comparison) (programs : List Program) (search_query : Text)
    (by : SortBy) (direction : SortDirection) where
  -- the sorted directories, and the sorted files after them
  abbrev sorted : List Program
  sorted =
      sort_by (program_before locale_compare by direction)
        (filter (λ (p : Program). p.is_directory) (searched search_query programs))
      ++ sort_by (program_before locale_compare by direction)
          (filter (λ (p : Program). not p.is_directory) (searched search_query programs))

  any-sorted :
      (f : Program → Bool) → any f sorted ≡ any (λ p. is_found search_query p && f p) programs
  any-sorted f =
      let found = searched search_query programs in
      let before = program_before locale_compare by direction in
      let split = any-split f (λ (p : Program). p.is_directory) found in
      let ds = any-sort_by before f (filter (λ (p : Program). p.is_directory) found) in
      let fs = any-sort_by before f (filter (λ (p : Program). not p.is_directory) found) in
      let searching =
        any-searched_by f (matches_search (to_lower search_query)) (text_beq (trim search_query) [])
          programs in
      any-append f (sort_by before (filter (λ (p : Program). p.is_directory) found))
        (sort_by before (filter (λ (p : Program). not p.is_directory) found))
      ∙ either ds fs
      ∙ split
      ∙ searching

  sorted-IsSorted : IsSorted directory_first sorted
  sorted-IsSorted =
      let found = searched search_query programs in
      let before = program_before locale_compare by direction in
      files-IsSorted (sort_by before (filter (λ (p : Program). p.is_directory) found))
        (sort_by before (filter (λ (p : Program). not p.is_directory) found))
        (All-sort_by before _ _ (All-filter (λ (p : Program). p.is_directory) found))
        (All-sort_by before _ _ (All-filter (λ (p : Program). not p.is_directory) found))

  listed-by :
      (root : Bool) (f : Program → Bool)
      → (any f (if root then sorted else parent_entry ∷ sorted)
          ≡ ((not root && f parent_entry) || any (λ p. is_found search_query p && f p) programs))
        × IsSorted directory_first (if root then sorted else parent_entry ∷ sorted)
  listed-by true f = (any-sorted f, sorted-IsSorted)
  listed-by false f =
      (ap (λ b. f parent_entry || b) (any-sorted f), (parent-before sorted, sorted-IsSorted))
    where
      parent-before : (ps : List Program) → All (λ q. directory_first parent_entry q ≡ true) ps
      parent-before [] = tt
      parent-before (p ∷ ps) = (refl, parent-before ps)

  -- For every test of an entry, the listing has an entry that passes it exactly if a program that the
  -- search finds does, or the entry of the parent directory, which is listed below the root only. No
  -- directory is listed after a file. So it is for every way to sort and every order of names.
  pub display_programs-listed :
      (f : Program → Bool) (current_path : Text)
      → (any f (display_programs locale_compare programs search_query by direction current_path) ≡ (
          (not (text_beq current_path (codes "/")) && f parent_entry)
          || any (λ p. is_found search_query p && f p) programs))
        × IsSorted directory_first
            (display_programs locale_compare programs search_query by direction current_path)
  unfolding display_programs
  display_programs-listed f current_path = listed-by (text_beq current_path (codes "/")) f
