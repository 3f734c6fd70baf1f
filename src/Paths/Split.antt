-- ===== src/Paths/Split.antt =====
-- Splitting and joining at slashes.
use mathlib.Core.Path.{ap₂}
use shatter_nc.Prelude.{
  ℕ, ◌≡◌, ◌≢◌, refl, ◌∙◌, ap, sym, inl, inr, Bool, true, not, List, [], ◌∷◌, ◌++◌, arith, nat_beq,
  All, Bool-cases, all, nat_beq_iff,
}
use shatter_nc.Prelude.Text.{Text}
use shatter_nc.Paths.{glue, split_slash, join_slash, init_parts}

-- no slash in the text
abbrev pub is_plain : Text → Bool
is_plain = all (λ c. not (nat_beq c b'/'))

glue-nonempty : (c : ℕ) (parts : List Text) → glue c parts ≢ []
glue-nonempty c [] = λ h. cc
glue-nonempty c (s ∷ parts) = λ h. cc

pub split_slash-nonempty : (s : Text) → split_slash s ≢ []
unfolding split_slash
split_slash-nonempty [] = λ h. cc
split_slash-nonempty (c ∷ s) = elim (Bool-cases (nat_beq c b'/')) [
  | inl e ↦ rw e (λ h. cc)
  | inr e ↦ rw e (glue-nonempty c (split_slash s))
]

pub split_slash-plain : (s : Text) → is_plain s ≡ true → split_slash s ≡ s ∷ []
unfolding split_slash
split_slash-plain [] h = refl
split_slash-plain (c ∷ s) h = ground (arith, split_slash-plain s)

-- a plain text before a slash is the first part
pub split_slash-cons :
    (s t : Text) → is_plain s ≡ true → split_slash (s ++ b'/' ∷ t) ≡ s ∷ split_slash t
unfolding split_slash
split_slash-cons [] t h = refl
split_slash-cons (c ∷ s) t h = ground (arith, split_slash-cons s t)

pub join_slash-glue : (c : ℕ) (parts : List Text) → join_slash (glue c parts) ≡ c ∷ join_slash parts
unfolding join_slash
join_slash-glue c [] = refl
join_slash-glue c (s ∷ []) = refl
join_slash-glue c (s ∷ t ∷ parts) = refl

join_slash-blank :
    (parts : List Text) → parts ≢ [] → join_slash ([] ∷ parts) ≡ b'/' ∷ join_slash parts
unfolding join_slash
join_slash-blank [] h = absurd (h refl)
join_slash-blank (s ∷ parts) h = refl

-- Joining undoes splitting.
pub join_slash-split_slash : (s : Text) → join_slash (split_slash s) ≡ s
unfolding split_slash join_slash
join_slash-split_slash [] = refl
join_slash-split_slash (c ∷ s) = elim (Bool-cases (nat_beq c b'/')) [
  | inl e ↦ rw e (
      join_slash-blank (split_slash s) (split_slash-nonempty s)
      ∙ ap₂ ◌∷◌ (sym ((nat_beq_iff c b'/').0 e)) (join_slash-split_slash s))
  | inr e ↦
      rw e (join_slash-glue c (split_slash s) ∙ ap (λ (r : Text). c ∷ r) (join_slash-split_slash s))
]

-- Splitting undoes joining, for parts with no slash.
pub split_slash-join_slash :
    (s : Text) (parts : List Text)
    → All (λ p. is_plain p ≡ true) (s ∷ parts)
    → split_slash (join_slash (s ∷ parts)) ≡ s ∷ parts
unfolding join_slash
split_slash-join_slash s [] (h, k) = split_slash-plain s h
split_slash-join_slash s (t ∷ parts) (h, k) =
    split_slash-cons s (join_slash (t ∷ parts)) h
    ∙ ap (λ (r : List Text). s ∷ r) (split_slash-join_slash t parts k)

glue-snoc :
    (c : ℕ) (parts more : List Text) → parts ≢ [] → glue c (parts ++ more) ≡ glue c parts ++ more
glue-snoc c [] more h = absurd (h refl)
glue-snoc c (s ∷ parts) more h = refl

-- a last part more, where it has no slash
pub split_slash-snoc :
    (s name : Text)
    → is_plain name ≡ true
    → split_slash (s ++ b'/' ∷ name) ≡ split_slash s ++ name ∷ []
unfolding split_slash
split_slash-snoc [] name h = ap (λ (r : List Text). [] ∷ r) (split_slash-plain name h)
split_slash-snoc (c ∷ s) name h = elim (Bool-cases (nat_beq c b'/')) [
  | inl e ↦ rw (e, split_slash-snoc s name h) refl
  | inr e ↦
      rw (e, split_slash-snoc s name h)
        (glue-snoc c (split_slash s) (name ∷ []) (split_slash-nonempty s))
]

-- `slice(0, -1)` takes the last part away again
pub init_parts-snoc : (parts : List Text) (s : Text) → init_parts (parts ++ s ∷ []) ≡ parts
init_parts-snoc [] s = refl
init_parts-snoc (t ∷ []) s = refl
init_parts-snoc (t ∷ u ∷ parts) s = ap (λ (r : List Text). t ∷ r) (init_parts-snoc (u ∷ parts) s)
