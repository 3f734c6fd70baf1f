-- ===== src/Paths/Normal.antt =====
-- Normal paths: `normalizeRemotePath` has nothing left to do on its own result.
use shatter_nc.Prelude.{
  ℕ, ◌≡◌, refl, ◌∙◌, ap, sym, inl, inr, Bool, true, false, not, ◌&&◌, List, [], ◌∷◌, ◌++◌, map,
  arith, if◌then◌else◌, nat_beq, filter, All, All-imp, Bool-cases, all, none, some, Option,
}
use shatter_nc.Prelude.Text.{Text, text_beq, text_beq_iff}
use shatter_nc.Paths.{
  glue, split_slash, join_slash, forward, is_part, segments_of, normalize_remote_path, parent_path,
  new_path, or_root, init_parts,
}
use shatter_nc.Paths.Split.{
  is_plain, split_slash-join_slash, split_slash-plain, split_slash-snoc, join_slash-split_slash,
  init_parts-snoc,
}

-- no backslash in the text
abbrev pub is_forward : Text → Bool
is_forward = all (λ c. not (nat_beq c 92))

abbrev pub clean : Text → Bool
clean s = is_plain s && is_forward s && is_part s

map-forward-is_forward : (s : Text) → is_forward (map forward s) ≡ true
map-forward-is_forward [] = refl
map-forward-is_forward (c ∷ s) = ground (arith, map-forward-is_forward s)

map-forward-id : (s : Text) → is_forward s ≡ true → map forward s ≡ s
map-forward-id [] h = refl
map-forward-id (c ∷ s) h = ground (arith, map-forward-id s)

glue-All :
    (c : ℕ) (parts : List Text)
    → nat_beq c b'/' ≡ false
    → nat_beq c 92 ≡ false
    → All (λ p. (is_plain p && is_forward p) ≡ true) parts
    → All (λ p. (is_plain p && is_forward p) ≡ true) (glue c parts)
glue-All c [] e k h = (ground arith, tt)
glue-All c (s ∷ parts) e k (g, h) = (ground arith, h)

split_slash-All :
    (s : Text)
    → is_forward s ≡ true
    → All (λ p. (is_plain p && is_forward p) ≡ true) (split_slash s)
unfolding split_slash
split_slash-All [] h = (refl, tt)
split_slash-All (c ∷ s) h = elim (Bool-cases (nat_beq c b'/')) [
  | inl e ↦ rw e (refl, split_slash-All s (ground arith))
  | inr e ↦ rw e (glue-All c (split_slash s) e (ground arith) (split_slash-All s (ground arith)))
]

clean_of : (s : Text) → (is_plain s && is_forward s) ≡ true → is_part s ≡ true → clean s ≡ true
clean_of s g e = ground (arith, g, e)

filter-clean :
    (parts : List Text)
    → All (λ p. (is_plain p && is_forward p) ≡ true) parts
    → All (λ p. clean p ≡ true) (filter is_part parts)
filter-clean [] h = tt
filter-clean (s ∷ parts) (g, h) = elim (Bool-cases (is_part s)) [
  | inl e ↦ rw e (clean_of s g e, filter-clean parts h)
  | inr e ↦ rw e (filter-clean parts h)
]

pub segments_of-clean : (raw : Text) → All (λ p. clean p ≡ true) (segments_of raw)
unfolding segments_of
segments_of-clean raw =
    filter-clean (split_slash (map forward raw))
      (split_slash-All (map forward raw) (map-forward-is_forward raw))

is_forward-append :
    (s t : Text) → is_forward s ≡ true → is_forward t ≡ true → is_forward (s ++ t) ≡ true
is_forward-append [] t h k = k
is_forward-append (c ∷ s) t h k = ground (arith, is_forward-append s t)

join_slash-is_forward :
    (parts : List Text) → All (λ p. clean p ≡ true) parts → is_forward (join_slash parts) ≡ true
unfolding join_slash
join_slash-is_forward [] h = refl
join_slash-is_forward (s ∷ []) (g, h) = ground arith
join_slash-is_forward (s ∷ t ∷ parts) (g, h) =
    is_forward-append s (b'/' ∷ join_slash (t ∷ parts)) (ground arith)
      (join_slash-is_forward (t ∷ parts) h)

clean-plain : (s : Text) → clean s ≡ true → is_plain s ≡ true
clean-plain s h = ground arith

filter-All : (parts : List Text) → All (λ p. clean p ≡ true) parts → filter is_part parts ≡ parts
filter-All [] h = refl
filter-All (s ∷ parts) (g, h) = ground (arith, filter-All parts h)

-- the parts of a path that is put together from clean parts
pub parts-join_slash :
    (parts : List Text)
    → All (λ p. clean p ≡ true) parts
    → filter is_part (split_slash (b'/' ∷ join_slash parts)) ≡ parts
unfolding split_slash join_slash
parts-join_slash [] h = refl
parts-join_slash (s ∷ parts) h =
    ap (filter is_part) (
      split_slash-join_slash s parts
        (All-imp (λ p. clean p ≡ true) (λ p. is_plain p ≡ true) (s ∷ parts) h clean-plain))
    ∙ filter-All (s ∷ parts) h

pub segments_of-join_slash :
    (parts : List Text)
    → All (λ p. clean p ≡ true) parts
    → segments_of (b'/' ∷ join_slash parts) ≡ parts
unfolding segments_of
segments_of-join_slash parts h =
    ap (λ (s : Text). filter is_part (split_slash (b'/' ∷ s)))
      (map-forward-id (join_slash parts) (join_slash-is_forward parts h))
    ∙ parts-join_slash parts h

-- Making a normal path normal again changes nothing.
pub normalize_remote_path_idempotent :
    (raw : Option Text)
    → normalize_remote_path (some (normalize_remote_path raw)) ≡ normalize_remote_path raw
unfolding normalize_remote_path join_slash
normalize_remote_path_idempotent none =
    ap (λ (ps : List Text). b'/' ∷ join_slash ps) (segments_of-join_slash [] tt)
normalize_remote_path_idempotent (some raw) =
    ap (λ (ps : List Text). b'/' ∷ join_slash ps)
      (segments_of-join_slash (segments_of raw) (segments_of-clean raw))

up_root : (name : Text) → is_plain name ≡ true → parent_path (b'/' ∷ name) ≡ b'/' ∷ []
unfolding parent_path split_slash join_slash
up_root name h =
    ap (λ (ps : List Text). or_root (join_slash (init_parts ([] ∷ ps)))) (split_slash-plain name h)

up_from :
    (c : ℕ) (s name : Text) → is_plain name ≡ true → parent_path ((c ∷ s) ++ b'/' ∷ name) ≡ c ∷ s
unfolding parent_path
up_from c s name h =
    ap (λ (ps : List Text). or_root (join_slash (init_parts ps))) (split_slash-snoc (c ∷ s) name h)
    ∙ ap (λ (ps : List Text). or_root (join_slash ps)) (init_parts-snoc (split_slash (c ∷ s)) name)
    ∙ ap or_root (join_slash-split_slash (c ∷ s))

up :
    (base name : Text)
    → or_root base ≡ base
    → is_plain name ≡ true
    → parent_path (if text_beq base (b'/' ∷ []) then b'/' ∷ name else base ++ b'/' ∷ name) ≡ base
up [] name e h = cc
up (c ∷ s) name e h = elim (Bool-cases (text_beq (c ∷ s) (b'/' ∷ []))) [
  | inl k ↦ rw k (up_root name h ∙ sym ((text_beq_iff (c ∷ s) (b'/' ∷ [])).0 k))
  | inr k ↦ rw k (up_from c s name h)
]

or_root_idem : (s : Text) → or_root (or_root s) ≡ or_root s
or_root_idem [] = refl
or_root_idem (c ∷ s) = refl

-- Going down into a directory and up again leads back, from wherever, if the name of the directory
-- has no slash.
pub parent_path-new_path :
    (current name : Text)
    → is_plain name ≡ true
    → parent_path (new_path current name) ≡ or_root current
unfolding new_path
parent_path-new_path current name h = up (or_root current) name (or_root_idem current) h
