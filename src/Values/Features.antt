-- ===== src/Values/Features.antt =====
-- NormalizeFeatures of internal/model/guest.go: the set of the normalised values, in strict order.
use mathlib.Core.Path.{subst}
use or3_sandbox.Base.{
  Bool, true, false, not, ◌&&◌, ◌||◌, ◌≡◌, refl, ◌∙◌, Text, List, [], ◌∷◌, any, eq_text,
  eq_text_refl, eq_text_sym, eq_text→eq, is_empty, trim_space, to_lower, arith, Bool-cases, inl,
  inr,
}
use or3_sandbox.Model.Guest.{
  ltb_text, insert_text, sort_strings, distinct_features, normalize_features,
}

-- Each text comes before the next in the byte order.
abbrev pub is_strict : List Text → Bool
is_strict [] = true
is_strict (x ∷ []) = true
is_strict (x ∷ y ∷ ys) = ltb_text x y && is_strict (y ∷ ys)

-- A value that some element of the list normalises to.
abbrev pub is_value_of : Text → List Text → Bool
is_value_of w values = any (λ raw. eq_text w (to_lower (trim_space raw))) values

ltb_text-total : (s t : Text) → ltb_text s t ≡ false → eq_text s t ≡ false → ltb_text t s ≡ true
unfolding ltb_text eq_text
ltb_text-total [] [] h e = cc
ltb_text-total [] (b ∷ t) h e = cc
ltb_text-total (a ∷ s) [] h e = refl
ltb_text-total (a ∷ s) (b ∷ t) h e = ground (arith, ltb_text-total s t)

insert_text-is_strict :
    (x : Text) (ys : List Text)
    → any (eq_text x) ys ≡ false
    → is_strict ys ≡ true
    → is_strict (insert_text x ys) ≡ true
unfolding insert_text
insert_text-is_strict x [] n h = refl
insert_text-is_strict x (y ∷ []) n h = ground (arith, ltb_text-total y x, eq_text_sym x y)
insert_text-is_strict x (y ∷ z ∷ ys) n h =
    ground (arith, insert_text-is_strict x (z ∷ ys), ltb_text-total y x, eq_text_sym x y)

any-insert_text :
    (w x : Text) (ys : List Text)
    → any (eq_text w) (insert_text x ys) ≡ (eq_text w x || any (eq_text w) ys)
unfolding insert_text
any-insert_text w x [] = refl
any-insert_text w x (y ∷ ys) = ground (arith, any-insert_text w x ys)

any-sort_strings :
    (w : Text) (xs : List Text) → any (eq_text w) (sort_strings xs) ≡ any (eq_text w) xs
unfolding sort_strings
any-sort_strings w [] = refl
any-sort_strings w (x ∷ xs) =
    any-insert_text w x (sort_strings xs) ∙ ground (arith, any-sort_strings w xs)

-- No text twice.
abbrev is_distinct : List Text → Bool
is_distinct [] = true
is_distinct (x ∷ xs) = not (any (eq_text x) xs) && is_distinct xs

sort_strings-is_strict :
    (xs : List Text) → is_distinct xs ≡ true → is_strict (sort_strings xs) ≡ true
unfolding sort_strings
sort_strings-is_strict [] h = refl
sort_strings-is_strict (x ∷ xs) h =
    insert_text-is_strict x (sort_strings xs) (any-sort_strings x xs ∙ ground arith)
      (sort_strings-is_strict xs (ground arith))

seen-absent :
    (w : Text) (seen vs : List Text)
    → any (eq_text w) seen ≡ true
    → any (eq_text w) (distinct_features seen vs) ≡ false
unfolding distinct_features
seen-absent w seen [] h = refl
seen-absent w seen (v ∷ vs) h = elim (Bool-cases (eq_text w (to_lower (trim_space v)))) [
  | inl same ↦
      let known : any (eq_text (to_lower (trim_space v))) seen ≡ true =
        subst (λ z. any (eq_text z) seen ≡ true) (eq_text→eq w (to_lower (trim_space v)) same) h in
      ground (arith, seen-absent w seen vs)
  | inr differs ↦
      ground (arith, seen-absent w seen vs, seen-absent w (to_lower (trim_space v) ∷ seen) vs)
]

distinct_features-is_distinct :
    (seen vs : List Text) → is_distinct (distinct_features seen vs) ≡ true
unfolding distinct_features
distinct_features-is_distinct seen [] = refl
distinct_features-is_distinct seen (v ∷ vs) = ground (
  arith,
  distinct_features-is_distinct seen vs,
  distinct_features-is_distinct (to_lower (trim_space v) ∷ seen) vs,
  seen-absent (to_lower (trim_space v)) (to_lower (trim_space v) ∷ seen) vs,
  eq_text_refl (to_lower (trim_space v)),
)

any-distinct_features :
    (w : Text)
    → is_empty w ≡ false
    → (seen vs : List Text)
    → (any (eq_text w) (distinct_features seen vs) || any (eq_text w) seen)
      ≡ (is_value_of w vs || any (eq_text w) seen)
unfolding distinct_features
any-distinct_features w n seen [] = refl
any-distinct_features w n seen (v ∷ vs) = elim (Bool-cases (eq_text w (to_lower (trim_space v)))) [
  | inl same ↦
      let known : any (eq_text (to_lower (trim_space v))) seen ≡ any (eq_text w) seen =
        subst (λ z. any (eq_text z) seen ≡ any (eq_text w) seen)
          (eq_text→eq w (to_lower (trim_space v)) same) refl in
      let filled : is_empty (to_lower (trim_space v)) ≡ false =
        subst (λ z. is_empty z ≡ false) (eq_text→eq w (to_lower (trim_space v)) same) n in
      ground (arith, any-distinct_features w n seen vs)
  | inr differs ↦ ground (
    arith,
    any-distinct_features w n seen vs,
    any-distinct_features w n (to_lower (trim_space v) ∷ seen) vs,
  )
]

-- NormalizeFeatures returns its values' normal forms as a set in order: a text that is not empty is in
-- the result just where some value, trimmed and in lower case, is that text; and the result is in
-- strict byte order, so that nothing stands in it twice.
pub normalize_features-is_strict :
    (w : Text) (values : List Text)
    → is_empty w ≡ false
    → (any (eq_text w) (normalize_features values) ≡ is_value_of w values)
      × (is_strict (normalize_features values) ≡ true)
unfolding normalize_features
normalize_features-is_strict w values n = (
  any-sort_strings w (distinct_features [] values)
      ∙ ground (arith, any-distinct_features w n [] values),
  sort_strings-is_strict (distinct_features [] values) (distinct_features-is_distinct [] values),
)
