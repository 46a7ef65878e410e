-- ===== src/Values/Lists.antt =====
-- joinStringList and splitStringList of internal/repository/store.go: lists in one column.
use mathlib.Core.List.{reverse, reverse_aux, reverse-reverse}
use or3_sandbox.Base.{
  ℕ, Bool, true, false, not, ◌&&◌, ◌||◌, ◌≡◌, refl, ap, ◌∙◌, Text, List, [], ◌∷◌, ◌++◌, any, All,
  is_space, is_empty, trim_left, trim_space, ◌==◌, arith,
}
use or3_sandbox.Store.Columns.{join_string_list, split_commas, trim_parts, split_string_list}

-- Neither a blank nor a comma.
abbrev pub breaks : ℕ → Bool
breaks c = is_space c || c == b','

-- A word that the column can hold: not empty, without blanks and commas.
abbrev pub is_plain : Text → Bool
is_plain w = not (is_empty w) && not (any breaks w)

any-reverse_aux : (p : ℕ → Bool) (s t : Text) → any p (reverse_aux s t) ≡ (any p s || any p t)
any-reverse_aux p [] t = refl
any-reverse_aux p (c ∷ s) t = any-reverse_aux p s (c ∷ t) ∙ ground arith

pub any-reverse : (p : ℕ → Bool) (s : Text) → any p (reverse s) ≡ any p s
any-reverse p s = any-reverse_aux p s [] ∙ ground arith

any-trim_left :
    (s : Text) → any (λ c. not (is_space c)) (trim_left s) ≡ any (λ c. not (is_space c)) s
unfolding trim_left
any-trim_left [] = refl
any-trim_left (c ∷ s) = ground (arith, any-trim_left s)

any-trim_space :
    (s : Text) → any (λ c. not (is_space c)) (trim_space s) ≡ any (λ c. not (is_space c)) s
unfolding trim_space
any-trim_space s =
    any-reverse (λ c. not (is_space c)) (trim_left (reverse (trim_left s)))
    ∙ any-trim_left (reverse (trim_left s))
    ∙ any-reverse (λ c. not (is_space c)) (trim_left s)
    ∙ any-trim_left s

trim_left-solid : (s : Text) → any is_space s ≡ false → trim_left s ≡ s
unfolding trim_left
trim_left-solid [] h = refl
trim_left-solid (c ∷ s) h = ground arith

trim_space-solid : (s : Text) → any is_space s ≡ false → trim_space s ≡ s
unfolding trim_space
trim_space-solid s h =
    rw (trim_left-solid s h)
      (rw (trim_left-solid (reverse s) (any-reverse is_space s ∙ h)) (reverse-reverse s))

any-breaks :
    (s : Text) → any breaks s ≡ false → (any is_space s ≡ false) × (any (λ c. c == b',') s ≡ false)
any-breaks [] h = (refl, refl)
any-breaks (c ∷ s) h =
    let r = any-breaks s (ground arith) in (ground (arith, r.0), ground (arith, r.1))

split_commas-last : (w : Text) → any (λ c. c == b',') w ≡ false → split_commas w ≡ w ∷ []
unfolding split_commas
split_commas-last [] h = refl
split_commas-last (c ∷ w) h = rw (split_commas-last w (ground arith)) (rw (other c h) refl)
  where
    other : (c : ℕ) → (c == b',' || any (λ d. d == b',') w) ≡ false → (c == b',') ≡ false
    other c h = ground arith

split_commas-first :
    (w s : Text)
    → any (λ c. c == b',') w ≡ false
    → split_commas (w ++ (b',' ∷ s)) ≡ w ∷ split_commas s
unfolding split_commas
split_commas-first [] s h = refl
split_commas-first (c ∷ w) s h = rw (split_commas-first w s (ground arith)) (rw (other c h) refl)
  where
    other : (c : ℕ) → (c == b',' || any (λ d. d == b',') w) ≡ false → (c == b',') ≡ false
    other c h = ground arith

split_commas-join_string_list :
    (w : Text) (ws : List Text)
    → All (λ v. is_plain v ≡ true) (w ∷ ws)
    → split_commas (join_string_list (w ∷ ws)) ≡ w ∷ ws
unfolding join_string_list
split_commas-join_string_list w [] h = split_commas-last w (any-breaks w (ground (arith, h.0))).1
split_commas-join_string_list w (v ∷ ws) h =
    split_commas-first w (join_string_list (v ∷ ws)) (any-breaks w (ground (arith, h.0))).1
    ∙ ap (λ l. w ∷ l) (split_commas-join_string_list v ws h.1)

trim_parts-plain : (ws : List Text) → All (λ v. is_plain v ≡ true) ws → trim_parts ws ≡ ws
unfolding trim_parts
trim_parts-plain [] h = refl
trim_parts-plain (w ∷ ws) h =
    rw (trim_space-solid w (any-breaks w (ground (arith, h.0))).0)
      (rw (trim_parts-plain ws h.1) (ground (arith, h.0)))

solid-filled : (s : Text) → any (λ c. not (is_space c)) s ≡ true → is_empty (trim_space s) ≡ false
solid-filled s h = filled (trim_space s) (any-trim_space s ∙ h)
  where
    filled : (u : Text) → any (λ c. not (is_space c)) u ≡ true → is_empty u ≡ false
    filled [] e = cc
    filled (c ∷ u) e = refl

join_string_list-solid :
    (w : Text) (ws : List Text)
    → is_plain w ≡ true
    → any (λ c. not (is_space c)) (join_string_list (w ∷ ws)) ≡ true
unfolding join_string_list
join_string_list-solid [] ws h = cc
join_string_list-solid (c ∷ w) [] h = ground arith
join_string_list-solid (c ∷ w) (v ∷ ws) h = ground arith

-- A list of words without blanks and commas is read back from its column as it was stored; the empty
-- list too.
pub split_string_list-join_string_list :
    (ws : List Text)
    → All (λ w. is_plain w ≡ true) ws
    → split_string_list (join_string_list ws) ≡ ws
unfolding split_string_list
split_string_list-join_string_list [] h = unfold join_string_list trim_space trim_left in refl
split_string_list-join_string_list (w ∷ ws) h =
    rw (solid-filled (join_string_list (w ∷ ws)) (join_string_list-solid w ws h.0))
      (rw (split_commas-join_string_list w ws h) (trim_parts-plain (w ∷ ws) h))
