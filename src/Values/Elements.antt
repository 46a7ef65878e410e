-- ===== src/Values/Elements.antt =====
-- The elements of a cleaned path: what path.Clean keeps of a relative path, and in which order.
use mathlib.Core.List.{reverse_aux}
use or3_sandbox.Base.{
  Bool, true, false, not, ◌&&◌, ◌||◌, ◌≡◌, refl, ◌∙◌, Text, List, [], ◌∷◌, any, eq_text, is_empty,
  ◌==◌, arith, Bool-cases, inl, inr, if◌then◌else◌,
}
use or3_sandbox.Paths.{dot_dot, clean_step, clean_parts}

abbrev pub has_slash : Text → Bool
has_slash w = any (λ c. c == b'/') w

-- An element that `clean` keeps.
abbrev pub is_element : Text → Bool
is_element w = not (is_empty w) && not (has_slash w)

abbrev pub all_elements : List Text → Bool
all_elements [] = true
all_elements (w ∷ ws) = is_element w && all_elements ws

abbrev pub no_slashes : List Text → Bool
no_slashes [] = true
no_slashes (w ∷ ws) = not (has_slash w) && no_slashes ws

abbrev all_up : List Text → Bool
all_up [] = true
all_up (w ∷ ws) = eq_text w dot_dot && all_up ws

-- The elements kept, the last one first: below a `..` there are only others.
abbrev is_staged : List Text → Bool
is_staged [] = true
is_staged (w ∷ ws) = if eq_text w dot_dot then all_up ws else is_staged ws

abbrev pub starts_up : List Text → Bool
starts_up [] = false
starts_up (w ∷ ws) = eq_text w dot_dot

-- A path that goes up does so at its start.
abbrev pub goes_up_first : List Text → Bool
goes_up_first ws = not (any (λ w. eq_text w dot_dot) ws) || starts_up ws

all_up-is_staged : (ws : List Text) → all_up ws ≡ true → is_staged ws ≡ true
all_up-is_staged [] h = refl
all_up-is_staged (w ∷ ws) h = ground arith

starts_up-reverse_aux :
    (ws acc : List Text)
    → all_up ws ≡ true
    → starts_up acc ≡ true
    → starts_up (reverse_aux ws acc) ≡ true
starts_up-reverse_aux [] acc h a = a
starts_up-reverse_aux (w ∷ ws) acc h a =
    starts_up-reverse_aux ws (w ∷ acc) (ground arith) (ground arith)

goes_up_first-reverse_aux :
    (ws acc : List Text)
    → is_staged ws ≡ true
    → any (λ w. eq_text w dot_dot) acc ≡ false
    → goes_up_first (reverse_aux ws acc) ≡ true
goes_up_first-reverse_aux [] acc h a = ground arith
goes_up_first-reverse_aux (w ∷ ws) acc h a = elim (Bool-cases (eq_text w dot_dot)) [
  | inl up ↦ let first = starts_up-reverse_aux ws (w ∷ acc) (ground arith) up in ground arith
  | inr down ↦ goes_up_first-reverse_aux ws (w ∷ acc) (ground arith) (ground arith)
]

clean_step-is_staged :
    (kept : List Text) (w : Text)
    → has_slash w ≡ false
    → (is_staged kept && all_elements kept) ≡ true
    → (is_staged (clean_step false kept w) && all_elements (clean_step false kept w)) ≡ true
unfolding clean_step
clean_step-is_staged [] w n h = ground arith
clean_step-is_staged (top ∷ kept) w n h = ground (arith, all_up-is_staged kept)

all_elements-reverse_aux :
    (ws acc : List Text) → all_elements (reverse_aux ws acc) ≡ (all_elements ws && all_elements acc)
all_elements-reverse_aux [] acc = refl
all_elements-reverse_aux (w ∷ ws) acc = all_elements-reverse_aux ws (w ∷ acc) ∙ ground arith

-- What is kept of a relative path goes up at its start only, by elements without slashes.
pub clean_parts-goes_up_first :
    (kept ws : List Text)
    → no_slashes ws ≡ true
    → (is_staged kept && all_elements kept) ≡ true
    → (goes_up_first (clean_parts false kept ws) ≡ true)
      × (all_elements (clean_parts false kept ws) ≡ true)
unfolding clean_parts
clean_parts-goes_up_first kept [] n h = (
  goes_up_first-reverse_aux kept [] (ground arith) refl,
  all_elements-reverse_aux kept [] ∙ ground arith,
)
clean_parts-goes_up_first kept (w ∷ ws) n h =
    clean_parts-goes_up_first (clean_step false kept w) ws (ground arith)
      (clean_step-is_staged kept w (ground arith) h)
