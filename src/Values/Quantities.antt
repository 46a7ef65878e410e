-- ===== src/Values/Quantities.antt =====
-- CPU quantities (internal/model/cpu.go): the text of a quantity is read back.
use mathlib.Core.List.{reverse, reverse-reverse}
use or3_sandbox.Base.{
  ℕ, Bool, true, false, not, ◌≡◌, ◌∙◌, refl, ap, none, some, Text, [], ◌∷◌, ◌++◌, any, is_empty,
  ◌||◌, ◌+◌, ◌*◌, ◌^◌, ◌<◌, ◌==◌, arith, trim_left, trim_space, decimal, ℤ, pos, minus, has_prefix,
  if◌then◌else◌,
}
use or3_sandbox.Model.Cpu.{
  is_digit, without_last_m, without_m, split_dot, prepend, parse_cpu_quantity, parse_cores,
  parse_trimmed, parse_parts, plus_fraction, parse_int, add64, mul64, neg64,
}
use or3_sandbox.Values.Lists.{any-reverse}
use or3_sandbox.Values.Digits.{
  decimal-is_empty, decimal-digits, parse_int-decimal, parse_int-decimal_negative,
}
use or3_sandbox.Values.Wrapping.{mul64-pos, mul64-minus, add64-pos, add64-minus, neg64-pos}
use or3_sandbox.Values.Fractions.{
  IsFraction, fraction_digits, fraction_digits-IsFraction, parse_int-three_digits,
}

-- A character of the text of a quantity.
abbrev is_number : ℕ → Bool
is_number c = is_digit c || c == b'.' || c == b'-'

trim_left-number : (s : Text) → any (λ c. not (is_number c)) s ≡ false → trim_left s ≡ s
unfolding trim_left
trim_left-number [] h = refl
trim_left-number (c ∷ s) h = ground arith

trim_space-number : (s : Text) → any (λ c. not (is_number c)) s ≡ false → trim_space s ≡ s
unfolding trim_space
trim_space-number s h =
    ap (λ t. reverse (trim_left (reverse t))) (trim_left-number s h)
    ∙ (ap reverse (trim_left-number (reverse s) (any-reverse (λ c. not (is_number c)) s ∙ h))
        ∙ reverse-reverse s)

without_last_m-number :
    (r : Text) → any (λ c. not (is_number c)) r ≡ false → without_last_m r ≡ none
without_last_m-number [] h = refl
without_last_m-number (c ∷ r) h = ground arith

without_m-number : (s : Text) → any (λ c. not (is_number c)) s ≡ false → without_m s ≡ none
without_m-number s h =
    without_last_m-number (reverse s) (any-reverse (λ c. not (is_number c)) s ∙ h)

split_dot-digits : (s : Text) → any (λ c. not (is_digit c)) s ≡ false → split_dot s ≡ s ∷ []
unfolding split_dot
split_dot-digits [] h = refl
split_dot-digits (c ∷ s) h =
    let ih = split_dot-digits s (ground arith) in
    let d : (c == b'.') ≡ false = ground arith in rw (d, ih) refl

split_dot-point :
    (s t : Text) → any (λ c. c == b'.') s ≡ false → split_dot (s ++ (b'.' ∷ t)) ≡ s ∷ t ∷ []
unfolding split_dot
split_dot-point [] t h = refl
split_dot-point (c ∷ s) t h =
    let ih = split_dot-point s t (ground arith) in
    let d : (c == b'.') ≡ false = ground arith in rw (d, ih) refl

any-append : (p : ℕ → Bool) (s t : Text) → any p (s ++ t) ≡ (any p s || any p t)
any-append p [] t = refl
any-append p (c ∷ s) t = let ih = any-append p s t in rw ih (ground arith)

digits-number :
    (s : Text) → any (λ c. not (is_digit c)) s ≡ false → any (λ c. not (is_number c)) s ≡ false
digits-number [] h = refl
digits-number (c ∷ s) h = let ih = digits-number s in ground (arith, ih)

digits-point : (s : Text) → any (λ c. not (is_digit c)) s ≡ false → any (λ c. c == b'.') s ≡ false
digits-point [] h = refl
digits-point (c ∷ s) h = let ih = digits-point s in ground (arith, ih)

digits-has_prefix :
    (s t : Text)
    → is_empty s ≡ false
    → any (λ c. not (is_digit c)) s ≡ false
    → has_prefix (s ++ t) (b'-' ∷ []) ≡ false
unfolding has_prefix
digits-has_prefix [] t e h = ground arith
digits-has_prefix (c ∷ s) t e h = ground arith

parse_trimmed-number :
    (s : Text)
    → is_empty s ≡ false
    → any (λ c. not (is_number c)) s ≡ false
    → parse_trimmed s ≡ parse_cores (has_prefix s (b'-' ∷ [])) (split_dot s)
unfolding parse_trimmed
parse_trimmed-number s e h = rw (e, without_m-number s h) refl

-- A text without blanks and suffixes is read as a number of cores.
parse_cpu_quantity-number :
    (s : Text)
    → is_empty s ≡ false
    → any (λ c. not (is_number c)) s ≡ false
    → parse_cpu_quantity s ≡ parse_cores (has_prefix s (b'-' ∷ [])) (split_dot s)
unfolding parse_cpu_quantity
parse_cpu_quantity-number s e h =
    ap parse_trimmed (trim_space-number s h) ∙ parse_trimmed-number s e h

-- Whole cores.
pub parse_cpu_quantity-decimal :
    (w : ℕ) → w * 1_000 < 2 ^ 63 → parse_cpu_quantity (decimal w) ≡ some (pos (w * 1_000))
unfolding parse_cores parse_parts
parse_cpu_quantity-decimal w h =
    parse_cpu_quantity-number (decimal w) (decimal-is_empty w)
      (digits-number (decimal w) (decimal-digits w))
    ∙ (ap (parse_cores _) (split_dot-digits (decimal w) (decimal-digits w))
        ∙ (ap (λ r. parse_parts (has_prefix (decimal w) (b'-' ∷ [])) r [])
              (parse_int-decimal w (omega arith))
            ∙ ap some (mul64-pos w 1_000 h (omega arith))))

pub parse_cpu_quantity-decimal_negative :
    (w : ℕ) → w * 1_000 < 2 ^ 63 → parse_cpu_quantity (b'-' ∷ decimal w) ≡ some (minus (w * 1_000))
unfolding split_dot has_prefix parse_cores parse_parts
parse_cpu_quantity-decimal_negative w h =
    parse_cpu_quantity-number (b'-' ∷ decimal w) refl (digits-number (decimal w) (decimal-digits w))
    ∙ (ap (λ parts. parse_cores true (prepend b'-' parts))
          (split_dot-digits (decimal w) (decimal-digits w))
        ∙ (ap (λ r. parse_parts true r []) (parse_int-decimal_negative w (omega arith))
            ∙ ap some (mul64-minus w h)))

append-is_empty : (s t : Text) → is_empty s ≡ false → is_empty (s ++ t) ≡ false
append-is_empty [] t e = ground arith
append-is_empty (c ∷ s) t e = refl

module _ (w f : ℕ) (h : w * 1_000 + f < 2 ^ 63) (small : f < 1_000) (part : (f == 0) ≡ false) where
  fraction : IsFraction f (fraction_digits f)
  fraction = fraction_digits-IsFraction f small part

  decimal_point-number :
      any (λ c. not (is_number c)) (decimal w ++ (b'.' ∷ fraction_digits f)) ≡ false
  decimal_point-number =
      any-append _ (decimal w) (b'.' ∷ fraction_digits f)
      ∙ rw (digits-number (decimal w) (decimal-digits w))
          (digits-number (fraction_digits f) fraction.digits)

  parse_parts-fraction :
      (negative : Bool) (whole : ℤ)
      → parse_parts negative (some whole) (fraction_digits f ∷ [])
        ≡ some (add64 (mul64 whole 1_000) (if negative then neg64 (pos f) else pos f))
  unfolding parse_parts
  parse_parts-fraction negative whole =
      rw (fraction.not_empty, fraction.fits)
        (ap (λ s. plus_fraction negative (mul64 whole 1_000) (parse_int s)) fraction.padded_back
          ∙ ap (plus_fraction negative (mul64 whole 1_000)) (parse_int-three_digits f small))

  pub parse_cpu_quantity-point :
      parse_cpu_quantity (decimal w ++ (b'.' ∷ fraction_digits f)) ≡ some (pos (w * 1_000 + f))
  unfolding parse_cores
  parse_cpu_quantity-point =
      parse_cpu_quantity-number _ (append-is_empty (decimal w) _ (decimal-is_empty w))
        decimal_point-number
      ∙ (ap (parse_cores _) (
            split_dot-point (decimal w) (fraction_digits f)
              (digits-point (decimal w) (decimal-digits w)))
          ∙ (ap
                (λ r.
                  parse_parts (has_prefix (decimal w ++ (b'.' ∷ fraction_digits f)) (b'-' ∷ [])) r
                    (fraction_digits f ∷ []))
                (parse_int-decimal w (omega arith))
              ∙ (ap (λ negative. parse_parts negative (some (pos w)) (fraction_digits f ∷ []))
                    (digits-has_prefix (decimal w) (b'.' ∷ fraction_digits f) (decimal-is_empty w)
                      (decimal-digits w))
                  ∙ (parse_parts-fraction false (pos w)
                      ∙ (ap (λ a. some (add64 a (pos f)))
                            (mul64-pos w 1_000 (omega arith) (omega arith))
                          ∙ ap some (add64-pos (w * 1_000) f h))))))

  pub parse_cpu_quantity-minus_point :
      parse_cpu_quantity (b'-' ∷ (decimal w ++ (b'.' ∷ fraction_digits f)))
      ≡ some (minus (w * 1_000 + f))
  unfolding split_dot has_prefix parse_cores
  parse_cpu_quantity-minus_point =
      parse_cpu_quantity-number (b'-' ∷ (decimal w ++ (b'.' ∷ fraction_digits f))) refl
        decimal_point-number
      ∙ (ap (λ parts. parse_cores true (prepend b'-' parts))
            (split_dot-point (decimal w) (fraction_digits f)
              (digits-point (decimal w) (decimal-digits w)))
          ∙ (ap (λ r. parse_parts true r (fraction_digits f ∷ []))
                (parse_int-decimal_negative w (omega arith))
              ∙ (parse_parts-fraction true (minus w)
                  ∙ (ap (λ a. some (add64 a (neg64 (pos f)))) (mul64-minus w (omega arith))
                      ∙ (ap (λ b. some (add64 (minus (w * 1_000)) b)) (neg64-pos f (omega arith))
                          ∙ ap some (add64-minus (w * 1_000) f h))))))
