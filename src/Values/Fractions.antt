-- ===== src/Values/Fractions.antt =====
-- Thousandths (internal/model/cpu.go): three digits without their last zeros, and padded again.
use or3_sandbox.Base.{
  ℕ, ◌/◌, ◌<◌, false, not, ◌≡◌, refl, some, Text, any, is_empty, ◌==◌, arith, pos, digit,
  Bool-cases, inl, inr,
}
use or3_sandbox.Model.Cpu.{
  is_digit, digits_value, parse_int, padded, exceeds_three, three_digits, trim_zeros,
  trim_right_zeros,
}
use or3_sandbox.Values.Digits.{parse_int-digits}

unfoldable pub fraction_digits : ℕ → Text
unfolding trim_right_zeros
fraction_digits f = trim_right_zeros (three_digits (pos f))

pub record IsFraction (f : ℕ) (t : Text) : Type 0 where
  pub padded_back : padded t ≡ three_digits (pos f)
  pub not_empty : is_empty t ≡ false
  pub fits : exceeds_three t ≡ false
  pub digits : any (λ c. not (is_digit c)) t ≡ false

pub fraction_digits-IsFraction :
    (f : ℕ) → f < 1_000 → (f == 0) ≡ false → IsFraction f (fraction_digits f)
unfolding fraction_digits trim_right_zeros trim_zeros
fraction_digits-IsFraction f h p = elim (Bool-cases (digit f == b'0')) [
  | inr c ↦
      rw c (record { padded_back = refl; not_empty = refl; fits = refl; digits = ground arith })
  | inl c ↦
      let e : digit f ≡ b'0' = ground arith in
      elim (Bool-cases (digit (f / 10) == b'0')) [
        | inr b ↦
            rw (c, b)
              (record {
                padded_back = rw e refl;
                not_empty = refl;
                fits = refl;
                digits = ground arith;
              })
        | inl b ↦
            let a : (digit (f / 100) == b'0') ≡ false = ground arith in
            let e2 : digit (f / 10) ≡ b'0' = ground arith in
            rw (c, b, a)
              (record {
                padded_back = rw (e, e2) refl;
                not_empty = refl;
                fits = refl;
                digits = ground arith;
              })
      ]
]

pub parse_int-three_digits : (f : ℕ) → f < 1_000 → parse_int (three_digits (pos f)) ≡ some (pos f)
unfolding digits_value
parse_int-three_digits f h =
    parse_int-digits (three_digits (pos f)) f refl (ground arith) (ground arith) (omega arith)
