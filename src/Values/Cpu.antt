-- ===== src/Values/Cpu.antt =====
-- internal/model/cpu.go: String and ParseCPUQuantity.
use or3_sandbox.Base.{
  ℕ, zero, suc, ◌+◌, ◌-◌, ◌*◌, ◌/◌, ◌%◌, ◌^◌, ◌<◌, true, false, Bool-cases, inl, inr, ◌≡◌, ◌∙◌,
  refl, ap, some, ◌∷◌, ◌++◌, ◌==◌, arith, decimal, decimal_int, ℤ, pos, negsuc, minus,
}
use or3_sandbox.Model.Cpu.{parse_cpu_quantity, cpu_string, fraction_text, magnitude}
use or3_sandbox.Values.Wrapping.{neg64-negsuc}
use or3_sandbox.Values.Fractions.{fraction_digits}
use or3_sandbox.Values.Quantities.{
  parse_cpu_quantity-decimal, parse_cpu_quantity-decimal_negative, parse_cpu_quantity-point,
  parse_cpu_quantity-minus_point,
}

decimal_int-minus : (k : ℕ) → (k == 0) ≡ false → decimal_int (minus k) ≡ b'-' ∷ decimal k
unfolding decimal_int
decimal_int-minus zero h = ground arith
decimal_int-minus (suc k) h = let e : suc k - 1 ≡ k = omega arith in rw (h, e) refl

cpu_string-whole : (n : ℕ) → (n % 1_000 == 0) ≡ true → cpu_string (pos n) ≡ decimal (n / 1_000)
unfolding cpu_string decimal_int
cpu_string-whole n h = rw h refl

cpu_string-minus_whole :
    (n : ℕ) → (suc n % 1_000 == 0) ≡ true → cpu_string (negsuc n) ≡ b'-' ∷ decimal (suc n / 1_000)
unfolding cpu_string
cpu_string-minus_whole n h = rw h (decimal_int-minus (suc n / 1_000) (ground arith))

cpu_string-point :
    (n : ℕ)
    → (n % 1_000 == 0) ≡ false
    → cpu_string (pos n) ≡ decimal (n / 1_000) ++ (b'.' ∷ fraction_digits (n % 1_000))
unfolding cpu_string fraction_text decimal_int fraction_digits
cpu_string-point n h = rw h refl

cpu_string-minus_point :
    (n : ℕ)
    → suc n < 2 ^ 63
    → (suc n % 1_000 == 0) ≡ false
    → cpu_string (negsuc n)
      ≡ b'-' ∷ (decimal (suc n / 1_000) ++ (b'.' ∷ fraction_digits (suc n % 1_000)))
unfolding cpu_string fraction_text decimal_int fraction_digits
cpu_string-minus_point n m h = rw (h, neg64-negsuc n m) refl

-- A quantity whose magnitude is below 2 ^ 63 (every int64 but the least) is read back from its text:
-- ParseCPUQuantity of String is the quantity, whole or not, negative or not.
pub parse_cpu_quantity-cpu_string :
    (q : ℤ) → magnitude q < 2 ^ 63 → parse_cpu_quantity (cpu_string q) ≡ some q
parse_cpu_quantity-cpu_string (pos n) h = elim (Bool-cases (n % 1_000 == 0)) [
  | inl whole ↦
      let e : n / 1_000 * 1_000 ≡ n = ground arith in
      ap parse_cpu_quantity (cpu_string-whole n whole)
      ∙ (parse_cpu_quantity-decimal (n / 1_000) (omega arith) ∙ ap (λ m. some (pos m)) e)
  | inr part ↦
      let e : n / 1_000 * 1_000 + n % 1_000 ≡ n = ground arith in
      ap parse_cpu_quantity (cpu_string-point n part)
      ∙ (parse_cpu_quantity-point (n / 1_000) (n % 1_000) (omega arith) (omega arith) part
          ∙ ap (λ m. some (pos m)) e)
]
parse_cpu_quantity-cpu_string (negsuc n) h = elim (Bool-cases (suc n % 1_000 == 0)) [
  | inl whole ↦
      let e : minus (suc n / 1_000 * 1_000) ≡ negsuc n = ground arith in
      ap parse_cpu_quantity (cpu_string-minus_whole n whole)
      ∙ (parse_cpu_quantity-decimal_negative (suc n / 1_000) (omega arith) ∙ ap some e)
  | inr part ↦
      let e : minus (suc n / 1_000 * 1_000 + suc n % 1_000) ≡ negsuc n = ground arith in
      ap parse_cpu_quantity (cpu_string-minus_point n h part)
      ∙ (parse_cpu_quantity-minus_point (suc n / 1_000) (suc n % 1_000) (omega arith) (omega arith)
            part
          ∙ ap some e)
]
