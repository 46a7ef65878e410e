-- ===== src/Values/Digits.antt =====
-- Decimal notation and strconv.ParseInt: the digits that are written are read back.
use or3_sandbox.Base.{
  ℕ, zero, suc, ◌<◌, ◌^◌, ◌/◌, ◌≤◌, false, true, not, ◌≡◌, refl, some, Text, [], ◌∷◌, any, is_empty,
  arith, pos, digit, digits_before, decimal, minus, leb, ◌==◌,
}
use or3_sandbox.Model.Cpu.{is_digit, digits_value, unsigned_value, parse_int}

digits_value-digits_before :
    (fuel n : ℕ) (w : Text)
    → n ≤ fuel
    → digits_value 0 (digits_before (suc fuel) n w) ≡ digits_value n w
unfolding digits_value digits_before
digits_value-digits_before zero n w h = ground arith
digits_value-digits_before (suc fuel) n w h =
    let ih = digits_value-digits_before fuel (n / 10) (digit n ∷ w) in ground (arith, ih)

digits_before-digits :
    (fuel n : ℕ) (w : Text)
    → any (λ c. not (is_digit c)) w ≡ false
    → any (λ c. not (is_digit c)) (digits_before fuel n w) ≡ false
unfolding digits_before
digits_before-digits zero n w h = h
digits_before-digits (suc fuel) n w h =
    let ih = digits_before-digits fuel (n / 10) (digit n ∷ w) in ground (arith, ih)

digits_before-is_empty : (fuel n c : ℕ) (w : Text) → is_empty (digits_before fuel n (c ∷ w)) ≡ false
unfolding digits_before
digits_before-is_empty zero n c w = refl
digits_before-is_empty (suc fuel) n c w =
    let ih = digits_before-is_empty fuel (n / 10) (digit n) (c ∷ w) in ground (arith, ih)

pub decimal-is_empty : (n : ℕ) → is_empty (decimal n) ≡ false
unfolding decimal digits_before
decimal-is_empty n = let h = digits_before-is_empty n (n / 10) (digit n) [] in ground (arith, h)

pub decimal-digits : (n : ℕ) → any (λ c. not (is_digit c)) (decimal n) ≡ false
unfolding decimal
decimal-digits n = digits_before-digits (suc n) n [] refl

pub digits_value-decimal : (n : ℕ) → digits_value 0 (decimal n) ≡ some n
unfolding decimal digits_value
digits_value-decimal n = digits_value-digits_before n n [] (omega arith)

pub parse_int-digits :
    (s : Text) (n : ℕ)
    → is_empty s ≡ false
    → any (λ c. not (is_digit c)) s ≡ false
    → digits_value 0 s ≡ some n
    → n < 2 ^ 63
    → parse_int s ≡ some (pos n)
unfolding parse_int unsigned_value
parse_int-digits [] n e h v m = ground arith
parse_int-digits (c ∷ s) n e h v m =
    let small : leb (2 ^ 63) n ≡ false = ground arith in
    let minus_free : (c == b'-') ≡ false = ground arith in
    let plus_free : (c == b'+') ≡ false = ground arith in rw (minus_free, plus_free, v, small) refl

pub parse_int-decimal : (n : ℕ) → n < 2 ^ 63 → parse_int (decimal n) ≡ some (pos n)
parse_int-decimal n m =
    parse_int-digits (decimal n) n (decimal-is_empty n) (decimal-digits n) (digits_value-decimal n)
      m

parse_int-minus_digits :
    (s : Text) (n : ℕ)
    → is_empty s ≡ false
    → digits_value 0 s ≡ some n
    → n < 2 ^ 63
    → parse_int (b'-' ∷ s) ≡ some (minus n)
unfolding parse_int unsigned_value
parse_int-minus_digits [] n e v m = ground arith
parse_int-minus_digits (c ∷ s) n e v m =
    let small : leb n (2 ^ 63) ≡ true = ground arith in rw (v, small) refl

pub parse_int-decimal_negative :
    (n : ℕ) → n < 2 ^ 63 → parse_int (b'-' ∷ decimal n) ≡ some (minus n)
parse_int-decimal_negative n m =
    parse_int-minus_digits (decimal n) n (decimal-is_empty n) (digits_value-decimal n) m
