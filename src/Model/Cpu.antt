-- ===== src/Model/Cpu.antt =====
-- internal/model/cpu.go: CPU quantities in thousandths of a core, and their texts. A quantity is an
-- int64; an error of the parser is `none`.
use mathlib.Core.List.{reverse}
use or3_sandbox.Base.{
  ℕ, Bool, true, false, ◌||◌, ◌&&◌, Option, none, some, Text, List, [], ◌∷◌, ◌++◌, suc, ◌+◌, ◌-◌,
  ◌*◌, ◌/◌, ◌%◌, ◌^◌, leb, ◌==◌, if◌then◌else◌, is_empty, trim_space, has_prefix, ℤ, pos, negsuc,
  signed64, minus, decimal_int, digit,
}

-- The bits of an int64, and its operations, which wrap around.
abbrev pub bits64 : ℤ → ℕ
bits64 (pos n) = n % 2 ^ 64
bits64 (negsuc n) = 2 ^ 64 - 1 - n % 2 ^ 64

abbrev pub add64 : ℤ → ℤ → ℤ
add64 a b = signed64 ((bits64 a + bits64 b) % 2 ^ 64)

abbrev pub mul64 : ℤ → ℕ → ℤ
mul64 a k = signed64 ((bits64 a * k) % 2 ^ 64)

abbrev pub neg64 : ℤ → ℤ
neg64 a = signed64 ((2 ^ 64 - bits64 a) % 2 ^ 64)

-- Go's `/` and `%` round towards zero.
abbrev pub quot : ℤ → ℕ → ℤ
quot (pos n) k = pos (n / k)
quot (negsuc n) k = minus (suc n / k)

abbrev pub rem : ℤ → ℕ → ℤ
rem (pos n) k = pos (n % k)
rem (negsuc n) k = minus (suc n % k)

abbrev pub is_digit : ℕ → Bool
is_digit c = leb b'0' c && leb c b'9'

unfoldable pub digits_value : ℕ → Text → Option ℕ
digits_value n [] = some n
digits_value n (c ∷ s) =
    let rest = digits_value (n * 10 + (c - b'0')) s in if is_digit c then rest else none

abbrev pub signed_value : Bool → Option ℕ → Option ℤ
signed_value negative none = none
signed_value true (some n) = if leb n (2 ^ 63) then some (minus n) else none
signed_value false (some n) = if leb (2 ^ 63) n then none else some (pos n)

unfoldable pub unsigned_value : Text → Option ℕ
unfolding digits_value
unsigned_value [] = none
unsigned_value (c ∷ s) = digits_value 0 (c ∷ s)

-- strconv.ParseInt(s, 10, 64)
unfoldable pub parse_int : Text → Option ℤ
unfolding unsigned_value
parse_int [] = none
parse_int (c ∷ s) =
    if c == b'-'
    then signed_value true (unsigned_value s)
    else if c == b'+'
    then signed_value false (unsigned_value s)
    else signed_value false (unsigned_value (c ∷ s))

abbrev pub prepend : ℕ → List Text → List Text
prepend c [] = []
prepend c (first ∷ parts) = (c ∷ first) ∷ parts

-- strings.SplitN(s, ".", 2)
unfoldable pub split_dot : Text → List Text
split_dot [] = [] ∷ []
split_dot (c ∷ s) = let rest = split_dot s in if c == b'.' then [] ∷ s ∷ [] else prepend c rest

-- A reversed text without its first "m", when it has one.
abbrev pub without_last_m : Text → Option Text
without_last_m [] = none
without_last_m (c ∷ r) = if c == b'm' then some (reverse r) else none

-- strings.HasSuffix(s, "m"), and then strings.TrimSuffix(s, "m")
abbrev pub without_m : Text → Option Text
without_m s = without_last_m (reverse s)

-- The loop that appends "0" until there are three digits.
abbrev pub padded : Text → Text
padded [] = b'0' ∷ b'0' ∷ b'0' ∷ []
padded (a ∷ []) = a ∷ b'0' ∷ b'0' ∷ []
padded (a ∷ b ∷ []) = a ∷ b ∷ b'0' ∷ []
padded (a ∷ b ∷ c ∷ s) = a ∷ b ∷ c ∷ s

abbrev pub exceeds_three : Text → Bool
exceeds_three (a ∷ b ∷ c ∷ d ∷ s) = true
exceeds_three _ = false

abbrev pub plus_fraction : Bool → ℤ → Option ℤ → Option ℤ
plus_fraction negative millis none = none
plus_fraction negative millis (some f) = some (add64 millis (if negative then neg64 f else f))

-- The parts of a quantity in cores.
unfoldable pub parse_parts : Bool → Option ℤ → List Text → Option ℤ
unfolding parse_int
parse_parts negative none parts = none
parse_parts negative (some whole) [] = some (mul64 whole 1_000)
parse_parts negative (some whole) (fractional ∷ _) =
    if is_empty fractional || exceeds_three fractional
    then none
    else plus_fraction negative (mul64 whole 1_000) (parse_int (padded fractional))

unfoldable pub parse_cores : Bool → List Text → Option ℤ
unfolding parse_int parse_parts
parse_cores negative [] = none
parse_cores negative (whole ∷ parts) = parse_parts negative (parse_int whole) parts

-- A text without blanks at its ends.
unfoldable pub parse_trimmed : Text → Option ℤ
unfolding has_prefix parse_int split_dot parse_cores
parse_trimmed trimmed = if is_empty trimmed then none else elim (without_m trimmed) [
  | some millis ↦ parse_int millis
  | none ↦ parse_cores (has_prefix trimmed (b'-' ∷ [])) (split_dot trimmed)
]

-- func ParseCPUQuantity
unfoldable pub parse_cpu_quantity : Text → Option ℤ
unfolding trim_space parse_trimmed
parse_cpu_quantity value = parse_trimmed (trim_space value)

-- `%03d`, of a remainder by 1000
abbrev pub three_digits : ℤ → Text
three_digits (pos n) = digit (n / 100) ∷ digit (n / 10) ∷ digit n ∷ []
three_digits (negsuc n) =
    let low = digit (suc n / 10) ∷ digit (suc n) ∷ [] in
    b'-' ∷ (if leb 100 (suc n) then digit (suc n / 100) ∷ low else low)

unfoldable pub trim_zeros : Text → Text
trim_zeros [] = []
trim_zeros (c ∷ s) = let rest = trim_zeros s in if c == b'0' then rest else c ∷ s

-- strings.TrimRight(s, "0")
unfoldable pub trim_right_zeros : Text → Text
unfolding trim_zeros
trim_right_zeros s = reverse (trim_zeros (reverse s))

abbrev pub magnitude : ℤ → ℕ
magnitude (pos n) = n
magnitude (negsuc n) = suc n

abbrev pub is_negative : ℤ → Bool
is_negative (pos n) = false
is_negative (negsuc n) = true

-- The sign, the whole cores and the fraction of a quantity that is not whole.
unfoldable pub fraction_text : Text → ℤ → Text
unfolding decimal_int trim_right_zeros
fraction_text sign value =
    sign
    ++ (decimal_int (quot value 1_000)
        ++ (b'.' ∷ trim_right_zeros (three_digits (rem value 1_000))))

-- func (CPUQuantity) String
unfoldable pub cpu_string : ℤ → Text
unfolding decimal_int fraction_text
cpu_string q =
    if magnitude q % 1_000 == 0
    then decimal_int (quot q 1_000)
    else if is_negative q
    then fraction_text (b'-' ∷ []) (neg64 q)
    else fraction_text [] q

-- func CPUCores
abbrev pub cpu_cores : ℤ → ℤ
cpu_cores value = mul64 value 1_000
