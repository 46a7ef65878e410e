-- ===== src/Base/Decimal.antt =====
-- Decimal notation of integers: Go's `%d` and strconv.Itoa.
use Prim.Native.Nat.{ℕ, zero, suc, ◌+◌, ◌/◌, ◌%◌}
use mathlib.Core.List.{[], ◌∷◌}
use or3_sandbox.Base.Tests.{ltb, if◌then◌else◌}
use or3_sandbox.Base.Strings.{Text}
use or3_sandbox.Base.Int.{ℤ, pos, negsuc}

abbrev pub digit : ℕ → ℕ
digit n = b'0' + n % 10

-- The digits of `n` before the digits that are written already.
unfoldable pub digits_before : ℕ → ℕ → Text → Text
digits_before zero n written = written
digits_before (suc fuel) n written =
    let rest = digits_before fuel (n / 10) (digit n ∷ written) in
    if ltb n 10 then digit n ∷ written else rest

-- A number has at most as many digits as it counts, and one more for 0.
unfoldable pub decimal : ℕ → Text
unfolding digits_before
decimal n = digits_before (suc n) n []

unfoldable pub decimal_int : ℤ → Text
unfolding decimal
decimal_int (pos n) = decimal n
decimal_int (negsuc n) = b'-' ∷ decimal (suc n)
