-- ===== src/Base/Int.antt =====
-- Signed 64-bit integers: Go's `int` and `int64`.
use Prim.Native.Nat.{ℕ, suc, ◌+◌, ◌-◌, ◌/◌, ◌%◌, ◌^◌, ◌≤◌, ◌<◌}
use mathlib.Core.Bool.{Bool, false}
use mathlib.Core.Path.{◌≡◌}
use native.Mathlib.Omega.{arith}
use or3_sandbox.Base.Tests.{ltb, leb, ◌==◌, if◌then◌else◌}

-- `negsuc n` is -(n + 1).
pub data ℤ : Type 0 where
  pos : ℕ → ℤ
  negsuc : ℕ → ℤ

abbrev pub pos_part : ℤ → ℕ
pos_part (pos n) = n
pos_part (negsuc n) = 0

abbrev pub neg_part : ℤ → ℕ
neg_part (pos n) = 0
neg_part (negsuc n) = suc n

-- a < b
abbrev pub ltb_ℤ : ℤ → ℤ → Bool
ltb_ℤ a b = ltb (pos_part a + neg_part b) (pos_part b + neg_part a)

-- The signed value of a 64-bit pattern.
abbrev pub signed64 : ℕ → ℤ
signed64 n = if ltb n (2 ^ 63) then pos n else negsuc (2 ^ 64 - n - 1)

-- `a + b > limit` on int64: the sum wraps around.
abbrev pub exceeds64 : ℕ → ℕ → ℕ → Bool
exceeds64 a b limit = ltb_ℤ (pos limit) (signed64 ((a + b) % 2 ^ 64))

-- Below 2 ^ 63 the comparison of the 64-bit sum is that of the sum.
pub exceeds64-exact : (a b limit : ℕ) → a + b < 2 ^ 63 → exceeds64 a b limit ≡ false → a + b ≤ limit
exceeds64-exact a b limit h e = let m : (a + b) % 2 ^ 64 ≡ a + b = omega arith in ground arith

pub exceeds64-ltb : (a b limit : ℕ) → a + b < 2 ^ 63 → exceeds64 a b limit ≡ ltb limit (a + b)
exceeds64-ltb a b limit h = let m : (a + b) % 2 ^ 64 ≡ a + b = omega arith in ground arith

pub exceeds64-wraps :
    (a b limit : ℕ) → a < 2 ^ 63 → b < 2 ^ 63 → 2 ^ 63 ≤ a + b → exceeds64 a b limit ≡ false
exceeds64-wraps a b limit ha hb h = let m : (a + b) % 2 ^ 64 ≡ a + b = omega arith in ground arith

abbrev pub minus : ℕ → ℤ
minus n = if n == 0 then pos 0 else negsuc (n - 1)

-- `b.Sub(a).Milliseconds()` on times in nanoseconds: rounded towards zero.
abbrev pub milliseconds : ℕ → ℕ → ℤ
milliseconds a b = if leb a b then pos ((b - a) / 1_000_000) else minus ((a - b) / 1_000_000)
