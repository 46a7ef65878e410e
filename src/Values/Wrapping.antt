-- ===== src/Values/Wrapping.antt =====
-- The int64 operations of internal/model/cpu.go where they do not wrap around.
use or3_sandbox.Base.{ℕ, suc, ◌+◌, ◌*◌, ◌%◌, ◌^◌, ◌<◌, ◌≡◌, pos, negsuc, minus, signed64, arith}
use or3_sandbox.Model.Cpu.{add64, mul64, neg64}

signed64-pos : (n : ℕ) → n < 2 ^ 63 → signed64 n ≡ pos n
signed64-pos n h = ground arith

pub mul64-pos : (w k : ℕ) → w * k < 2 ^ 63 → w < 2 ^ 63 → mul64 (pos w) k ≡ pos (w * k)
mul64-pos w k h b =
    let m : w % 2 ^ 64 ≡ w = omega arith in
    rw m (let e : (w * k) % 2 ^ 64 ≡ w * k = omega arith in rw e (signed64-pos (w * k) h))

pub add64-pos : (a f : ℕ) → a + f < 2 ^ 63 → add64 (pos a) (pos f) ≡ pos (a + f)
add64-pos a f h =
    let m : (a % 2 ^ 64 + f % 2 ^ 64) % 2 ^ 64 ≡ a + f = omega arith in
    rw m (signed64-pos (a + f) h)

pub neg64-pos : (n : ℕ) → n < 2 ^ 63 → neg64 (pos n) ≡ minus n
neg64-pos n h = ground arith

pub neg64-negsuc : (n : ℕ) → suc n < 2 ^ 63 → neg64 (negsuc n) ≡ pos (suc n)
neg64-negsuc n h = ground arith

pub mul64-minus : (w : ℕ) → w * 1_000 < 2 ^ 63 → mul64 (minus w) 1_000 ≡ minus (w * 1_000)
mul64-minus w h = ground arith

pub add64-minus : (a f : ℕ) → a + f < 2 ^ 63 → add64 (minus a) (minus f) ≡ minus (a + f)
add64-minus a f h = ground arith
