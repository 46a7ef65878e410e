-- ===== src/Service/Preview.antt =====
-- boundedBuffer of internal/service/util.go: the first bytes of a stream, and whether there were more.
use or3_sandbox.Base.{
  ℕ, ◌-◌, Bool, true, false, Text, List, [], ◌∷◌, ◌++◌, length, ltb, ◌==◌, if◌then◌else◌,
}

pub record BoundedBuffer : Type 0 where
  pub limit : ℕ
  pub buf : Text
  pub truncated : Bool

-- `p[:n]`
unfoldable pub first : ℕ → Text → Text
first n [] = []
first n (c ∷ s) = let rest = first (n - 1) s in if n == 0 then [] else c ∷ rest

-- func (boundedBuffer) Write, which reports every byte as written
unfoldable pub write : BoundedBuffer → Text → BoundedBuffer
unfolding first
write b p =
    let remaining = b.limit - length b.buf in
    if b.limit == 0
    then record b { truncated = true }
    else if remaining == 0
    then record b { truncated = true }
    else if ltb remaining (length p)
    then record b { buf = b.buf ++ first remaining p; truncated = true }
    else record b { buf = b.buf ++ p }

unfoldable pub write_all : BoundedBuffer → List Text → BoundedBuffer
unfolding write
write_all b [] = b
write_all b (p ∷ ps) = write_all (write b p) ps

abbrev pub empty_buffer : ℕ → BoundedBuffer
empty_buffer limit = record { limit = limit; buf = []; truncated = false }
