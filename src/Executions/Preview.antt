-- ===== src/Executions/Preview.antt =====
-- boundedBuffer against its contract: what it keeps of a stream is the stream's first bytes.
use or3_sandbox.Base.{
  ℕ, suc, ◌+◌, ◌-◌, ◌<◌, ◌≤◌, Bool, true, false, ◌≡◌, refl, sym, ap, ◌∙◌, Text, List, [], ◌∷◌, ◌++◌,
  length, ltb, is_empty, All, arith, length-append, ◌==◌, Bool-cases, inl, inr,
}
use mathlib.Core.Path.{subst}
use mathlib.Core.List.{append_assoc, append-nil}
use or3_sandbox.Service.Preview.{BoundedBuffer, first, write, write_all, empty_buffer}

first-all : (n : ℕ) (s : Text) → length s ≤ n → first n s ≡ s
unfolding first
first-all n [] h = refl
first-all n (c ∷ s) h = ground (arith, first-all (n - 1) s)

first-short : (n : ℕ) (s : Text) → n ≤ length s → length (first n s) ≡ n
unfolding first
first-short n [] h = omega arith
first-short n (c ∷ s) h = ground (arith, first-short (n - 1) s)

first-zero : (t : Text) → first 0 t ≡ []
unfolding first
first-zero [] = refl
first-zero (c ∷ t) = refl

first-append : (n : ℕ) (s t : Text) → first n (s ++ t) ≡ first n s ++ first (n - length s) t
unfolding first
first-append n [] t = let e : n - 0 ≡ n = omega arith in rw e refl
first-append n (c ∷ s) t = elim (Bool-cases (n == 0)) [
  | inl none_left ↦
      let e : n - suc (length s) ≡ 0 = ground arith in rw (none_left, e) (sym (first-zero t))
  | inr left ↦
      let e : n - suc (length s) ≡ (n - 1) - length s = ground arith in
      rw (left, e, first-append (n - 1) s t) refl
]

abbrev buffer : ℕ → Text → Bool → BoundedBuffer
buffer limit buf truncated = record { limit = limit; buf = buf; truncated = truncated }

-- A buffer through which `s` has gone.
abbrev pub view : ℕ → Text → BoundedBuffer
view limit s = buffer limit (first limit s) (ltb limit (length s))

length-nonempty : (p : Text) → is_empty p ≡ false → 0 < length p
length-nonempty [] h = cc
length-nonempty (c ∷ p) h = omega arith

same-view :
    (limit : ℕ) {a b : Text} {x y : Bool} → a ≡ b → x ≡ y → buffer limit a x ≡ buffer limit b y
same-view limit ea ex = rw (ea, ex) refl

-- The buffer is full: what comes next is dropped.
write-full :
    (limit : ℕ) (s p : Text)
    → is_empty p ≡ false
    → limit ≤ length s
    → write (view limit s) p ≡ view limit (s ++ p)
unfolding write
write-full limit s p h le =
    let full : limit - length (first limit s) ≡ 0 = omega (arith, first-short limit s le) in
    let over : limit - length s ≡ 0 = omega arith in
    let kept : first limit s ≡ first limit (s ++ p) =
      sym (first-append limit s p ∙ rw (over, first-zero p) (append-nil (first limit s))) in
    let cut : true ≡ ltb limit (length (s ++ p)) =
      ground (arith, length-append s p, length-nonempty p h) in
    elim (Bool-cases (limit == 0)) [
      | inl off ↦ rw off (same-view limit kept cut)
      | inr on ↦ rw (on, full) (same-view limit kept cut)
    ]

-- The buffer has room for some of what comes next, or for all of it.
write-room :
    (limit : ℕ) (s p : Text) → length s < limit → write (view limit s) p ≡ view limit (s ++ p)
unfolding write
write-room limit s p lt =
    let whole : first limit s ≡ s = first-all limit s (omega arith) in
    let on : limit == 0 ≡ false = ground arith in
    let left : (limit - length s == 0) ≡ false = ground arith in
    let both : s ++ first (limit - length s) p ≡ first limit (s ++ p) =
      sym (first-append limit s p ∙ rw whole refl) in
    let sum : length (s ++ p) ≡ length s + length p = length-append s p in
    elim (Bool-cases (ltb (limit - length s) (length p))) [
      | inl cut ↦ rw (on, whole, left, cut) (same-view limit both (rw sum (ground arith)))
      | inr fits ↦
          let all : first (limit - length s) p ≡ p =
            first-all (limit - length s) p (ground arith) in
          rw (on, whole, left, fits) (same-view limit (rw all at both) (rw sum (ground arith)))
    ]

view-write :
    (limit : ℕ) (s p : Text) → is_empty p ≡ false → write (view limit s) p ≡ view limit (s ++ p)
view-write limit s p h = elim (Bool-cases (ltb (length s) limit)) [
  | inl lt ↦ write-room limit s p (ground arith)
  | inr le ↦ write-full limit s p h (ground arith)
]

-- What the writes carry together.
abbrev pub concat : List Text → Text
concat [] = []
concat (p ∷ ps) = p ++ concat ps

write_all-view :
    (limit : ℕ) (s : Text) (ps : List Text)
    → All (λ p. is_empty p ≡ false) ps
    → write_all (view limit s) ps ≡ view limit (s ++ concat ps)
unfolding write_all
write_all-view limit s [] h = rw (append-nil s) refl
write_all-view limit s (p ∷ ps) h =
    rw (view-write limit s p h.0)
      (write_all-view limit (s ++ p) ps h.1 ∙ ap (view limit) (append_assoc s p (concat ps)))

-- However a stream is cut into writes that are not empty, an empty buffer that has taken them in holds
-- the first `limit` bytes of the stream, and is marked truncated exactly if the stream has more.
pub write_all-first :
    (limit : ℕ) (ps : List Text)
    → All (λ p. is_empty p ≡ false) ps
    → write_all (empty_buffer limit) ps ≡ record {
      limit = limit;
      buf = first limit (concat ps);
      truncated = ltb limit (length (concat ps));
    }
unfolding first
write_all-first limit ps h =
    let none_over : ltb limit 0 ≡ false = ground arith in
    let start : view limit [] ≡ empty_buffer limit = rw none_over refl in
    subst (λ b. write_all b ps ≡ view limit (concat ps)) start (write_all-view limit [] ps h)
