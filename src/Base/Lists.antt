-- ===== src/Base/Lists.antt =====
-- Lists measured by native numbers, and the loops that the stores' queries are made of.
use Prim.Native.Nat.{ℕ, suc, ◌+◌}
use mathlib.Core.Path.{◌≡◌, refl, ap}
use mathlib.Core.Logic.{inl, inr}
use mathlib.Core.Bool.{Bool, true, false, ◌||◌}
use mathlib.Core.List.{List, [], ◌∷◌, ◌++◌}
use mathlib.Core.Option.{Option, none, some}
use native.Mathlib.Omega.{arith}
use or3_sandbox.Base.Tests.{Bool-cases, if◌then◌else◌}

module _ {ℓ} {A : Type ℓ} where
  abbrev pub length : List A → ℕ
  length [] = 0
  length (x ∷ xs) = suc (length xs)

  -- `SELECT … WHERE p`
  abbrev pub select : (A → Bool) → List A → List A
  select p [] = []
  select p (x ∷ xs) = let rest = select p xs in if p x then x ∷ rest else rest

  -- `UPDATE … SET f WHERE p`
  abbrev pub update : (A → Bool) → (A → A) → List A → List A
  update p f [] = []
  update p f (x ∷ xs) = (if p x then f x else x) ∷ update p f xs

  -- The first row for which the test holds.
  abbrev pub find : (A → Bool) → List A → Option A
  find p [] = none
  find p (x ∷ xs) = let rest = find p xs in if p x then some x else rest

  abbrev pub any : (A → Bool) → List A → Bool
  any p [] = false
  any p (x ∷ xs) = p x || any p xs

  abbrev pub sum_by : (A → ℕ) → List A → ℕ
  sum_by f [] = 0
  sum_by f (x ∷ xs) = f x + sum_by f xs

  abbrev pub All {κ} : (A → Type κ) → List A → Type κ
  All P [] = Unit
  All P (x ∷ xs) = P x × All P xs

  -- `… IS NULL`, `… == nil`
  abbrev pub is_null : Option A → Bool
  is_null none = true
  is_null (some a) = false

module _ {ℓ} {A : Type ℓ} where
  pub length-append : (xs ys : List A) → length (xs ++ ys) ≡ length xs + length ys
  length-append [] ys = omega arith
  length-append (x ∷ xs) ys = omega (arith, length-append xs ys)

  pub sum_by-append : (f : A → ℕ) (xs ys : List A) → sum_by f (xs ++ ys) ≡ sum_by f xs + sum_by f ys
  sum_by-append f [] ys = omega arith
  sum_by-append f (x ∷ xs) ys = omega (arith, sum_by-append f xs ys)

pub find-any {ℓ} :
    {A : Type ℓ} (p : A → Bool) (rows : List A) {y : A} → find p rows ≡ some y → any p rows ≡ true
find-any p [] e = cc
find-any p (x ∷ rows) {y = y} e = elim (Bool-cases (p x)) [
  | inl hit ↦ rw hit refl
  | inr miss ↦ rw miss (find-any p rows {y = y} (rw miss at e))
]

-- An update by a key leaves no row of the key without what it sets.
pub All-update {ℓ κ} :
    {A : Type ℓ} (key : A → Bool) (f : A → A) (R : A → Type κ)
    → ((x : A) → R (f x))
    → (rows : List A) → All (λ row. key row ≡ true → R row) (update key f rows)
All-update key f R r [] = tt
All-update {A = A} key f R r (x ∷ rows) = (head-row (key x) refl, All-update key f R r rows)
  where
    head-row : (b : Bool) → key x ≡ b → key (if b then f x else x) ≡ true → R (if b then f x else x)
    head-row true e h = r x
    head-row false e h = cc

abbrev get_or {ℓ} : {A : Type ℓ} → A → Option A → A
get_or a none = a
get_or a (some b) = b

pub some-injective {ℓ} : {A : Type ℓ} {a b : A} → some a ≡ some b → a ≡ b
some-injective {a = a} e = ap (λ o. get_or a o) e

-- A row that is inserted unless its key is taken.
pub some-else {ℓ} :
    {A : Type ℓ} {a b : A} (taken : Bool) → (if taken then none else some a) ≡ some b → a ≡ b
some-else true e = cc
some-else false e = some-injective e

-- Rows of no interest, one more at the end.
pub select-append_other {ℓ} :
    {A : Type ℓ} (p : A → Bool) (xs : List A) (x : A)
    → p x ≡ false
    → select p (xs ++ x ∷ []) ≡ select p xs
select-append_other p [] x h = ground (arith, h)
select-append_other p (y ∷ xs) x h = ground (arith, select-append_other p xs x h)
