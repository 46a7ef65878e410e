-- ===== src/Isolation/Rows.antt =====
-- The rows of one tenant, of the others, and sandbox ids as a primary key.
use mathlib.Core.Path.{subst}
use or3_sandbox.Base.{
  Bool, true, false, not, ◌||◌, ◌≡◌, refl, Text, List, [], ◌∷◌, ◌++◌, none, some, eq_text,
  eq_text_sym, eq_text→eq, update, select, find, any, if◌then◌else◌, arith, Bool-cases,
  some-injective, inl, inr, ◌∙◌,
}
use or3_sandbox.Model.Records.{Sandbox}
use or3_sandbox.Store.Sandboxes.{has_id, has_key}

abbrev pub is_foreign : Text → Sandbox → Bool
is_foreign t row = not (eq_text row.tenant_id t)

-- Sandbox ids are a primary key.
abbrev pub Distinct : List Sandbox → Type 0
Distinct [] = Unit {0}
Distinct (x ∷ xs) = (any (has_id x.id) xs ≡ false) × Distinct xs

-- An update that leaves the key and the owner of a row alone.
pub record KeepsKey (f : Sandbox → Sandbox) : Type 0 where
  pub id : (x : Sandbox) → (f x).id ≡ x.id
  pub tenant : (x : Sandbox) → (f x).tenant_id ≡ x.tenant_id

pub any-update :
    (p : Sandbox → Bool) (f : Sandbox → Sandbox)
    → KeepsKey f
    → (k : Text) (xs : List Sandbox) → any (has_id k) (update p f xs) ≡ any (has_id k) xs
any-update p f kf k [] = refl
any-update p f kf k (x ∷ xs) = ground (arith, any-update p f kf k xs, kf.id x)

pub Distinct-update :
    (p : Sandbox → Bool) (f : Sandbox → Sandbox)
    → KeepsKey f
    → (xs : List Sandbox) → Distinct xs
    → Distinct (update p f xs)
Distinct-update p f kf [] d = tt
Distinct-update p f kf (x ∷ xs) d =
    (head-update (p x) (f x) (kf.id x), Distinct-update p f kf xs d.1)
  where
    head-update :
        (b : Bool) (y : Sandbox)
        → y.id ≡ x.id
        → any (has_id (if b then y else x).id) (update p f xs) ≡ false
    head-update true y e = rw e (any-update p f kf x.id xs ∙ d.0)
    head-update false y e = any-update p f kf x.id xs ∙ d.0

pub any-append :
    (p : Sandbox → Bool) (xs ys : List Sandbox) → any p (xs ++ ys) ≡ (any p xs || any p ys)
any-append p [] ys = refl
any-append p (x ∷ xs) ys = ground (arith, any-append p xs ys)

pub any-select :
    (k : Text) (p : Sandbox → Bool) (xs : List Sandbox)
    → any (has_id k) xs ≡ false
    → any (has_id k) (select p xs) ≡ false
any-select k p [] h = refl
any-select k p (x ∷ xs) h = ground (arith, any-select k p xs)

pub find-none :
    (t k : Text) (xs : List Sandbox) → any (has_id k) xs ≡ false → find (has_key t k) xs ≡ none
find-none t k [] h = refl
find-none t k (x ∷ xs) h = ground (arith, find-none t k xs)

-- The row that a tenant's key finds shares its id with no other tenant's row.
pub find-free :
    (t k : Text) (xs : List Sandbox) {x : Sandbox}
    → Distinct xs
    → find (has_key t k) xs ≡ some x
    → any (has_id k) (select (is_foreign t) xs) ≡ false
find-free t k [] d e = refl
find-free t k (y ∷ xs) {x = x} d e = elim (Bool-cases (eq_text y.id k)) [
  | inl same ↦
      let out : any (has_id k) xs ≡ false =
        subst (λ i. any (has_id i) xs ≡ false) (eq_text→eq y.id k same) d.0 in
      ground (arith, out, any-select k (is_foreign t) xs out, find-none t k xs out)
  | inr other ↦ ground (arith, find-free t k xs {x = x} d.1)
]

pub find-key :
    (t k : Text) (xs : List Sandbox) {x : Sandbox}
    → find (has_key t k) xs ≡ some x
    → has_key t k x ≡ true
find-key t k [] e = cc
find-key t k (y ∷ xs) {x = x} e = elim (Bool-cases (has_key t k y)) [
  | inl hit ↦
      let first : some y ≡ some x = ground arith in
      subst (λ z. has_key t k z ≡ true) (some-injective first) hit
  | inr miss ↦ find-key t k xs {x = x} (ground arith)
]

-- An update of rows that are not foreign leaves the foreign rows as they are.
pub select-update_own :
    (t k : Text) (p : Sandbox → Bool) (f : Sandbox → Sandbox)
    → ((x : Sandbox) → p x ≡ true → eq_text x.id k ≡ true)
    → KeepsKey f
    → (xs : List Sandbox) → any (has_id k) (select (is_foreign t) xs) ≡ false
    → select (is_foreign t) (update p f xs) ≡ select (is_foreign t) xs
select-update_own t k p f hp kf [] h = refl
select-update_own t k p f hp kf (x ∷ xs) h =
    ground (arith, select-update_own t k p f hp kf xs, kf.tenant x, hp x)

pub select-append :
    (p : Sandbox → Bool) (xs ys : List Sandbox) → select p (xs ++ ys) ≡ select p xs ++ select p ys
select-append p [] ys = refl
select-append p (x ∷ xs) ys = ground (arith, select-append p xs ys)

pub Distinct-append :
    (xs : List Sandbox) (x : Sandbox)
    → Distinct xs
    → any (has_id x.id) xs ≡ false
    → Distinct (xs ++ x ∷ [])
Distinct-append [] x d h = (refl, tt)
Distinct-append (y ∷ xs) x d h = (
  any-append (has_id y.id) xs (x ∷ []) ∙ ground (arith, eq_text_sym x.id y.id),
  Distinct-append xs x d.1 (ground arith),
)
