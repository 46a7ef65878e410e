-- ===== src/Reconciling/Loops.antt =====
-- A loop that lists the rows in some state and then updates each by its key: none is left in the state.
use mathlib.Core.Path.{subst}
use or3_sandbox.Base.{
  Bool, true, false, not, ◌&&◌, ◌≡◌, refl, sym, List, [], ◌∷◌, any, select, update, map, arith,
  Bool-cases, inl, inr,
}

module _ {A : Type 0} (live : A → Bool) (key : A → A → Bool) where
  -- `row` is in the state and none of `us` has its key.
  abbrev escapes : List A → A → Bool
  escapes us row = live row && not (any (λ u. key u row) us)

  -- Every row in the state is still to be updated, `us` being what is left of the loop.
  abbrev pub Pending : List A → List A → Type 0
  Pending us rows = any (escapes us) rows ≡ false

  pub Pending-step :
      (f : A → A) (u : A) (us rows : List A)
      → ((x : A) → live (f x) ≡ false)
      → Pending (u ∷ us) rows
      → Pending us (update (key u) f rows)
  Pending-step f u us [] h p = refl
  Pending-step f u us (x ∷ rows) h p = ground (arith, Pending-step f u us rows h, h x)

  pub Pending-none : (rows : List A) → Pending [] rows → any live rows ≡ false
  Pending-none [] p = refl
  Pending-none (x ∷ rows) p = ground (arith, Pending-none rows)

  Pending-more : (u : A) (us rows : List A) → Pending us rows → Pending (u ∷ us) rows
  Pending-more u us [] p = refl
  Pending-more u us (x ∷ rows) p = ground (arith, Pending-more u us rows)

  -- `g` is what a read makes of a row.
  pub Pending-listed :
      (g : A → A)
      → ((x : A) → key (g x) x ≡ true)
      → (rows : List A) → Pending (map g (select live rows)) rows
  Pending-listed g h [] = refl
  Pending-listed g h (x ∷ rows) = elim (Bool-cases (live x)) [
    | inl here ↦
        let rest = Pending-more (g x) (map g (select live rows)) rows (Pending-listed g h rows) in
        let all : select live (x ∷ rows) ≡ x ∷ select live rows = rw here refl in
        subst (λ us. Pending (map g us) (x ∷ rows)) (sym all) (ground (arith, h x, rest))
    | inr gone ↦
        let all : select live (x ∷ rows) ≡ select live rows = rw gone refl in
        subst (λ us. Pending (map g us) (x ∷ rows)) (sym all)
          (ground (arith, Pending-listed g h rows))
  ]
