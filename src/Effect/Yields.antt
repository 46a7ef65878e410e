-- ===== src/Effect/Yields.antt =====
-- What holds of the database once an action has succeeded, one rule for each way to build an action.
use mathlib.Core.Path.{subst}
use or3_sandbox.Base.{
  Bool, true, false, ◌≡◌, refl, Option, none, some, if◌then◌else◌, arith, Bool-cases, inl, inr,
}
use or3_sandbox.Errors.{Result, ok, err, Error}
use or3_sandbox.Tables.{Db}
use or3_sandbox.Effect.{
  World, Service, M, continue, ◌>>=◌, pure, fail, guard, query, transact, written,
}
use or3_sandbox.Effect.Keeps.{Ensures, Keeps}

-- From a database that satisfies `P`, where `m` returns a value, `Q` holds of it and of the database.
pub record Yields {A : Type 0} (P : Db → Type 0) (Q : A → Db → Type 0) (m : M A) : Type 0 where
  pub at : (w : World) → P w.db → (a : A) → (m w).0 ≡ ok a → Q a (m w).1.db

module _ {A : Type 0} {P : Db → Type 0} where
  pub Yields-pure :
      {Q : A → Db → Type 0} (a : A) → ((db : Db) → P db → Q a db) → Yields P Q (pure a)
  unfolding pure
  Yields-pure {Q = Q} a h = record { at = λ w p b e. subst (λ c. Q c w.db) (cc) (h w.db p) }

  pub Yields-fail : {Q : A → Db → Type 0} (e : Error) → Yields P Q (fail {A = A} e)
  unfolding fail
  Yields-fail e = record { at = λ w p b h. cc }

  pub Yields-query :
      (s : Service) {Q : A → Db → Type 0} (f : Db → Result A)
      → ((db : Db) (a : A) → P db → f db ≡ ok a → Q a db)
      → Yields P Q (query s f)
  unfolding query
  Yields-query s f h = record { at = λ w p a e. h w.db a p (ground arith) }

  -- An action that keeps the database's invariant yields it.
  pub Yields-Keeps : {m : M A} → Keeps P m → Yields P (λ _. P) m
  Yields-Keeps k = record { at = λ w p a e. (k.at w p).0 }

  -- What is ensured of the value.
  pub Yields-Ensures : {R : A → Type 0} {m : M A} → Ensures P R m → Yields P (λ a _. R a) m
  Yields-Ensures k = record { at = λ w p a e. (k.at w p).1 a e }

  pub Yields-if :
      (b : Bool) {Q : A → Db → Type 0} {m n : M A}
      → Yields P Q m
      → Yields P Q n
      → Yields P Q (if b then m else n)
  Yields-if true ym yn = ym
  Yields-if false ym yn = yn

  pub Yields-any : {m : M A} → Yields P (λ _ _. Unit {0}) m
  Yields-any = record { at = λ w p a e. tt }

  -- What is kept besides what is yielded.
  pub Yields-with :
      {Q : A → Db → Type 0} {m : M A}
      → Yields P Q m
      → Keeps P m
      → Yields P (λ a db. P db × Q a db) m
  Yields-with ym km = record { at = λ w p a e. ((km.at w p).0, ym.at w p a e) }

  -- From less, to more.
  pub Yields-from :
      {P' : Db → Type 0} {Q : A → Db → Type 0} {m : M A}
      → ((db : Db) → P db → P' db)
      → Yields P' Q m
      → Yields P Q m
  Yields-from h ym = record { at = λ w p a e. ym.at w (h w.db p) a e }

  pub Yields-mono :
      {Q S : A → Db → Type 0} {m : M A}
      → Yields P Q m
      → ((a : A) (db : Db) → Q a db → S a db)
      → Yields P S m
  Yields-mono {m = m} ym h = record { at = λ w p a e. h a (m w).1.db (ym.at w p a e) }

continue-yields :
    {A B : Type 0} (S : B → Db → Type 0) (r : Result A) (f : A → M B) (w : World)
    → ((a : A) → r ≡ ok a → (b : B) → (f a w).0 ≡ ok b → S b (f a w).1.db)
    → (b : B) → (continue r f w).0 ≡ ok b
    → S b (continue r f w).1.db
continue-yields S (ok a) f w h b e = h a refl b e
continue-yields S (err x) f w h b e = cc

module _ {A B : Type 0} {P : Db → Type 0} where
  pub Yields-bind :
      {Q : A → Db → Type 0} {S : B → Db → Type 0} {m : M A} {f : A → M B}
      → Yields P Q m
      → ((a : A) → Yields (Q a) S (f a))
      → Yields P S (m >>= f)
  unfolding ◌>>=◌
  Yields-bind {Q = Q} {S = S} {m = m} {f = f} ym yf = record {
    at = λ w p b e.
        continue-yields S (m w).0 f (m w).1 (λ a ea b eb. (yf a).at (m w).1 (ym.at w p a ea) b eb) b
          e;
  }

module _ {P : Db → Type 0} where
  pub Yields-guard : (b : Bool) (e : Error) → Yields P (λ _ db. P db × (b ≡ false)) (guard b e)
  Yields-guard true e = Yields-fail e
  Yields-guard false e = Yields-pure tt (λ db p. (p, refl))

  pub Yields-transact :
      (s : Service) {Q : Db → Type 0} (f : Db → Option Db)
      → ((db db' : Db) → P db → f db ≡ some db' → Q db')
      → Yields P (λ _. Q) (transact s f)
  unfolding transact
  Yields-transact s {Q = Q} f h = record {
    at = λ w p a e. elim (Bool-cases (s.env.statement_fails w.step)) [
      | inl bad ↦ cc
      | inr good ↦ rw good (after w p (f w.db) refl (rw good at e))
    ];
  }
    where
      after :
          (w : World)
          → P w.db
          → (o : Option Db) → f w.db ≡ o
          → {a : Unit {0}} → (written s o w).0 ≡ ok a
          → Q (written s o w).1.db
      after w p none eq e = cc
      after w p (some db) eq e = h w.db db p eq

-- A fact that does not depend on the database.
pub Yields-given :
    {A C : Type 0} {Q : A → Db → Type 0} {m : M A}
    → (C → Yields (λ _. Unit {0}) Q m)
    → Yields (λ _. C) Q m
Yields-given h = record { at = λ w c a e. (h c).at w tt a e }

-- Such a fact lasts, whatever is done.
pub Yields-const : {A C : Type 0} {m : M A} → Yields (λ _. C) (λ _ _. C) m
Yields-const = record { at = λ w c a e. c }

-- A step of which nothing is used.
pub Yields-skip :
    {A B : Type 0} {P : Db → Type 0} {S : B → Db → Type 0} (m : M A) {f : A → M B}
    → ((a : A) → Yields (λ _. Unit {0}) S (f a))
    → Yields P S (m >>= f)
Yields-skip m h = Yields-bind {Q = λ _ _. Unit {0}} Yields-any h
