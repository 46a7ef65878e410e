-- ===== src/Effect/Splits.antt =====
-- What holds of the database after an action that may fail: one thing where it returns, another where it
-- fails. One rule for each way to build an action.
use or3_sandbox.Base.{ℕ, suc, Bool, true, false, ◌≡◌, refl, if◌then◌else◌}
use or3_sandbox.Errors.{Result, ok, err, Error}
use or3_sandbox.Tables.{Db}
use or3_sandbox.Effect.{World, M, continue, ◌>>=◌, pure, get, ask}
use or3_sandbox.Effect.Yields.{Yields}
use or3_sandbox.Effect.Ends.{Ends, Returns, is_ok}

-- `R` of what is returned, or `Q` after an error.
abbrev pub Outcome : {A : Type 0} → (A → Db → Type 0) → (Db → Type 0) → Result A → Db → Type 0
Outcome R Q (ok a) db = R a db
Outcome R Q (err e) db = Q db

pub record Splits {A : Type 0} (P : Db → Type 0) (R : A → Db → Type 0) (Q : Db → Type 0) (m : M A)
    : Type 0 where
  pub at : (w : World) → P w.db → Outcome R Q (m w).0 (m w).1.db

ok-Outcome :
    {A : Type 0} (R : A → Db → Type 0) (Q : Db → Type 0) (r : Result A) (db : Db)
    → is_ok r ≡ true
    → ((a : A) → r ≡ ok a → R a db)
    → Outcome R Q r db
ok-Outcome R Q (ok a) db e h = h a refl
ok-Outcome R Q (err x) db e h = cc

module _ {A : Type 0} {P Q : Db → Type 0} {R : A → Db → Type 0} where
  pub Splits-pure : (a : A) → ((db : Db) → P db → R a db) → Splits P R Q (pure a)
  unfolding pure
  Splits-pure a h = record { at = λ w p. h w.db p }

  pub Splits-if :
      (b : Bool) {m n : M A} → Splits P R Q m → Splits P R Q n → Splits P R Q (if b then m else n)
  Splits-if true sm sn = sm
  Splits-if false sm sn = sn

  -- An action that does not fail.
  pub Splits-Returns : {m : M A} → Returns m → Yields P R m → Splits P R Q m
  Splits-Returns {m = m} rm ym = record {
    at = λ w p. ok-Outcome R Q (m w).0 (m w).1.db (rm.at w) (ym.at w p);
  }

module _ {A B : Type 0} {P Q : Db → Type 0} {R : A → Db → Type 0} {S : B → Db → Type 0} where
  pub Splits-bind :
      {m : M A} {f : A → M B}
      → Splits P R Q m
      → ((a : A) → Splits (R a) S Q (f a))
      → Splits P S Q (m >>= f)
  unfolding ◌>>=◌
  Splits-bind {m = m} {f = f} sm sf = record { at = λ w p. go (m w).0 (m w).1 (sm.at w p) }
    where
      go :
          (r : Result A) (w : World)
          → Outcome R Q r w.db
          → Outcome S Q (continue r f w).0 (continue r f w).1.db
      go (ok a) w o = (sf a).at w o
      go (err e) w o = o

module _ {A B : Type 0} {P Q : Db → Type 0} {S : B → Db → Type 0} where
  -- An answer of the environment leaves the database alone.
  pub Splits-get :
      (v : ℕ → A) (f : A → M B) → ((a : A) → Splits P S Q (f a)) → Splits P S Q (get v >>= f)
  unfolding ◌>>=◌ ask
  Splits-get v f h = record { at = λ w p. (h (v w.step)).at (record w { step = suc w.step }) p }

-- A fact that does not depend on the database.
pub Splits-given :
    {A C : Type 0} {R : A → Db → Type 0} {Q : Db → Type 0} {m : M A}
    → (C → Splits (λ _. Unit {0}) R Q m)
    → Splits (λ _. C) R Q m
Splits-given h = record { at = λ w c. (h c).at w tt }

err-Outcome :
    {A : Type 0} (R : A → Db → Type 0) (Q : Db → Type 0) {e : Error} (r : Result A) (db : Db)
    → r ≡ err e
    → Q db
    → Outcome R Q r db
err-Outcome R Q (ok a) db h q = cc
err-Outcome R Q (err x) db h q = q

-- An action that always fails.
pub Splits-Ends :
    {A : Type 0} {P Q : Db → Type 0} {R : A → Db → Type 0} {m : M A} (e : Error)
    → ((w : World) → (m w).0 ≡ err e)
    → Ends P Q m
    → Splits P R Q m
Splits-Ends {Q = Q} {R = R} {m = m} e h em = record {
  at = λ w p. err-Outcome R Q (m w).0 (m w).1.db (h w) (em.at w p);
}
