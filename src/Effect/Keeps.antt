-- ===== src/Effect/Keeps.antt =====
-- Invariants of the database through an action, one rule for each way to build an action.
use mathlib.Core.Path.{subst}
use or3_sandbox.Base.{
  ℕ, Bool, true, false, ◌≡◌, refl, Text, Option, none, some, if◌then◌else◌, arith, Bool-cases, inl,
  inr,
}
use or3_sandbox.Errors.{Result, ok, err, Error}
use or3_sandbox.Tables.{Db}
use or3_sandbox.Effect.{
  World, Service, M, continue, ◌>>=◌, pure, fail, lift, attempt, ignore, guard, when, ask, get,
  query, transact, written, remove_all,
}

-- `m` keeps `P`, whether it returns or fails, and what it returns satisfies `R`.
pub record Ensures {A : Type 0} (P : Db → Type 0) (R : A → Type 0) (m : M A) : Type 0 where
  pub at : (w : World) → P w.db → P (m w).1.db × ((a : A) → (m w).0 ≡ ok a → R a)

abbrev pub Anything : {A : Type 0} → A → Type 0
Anything a = Unit {0}

abbrev pub Keeps : {A : Type 0} → (Db → Type 0) → M A → Type 0
Keeps P m = Ensures P Anything m

module _ {A : Type 0} {P : Db → Type 0} where
  pub Keeps-pure : (a : A) → Keeps P (pure a)
  unfolding pure
  Keeps-pure a = record { at = λ w h. (h, λ b e. tt) }

  pub Keeps-fail : (e : Error) → Keeps P (fail {A = A} e)
  unfolding fail
  Keeps-fail e = record { at = λ w h. (h, λ b e. tt) }

  pub Keeps-lift : (r : Result A) → Keeps P (lift r)
  unfolding lift
  Keeps-lift r = record { at = λ w h. (h, λ b e. tt) }

  pub Keeps-ask : (answer : ℕ → Result A) → Keeps P (ask answer)
  unfolding ask
  Keeps-ask answer = record { at = λ w h. (h, λ b e. tt) }

  -- What the environment answers, at every step.
  pub Ensures-get :
      (R : A → Type 0) (value : ℕ → A) → ((n : ℕ) → R (value n)) → Ensures P R (get value)
  unfolding ask
  Ensures-get R value h = record { at = λ w p. (p, λ a e. subst R (cc) (h w.step)) }

  pub Keeps-query : (s : Service) (f : Db → Result A) → Keeps P (query s f)
  unfolding query
  Keeps-query s f = record { at = λ w h. (h, λ b e. tt) }

  pub Keeps-if : (b : Bool) {m n : M A} → Keeps P m → Keeps P n → Keeps P (if b then m else n)
  Keeps-if true km kn = km
  Keeps-if false km kn = kn

  pub Keeps-attempt : {m : M A} → Keeps P m → Keeps P (attempt m)
  unfolding attempt
  Keeps-attempt k = record { at = λ w h. ((k.at w h).0, λ b e. tt) }

  pub Ensures-attempt :
      {R : A → Type 0} {m : M A}
      → Ensures P R m
      → Ensures P (λ r. (a : A) → r ≡ ok a → R a) (attempt m)
  unfolding attempt
  Ensures-attempt {m = m} k = record {
    at = λ w h. let (kept, post) = k.at w h in (kept, λ r e a eq. post a (cc));
  }

  pub Keeps-weaken : {R : A → Type 0} {m : M A} → Ensures P R m → Keeps P m
  Keeps-weaken k = record { at = λ w h. ((k.at w h).0, λ b e. tt) }

  -- What a read returns, of a database that satisfies `P`.
  pub Ensures-query :
      (s : Service) (R : A → Type 0) (f : Db → Result A)
      → ((db : Db) (a : A) → P db → f db ≡ ok a → R a)
      → Ensures P R (query s f)
  unfolding query
  Ensures-query s R f h = record { at = λ w p. (p, λ a e. h w.db a p (ground arith)) }

  pub Ensures-pure : (R : A → Type 0) (a : A) → R a → Ensures P R (pure a)
  unfolding pure
  Ensures-pure R a r = record { at = λ w h. (h, λ b e. subst R (cc) r) }

  pub Ensures-if :
      {R : A → Type 0} (b : Bool) {m n : M A}
      → Ensures P R m
      → Ensures P R n
      → Ensures P R (if b then m else n)
  Ensures-if true km kn = km
  Ensures-if false km kn = kn

  pub Ensures-fail : (R : A → Type 0) (e : Error) → Ensures P R (fail {A = A} e)
  unfolding fail
  Ensures-fail R e = record { at = λ w h. (h, λ b p. cc) }

module _ {A B : Type 0} {P : Db → Type 0} where
  Ensures-continue :
      {R : A → Type 0} {S : B → Type 0} (r : Result A) (f : A → M B)
      → ((a : A) → r ≡ ok a → R a)
      → ((a : A) → R a → Ensures P S (f a))
      → Ensures P S (continue r f)
  Ensures-continue (ok a) f post kf = record { at = λ w h. (kf a (post a refl)).at w h }
  Ensures-continue (err e) f post kf = record { at = λ w h. (h, λ b p. cc) }

  pub Ensures-bind :
      {R : A → Type 0} {S : B → Type 0} {m : M A} {f : A → M B}
      → Ensures P R m
      → ((a : A) → R a → Ensures P S (f a))
      → Ensures P S (m >>= f)
  unfolding ◌>>=◌
  Ensures-bind {m = m} {f = f} km kf = record {
    at =
        λ w h. let (kept, post) = km.at w h in (Ensures-continue (m w).0 f post kf).at (m w).1 kept;
  }

  pub Keeps-bind :
      {S : B → Type 0} {m : M A} {f : A → M B}
      → Keeps P m
      → ((a : A) → Ensures P S (f a))
      → Ensures P S (m >>= f)
  Keeps-bind km kf = Ensures-bind km (λ a _. kf a)

module _ {P : Db → Type 0} where
  pub Keeps-when : (b : Bool) {m : M (Unit {0})} → Keeps P m → Keeps P (when b m)
  Keeps-when b km = Keeps-if b km (Keeps-pure tt)

  pub Keeps-guard : (b : Bool) (e : Error) → Keeps P (guard b e)
  Keeps-guard b e = Keeps-if b (Keeps-fail e) (Keeps-pure tt)

  pub Keeps-ignore : {A : Type 0} {m : M A} → Keeps P m → Keeps P (ignore m)
  Keeps-ignore km = Keeps-bind (Keeps-attempt km) (λ r. Keeps-pure tt)

  written-keeps :
      (s : Service) (o : Option Db) (w : World)
      → P w.db
      → ((db : Db) → o ≡ some db → P db)
      → P (written s o w).1.db
  written-keeps s none w p h = p
  written-keeps s (some db) w p h = h db refl

  pub Keeps-transact :
      (s : Service) (f : Db → Option Db)
      → ((db db' : Db) → P db → f db ≡ some db' → P db')
      → Keeps P (transact s f)
  unfolding transact
  Keeps-transact s f h = record {
    at = λ w p. elim (Bool-cases (s.env.statement_fails w.step)) [
      | inl bad ↦ (rw bad p, λ b e. tt)
      | inr good ↦ (rw good (written-keeps s (f w.db) w p (λ db e. h w.db db p e)), λ b e. tt)
    ];
  }

  -- A write that, where it succeeds, also shows `R`.
  pub Ensures-transact :
      (s : Service) {R : Type 0} (f : Db → Option Db)
      → ((db db' : Db) → P db → f db ≡ some db' → P db' × R)
      → Ensures P (λ _. R) (transact s f)
  unfolding transact
  Ensures-transact s {R = R} f h = record {
    at = λ w p. elim (Bool-cases (s.env.statement_fails w.step)) [
      | inl bad ↦ (rw bad p, λ b e. cc)
      | inr good ↦ rw good (after w p (f w.db) refl)
    ];
  }
    where
      after :
          (w : World)
          → P w.db
          → (o : Option Db) → f w.db ≡ o
          → P (written s o w).1.db × ((a : Unit {0}) → (written s o w).0 ≡ ok a → R)
      after w p none eq = (p, λ a e. cc)
      after w p (some db) eq = let (kept, r) = h w.db db p eq in (kept, λ a e. r)

  pub Keeps-transact_always :
      (s : Service) (f : Db → Db)
      → ((db : Db) → P db → P (f db))
      → Keeps P (transact s (λ db. some (f db)))
  Keeps-transact_always s f h =
      Keeps-transact s (λ db. some (f db)) (λ db db' p e. subst P (cc) (h db p))

  pub Keeps-remove_all : (s : Service) (path : Text) → Keeps P (remove_all s path)
  unfolding remove_all
  Keeps-remove_all s path = record {
    at = λ w p. elim (Bool-cases (s.env.host_fails w.step)) [
      | inl bad ↦ (rw bad p, λ b e. tt)
      | inr good ↦ (rw good p, λ b e. tt)
    ];
  }

-- The rules that need no fact about the database.
pub ruleset keeps_rules = (
  Keeps-pure, Keeps-fail, Keeps-lift, Keeps-ask, Keeps-query, Keeps-if, Keeps-attempt, Keeps-bind,
  Keeps-when, Keeps-guard, Keeps-ignore, Keeps-remove_all,
)
