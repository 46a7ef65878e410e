-- ===== src/Effect/Ends.antt =====
-- What holds of the database after an action at every outcome, where statements may be known not to
-- fail; one rule for each way to build an action.
use or3_sandbox.Base.{ℕ, suc, Bool, true, false, ◌≡◌, refl, if◌then◌else◌}
use or3_sandbox.Errors.{Result, ok, err}
use or3_sandbox.Tables.{Db}
use or3_sandbox.Effect.{
  World, Service, M, continue, ◌>>=◌, pure, attempt, ignore, ask, get, transact_always, transact,
  query,
}
use or3_sandbox.Effect.Keeps.{Keeps}
use or3_sandbox.Effect.Yields.{Yields}

-- From a database that satisfies `P`, `m` returns or fails with one that satisfies `Q`.
pub record Ends {A : Type 0} (P Q : Db → Type 0) (m : M A) : Type 0 where
  pub at : (w : World) → P w.db → Q (m w).1.db

abbrev pub is_ok : {A : Type 0} → Result A → Bool
is_ok (ok a) = true
is_ok (err e) = false

-- `m` returns a value.
pub record Returns {A : Type 0} (m : M A) : Type 0 where
  pub at : (w : World) → is_ok (m w).0 ≡ true

-- No statement of the database fails.
abbrev pub Reliable : Service → Type 0
Reliable s = (n : ℕ) → s.env.statement_fails n ≡ false

module _ {A : Type 0} {P Q : Db → Type 0} where
  pub Ends-Keeps : {m : M A} → Keeps Q m → ((db : Db) → P db → Q db) → Ends P Q m
  Ends-Keeps k h = record { at = λ w p. (k.at w (h w.db p)).0 }

  pub Ends-if : (b : Bool) {m n : M A} → Ends P Q m → Ends P Q n → Ends P Q (if b then m else n)
  Ends-if true em en = em
  Ends-if false em en = en

  pub Ends-attempt : {m : M A} → Ends P Q m → Ends P Q (attempt m)
  unfolding attempt
  Ends-attempt em = record { at = λ w p. em.at w p }

module _ {A B : Type 0} {P Q : Db → Type 0} where
  -- What the first action has brought about, the second keeps.
  pub Ends-then :
      {m : M A} {f : A → M B} → Ends P Q m → ((a : A) → Keeps Q (f a)) → Ends P Q (m >>= f)
  unfolding ◌>>=◌
  Ends-then {m = m} {f = f} em kf = record { at = λ w p. go (m w).0 (m w).1 (em.at w p) }
    where
      go : (r : Result A) (w : World) → Q w.db → Q (continue r f w).1.db
      go (ok a) w q = ((kf a).at w q).0
      go (err e) w q = q

  -- The first action does not fail.
  pub Ends-bind :
      {S : Db → Type 0} {m : M A} {f : A → M B}
      → Returns m
      → Ends P Q m
      → ((a : A) → Ends Q S (f a))
      → Ends P S (m >>= f)
  unfolding ◌>>=◌
  Ends-bind {S = S} {m = m} {f = f} rm em ef = record {
    at = λ w p. go (m w).0 (m w).1 (rm.at w) (em.at w p);
  }
    where
      go : (r : Result A) (w : World) → is_ok r ≡ true → Q w.db → S (continue r f w).1.db
      go (ok a) w e q = (ef a).at w q
      go (err x) w e q = cc

  -- What the environment answers.
  pub Ends-get : (v : ℕ → A) (f : A → M B) → ((n : ℕ) → Ends P Q (f (v n))) → Ends P Q (get v >>= f)
  unfolding ◌>>=◌ ask
  Ends-get v f h = record { at = λ w p. (h w.step).at (record w { step = suc w.step }) p }

-- A statement that reads, where it finds what it asks for, and what follows of it.
pub Ends-read :
    {A B : Type 0} {P Q : Db → Type 0} (s : Service) (f : Db → Result A) {g : A → M B}
    → Reliable s
    → ((db : Db) → P db → is_ok (f db) ≡ true)
    → ((a : A) → Ends (λ db. P db × (f db ≡ ok a)) Q (g a))
    → Ends P Q (query s f >>= g)
unfolding ◌>>=◌ query
Ends-read {P = P} {Q = Q} s f {g = g} sound finds h = record {
  at = λ w p. rw (sound w.step) (go w p (f w.db) refl (finds w.db p));
}
  where
    go :
        (w : World)
        → P w.db
        → (r : Result _) → f w.db ≡ r
        → is_ok r ≡ true
        → Q (continue r g (record w { step = suc w.step })).1.db
    go w p (ok a) eq e = (h a).at (record w { step = suc w.step }) (p, eq)
    go w p (err x) eq e = cc

pub Returns-pure : {A : Type 0} (a : A) → Returns (pure a)
unfolding pure
Returns-pure a = record { at = λ w. refl }

pub Returns-attempt : {A : Type 0} (m : M A) → Returns (attempt m)
unfolding attempt
Returns-attempt m = record { at = λ w. refl }

pub Returns-ignore : {A : Type 0} (m : M A) → Returns (ignore m)
unfolding attempt pure ◌>>=◌
Returns-ignore m = record { at = λ w. refl }

module _ {P Q : Db → Type 0} where
  pub Ends-ignore : {A : Type 0} {m : M A} → Ends P Q m → Ends P Q (ignore m)
  unfolding attempt pure ◌>>=◌
  Ends-ignore em = record { at = λ w p. em.at w p }

  pub Ends-write :
      (s : Service) (f : Db → Db)
      → Reliable s
      → ((db : Db) → P db → Q (f db))
      → Ends P Q (transact_always s f)
  unfolding transact
  Ends-write s f sound h = record { at = λ w p. rw (sound w.step) (h w.db p) }

pub Returns-write : (s : Service) (f : Db → Db) → Reliable s → Returns (transact_always s f)
unfolding transact
Returns-write s f sound = record { at = λ w. rw (sound w.step) refl }

pub Returns-get : {A : Type 0} (v : ℕ → A) → Returns (get v)
unfolding ask
Returns-get v = record { at = λ w. refl }

pub Returns-bind :
    {A B : Type 0} {m : M A} {f : A → M B}
    → Returns m
    → ((a : A) → Returns (f a))
    → Returns (m >>= f)
unfolding ◌>>=◌
Returns-bind {B = B} {m = m} {f = f} rm rf = record { at = λ w. go (m w).0 (m w).1 (rm.at w) }
  where
    go : (r : Result _) (w : World) → is_ok r ≡ true → is_ok (continue r f w).0 ≡ true
    go (ok a) w e = (rf a).at w
    go (err x) w e = e

-- A statement that reads, where it finds what it asks for.
pub Returns-query :
    {A : Type 0} (s : Service) (f : Db → A) → Reliable s → Returns (query s (λ db. ok (f db)))
unfolding query
Returns-query s f sound = record { at = λ w. rw (sound w.step) refl }

pub ruleset returns_rules =
    (Returns-pure, Returns-attempt, Returns-ignore, Returns-get, Returns-bind, Returns-write)

from_ok : {A q : Type 0} (r : Result A) → is_ok r ≡ true → ((a : A) → r ≡ ok a → q) → q
from_ok (ok a) e h = h a refl
from_ok (err x) e h = cc

-- What a success yields, where success is certain.
pub Ends-Yields :
    {A : Type 0} {P Q : Db → Type 0} {m : M A} → Returns m → Yields P (λ _. Q) m → Ends P Q m
Ends-Yields {m = m} rm ym = record { at = λ w p. from_ok (m w).0 (rm.at w) (ym.at w p) }
