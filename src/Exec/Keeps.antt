-- ===== src/Exec/Keeps.antt =====
-- What every run of an action from interaction number `k` on leaves true of the database, whether
-- it returns or fails.
use kauth_go.Prelude.{
  ℕ, ◌≤◌, ◌≡◌, refl, String, Bool, true, false, Option, some, arith, if◌then◌else◌,
}
use kauth_go.Env.{Env}
use kauth_go.Db.{Db}
use kauth_go.Exec.{
  Error, Event, Result, ok, err, World, Exec, pure, raise, lift, attempt, continue, next, ◌>>=◌,
  call, in_tx, finish_transaction, query, execute, log, clock, random,
}

-- `P` holds of the database, and the run has come to interaction `k`.
pub record From (k : ℕ) (P : Db → Type 0) (w : World) : Type 0 where
  pub since : k ≤ w.step
  pub holds : P w.db

pub record Keeps {A : Type 0} (k : ℕ) (P : Db → Type 0) (m : Exec A) : Type 0 where
  pub run : (w : World) → From k P w → From k P (m w).1

-- A transaction that ends in an error has changed nothing.
finish-Keeps :
    {A : Type 0} (k : ℕ) (P : Db → Type 0) (env : Env) (before : Db) (r : Result A) (w : World)
    → P before
    → From k P w
    → From k P (finish_transaction env before r w).1
unfolding finish_transaction
finish-Keeps k P env before r w h f = ground arith

module _ {k : ℕ} {P : Db → Type 0} {A : Type 0} where
  pub Keeps-pure : (a : A) → Keeps k P (pure a)
  unfolding pure
  Keeps-pure a = record { run = λ w h. h }

  pub Keeps-raise : (e : Error) → Keeps k P (raise {A = A} e)
  unfolding raise
  Keeps-raise e = record { run = λ w h. h }

  pub Keeps-lift : (r : Result A) → Keeps k P (lift r)
  unfolding lift
  Keeps-lift r = record { run = λ w h. h }

  pub Keeps-attempt : (m : Exec A) → Keeps k P m → Keeps k P (attempt m)
  unfolding attempt
  Keeps-attempt m h = record { run = h.run }

  pub Keeps-call :
      (env : Env) (q : Db → Result A × Db)
      → ((db : Db) → P db → P (q db).1)
      → Keeps k P (call env q)
  unfolding call
  Keeps-call env q h = record { run = λ w f. ground (arith, h w.db f.holds) }

  pub Keeps-query : (env : Env) (f : Db → Option A) → Keeps k P (query env f)
  unfolding query
  Keeps-query env f = Keeps-call env _ (λ db h. h)

  pub Keeps-if :
      (b : Bool) (m n : Exec A)
      → (b ≡ true → Keeps k P m)
      → (b ≡ false → Keeps k P n)
      → Keeps k P (if b then m else n)
  Keeps-if true m n h l = h refl
  Keeps-if false m n h l = l refl

  pub Keeps-in_tx : (env : Env) (m : Exec A) → Keeps k P m → Keeps k P (in_tx env m)
  unfolding in_tx
  Keeps-in_tx env m h = record {
    run = λ w f.
        let begun : From k P (next w) = ground arith in
        ground (
          arith,
          begun,
          finish-Keeps k P env w.db (m (next w)).0 (m (next w)).1 f.holds (h.run (next w) begun),
        );
  }

module _ {k : ℕ} {P : Db → Type 0} where
  pub Keeps-execute :
      (env : Env) (f : Db → Db) → ((db : Db) → P db → P (f db)) → Keeps k P (execute env f)
  unfolding execute
  Keeps-execute env f h = Keeps-call env _ h

  pub Keeps-log : (e : Event) → Keeps k P (log e)
  unfolding log
  Keeps-log e = record { run = λ w h. record { since = h.since; holds = h.holds } }

  pub Keeps-clock : (env : Env) → Keeps k P (clock env)
  unfolding clock
  Keeps-clock env = record { run = λ w h. ground arith }

  pub Keeps-random : (env : Env) → Keeps k P (random env)
  unfolding random
  Keeps-random env = record { run = λ w h. ground arith }

module _ {k : ℕ} {P : Db → Type 0} {A B : Type 0} where
  continue-Keeps :
      (r : Result A) (f : A → Exec B) (w : World)
      → ((a : A) → r ≡ ok a → Keeps k P (f a))
      → From k P w
      → From k P (continue r f w).1
  continue-Keeps (ok a) f w h l = (h a refl).run w l
  continue-Keeps (err e) f w h l = l

  pub Keeps-bind :
      (m : Exec A) (f : A → Exec B)
      → Keeps k P m
      → ((a : A) → Keeps k P (f a))
      → Keeps k P (m >>= f)
  unfolding ◌>>=◌
  Keeps-bind m f h l = record {
    run = λ w g. continue-Keeps (m w).0 f (m w).1 (λ a _. l a) (h.run w g);
  }

  -- The rest may use what the first action's result meets.
  pub Keeps-bind_with :
      (Q : A → Type 0) (m : Exec A) (f : A → Exec B)
      → Keeps k P m
      → ((w : World) (a : A) → From k P w → (m w).0 ≡ ok a → Q a)
      → ((a : A) → Q a → Keeps k P (f a))
      → Keeps k P (m >>= f)
  unfolding ◌>>=◌
  Keeps-bind_with Q m f h q l = record {
    run = λ w g. continue-Keeps (m w).0 f (m w).1 (λ a e. l a (q w a g e)) (h.run w g);
  }

  pub Keeps-bind_lift :
      (r : Result A) (f : A → Exec B)
      → ((a : A) → r ≡ ok a → Keeps k P (f a))
      → Keeps k P (lift r >>= f)
  unfolding ◌>>=◌
  Keeps-bind_lift r f h = record { run = λ w g. continue-Keeps r f w h g }

-- Text that is drawn from interaction `k` on.
pub record Drawn (env : Env) (k : ℕ) (s : String) : Type 0 where
  pub draw : ℕ
  pub since : k ≤ draw
  pub drawn : env.random draw ≡ some s

module _ {k : ℕ} {P : Db → Type 0} {B : Type 0} where
  pub Keeps-bind_random :
      (env : Env) (f : String → Exec B)
      → ((s : String) → Drawn env k s → Keeps k P (f s))
      → Keeps k P (random env >>= f)
  unfolding random
  Keeps-bind_random env f h =
      Keeps-bind_with (Drawn env k) (random env) f (Keeps-random env) drawn h
    where
      drawn : (w : World) (s : String) → From k P w → (random env w).0 ≡ ok s → Drawn env k s
      drawn w s g e = record { draw = w.step; since = g.since; drawn = ground arith }

pub ruleset keeps_rules = (
  Keeps-pure, Keeps-raise, Keeps-lift, Keeps-attempt, Keeps-query, Keeps-if, Keeps-in_tx, Keeps-log,
  Keeps-clock, Keeps-random, Keeps-bind,
)
