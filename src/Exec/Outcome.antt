-- ===== src/Exec/Outcome.antt =====
-- What holds of the value of every run that returns, from whatever state.
use kauth_go.Prelude.{
  ℕ, ◌≡◌, refl, String, Bool, true, false, Option, none, some, arith, if◌then◌else◌,
}
use kauth_go.Env.{Env}
use kauth_go.Exec.Keeps.{From, Drawn}
use kauth_go.Exec.{
  Error, Result, ok, err, World, Exec, pure, raise, lift, attempt, continue, random, ◌>>=◌, next,
  in_tx, finish_transaction, call, query, or_no_rows,
}
use kauth_go.Db.{Db}

pub record Returns {A : Type 0} (Q : A → Type 0) (m : Exec A) : Type 0 where
  pub value : (w : World) (a : A) → (m w).0 ≡ ok a → Q a

module _ {A : Type 0} {Q : A → Type 0} where
  pub Returns-pure : (a : A) → Q a → Returns Q (pure a)
  unfolding pure
  Returns-pure a q = record { value = λ w b e. let same : a ≡ b = cc in rw (← same) q }

  pub Returns-raise : (x : Error) → Returns Q (raise x)
  unfolding raise
  Returns-raise x = record { value = λ w a e. cc }

  pub Returns-if :
      (b : Bool) (m n : Exec A) → Returns Q m → Returns Q n → Returns Q (if b then m else n)
  Returns-if true m n k l = k
  Returns-if false m n k l = l

module _ {A B : Type 0} {Q : B → Type 0} where
  continue-value :
      (r : Result A) (f : A → Exec B) (w : World) (b : B)
      → ((a : A) → r ≡ ok a → Returns Q (f a))
      → (continue r f w).0 ≡ ok b
      → Q b
  continue-value (ok a) f w b k e = (k a refl).value w b e
  continue-value (err x) f w b k e = cc

  pub Returns-bind :
      (m : Exec A) (f : A → Exec B) → ((a : A) → Returns Q (f a)) → Returns Q (m >>= f)
  unfolding ◌>>=◌
  Returns-bind m f k = record { value = λ w b e. continue-value (m w).0 f (m w).1 b (λ a _. k a) e }

  pub Returns-bind_with :
      (R : A → Type 0) (m : Exec A) (f : A → Exec B)
      → Returns R m
      → ((a : A) → R a → Returns Q (f a))
      → Returns Q (m >>= f)
  unfolding ◌>>=◌
  Returns-bind_with R m f r k = record {
    value = λ w b e. continue-value (m w).0 f (m w).1 b (λ a x. k a (r.value w a x)) e;
  }

  pub Returns-bind_lift :
      (r : Result A) (f : A → Exec B)
      → ((a : A) → r ≡ ok a → Returns Q (f a))
      → Returns Q (lift r >>= f)
  unfolding ◌>>=◌
  Returns-bind_lift r f k = record { value = λ w b e. continue-value r f w b k e }

module _ {A B : Type 0} {P : A → Type 0} {Q : B → Type 0} where
  pub Returns-bind_attempt :
      (m : Exec A) (f : Result A → Exec B)
      → Returns P m
      → ((r : Result A) → ((a : A) → r ≡ ok a → P a) → Returns Q (f r))
      → Returns Q (attempt m >>= f)
  unfolding ◌>>=◌ attempt
  Returns-bind_attempt m f h k = record {
    value = λ w b e. (k (m w).0 (λ a same. h.value w a same)).value (m w).1 b e;
  }

-- The same of runs from interaction `k` on.
pub record ReturnsFrom {A : Type 0} (k : ℕ) (Q : A → Type 0) (m : Exec A) : Type 0 where
  pub value : (w : World) (a : A) → From k (λ _. Unit) w → (m w).0 ≡ ok a → Q a

module _ {k : ℕ} {B : Type 0} {Q : B → Type 0} where
  pub ReturnsFrom-bind_random :
      (env : Env) (f : String → Exec B)
      → ((s : String) → Drawn env k s → Returns Q (f s))
      → ReturnsFrom k Q (random env >>= f)
  unfolding random ◌>>=◌
  ReturnsFrom-bind_random env f h = record {
    value = λ w b g e.
        continue-value (random env w).0 f (random env w).1 b (λ s d. h s (drawn w s g d)) e;
  }
    where
      drawn :
          (w : World) (s : String) → From k (λ _. Unit) w → (random env w).0 ≡ ok s → Drawn env k s
      drawn w s g e = record { draw = w.step; since = g.since; drawn = ground arith }

  pub ReturnsFrom-raise_or :
      (b : Bool) (x : Error) (m : Exec B)
      → ReturnsFrom k Q m
      → ReturnsFrom k Q (if b then raise x else m)
  unfolding raise
  ReturnsFrom-raise_or true x m h = record { value = λ w a g e. cc }
  ReturnsFrom-raise_or false x m h = h

pub ruleset fails_rules = (Returns-raise, Returns-if, Returns-bind)

module _ (env : Env) where
  -- A transaction that returned has run its body and kept its database.
  pub in_tx-ok :
      {A : Type 0} (m : Exec A) (w : World) (a : A)
      → (in_tx env m w).0 ≡ ok a
      → ((m (next w)).0 ≡ ok a) × ((in_tx env m w).1.db ≡ (m (next w)).1.db)
  unfolding in_tx finish_transaction
  in_tx-ok m w a e = (ground arith, ground arith)

  -- One that failed has left the database as it was.
  pub in_tx-err :
      {A : Type 0} (m : Exec A) (w : World) (x : Error)
      → (in_tx env m w).0 ≡ err x
      → (in_tx env m w).1.db ≡ w.db
  unfolding in_tx finish_transaction
  in_tx-err m w x e = ground arith

module _ {A : Type 0} {Q : A → Type 0} where
  pub Returns-call :
      (env : Env) (q : Db → Result A × Db)
      → ((db : Db) (a : A) → (q db).0 ≡ ok a → Q a)
      → Returns Q (call env q)
  unfolding call
  Returns-call env q h = record { value = λ w a e. ground (arith, h w.db a) }

  pub Returns-query :
      (env : Env) (f : Db → Option A)
      → ((db : Db) (a : A) → f db ≡ some a → Q a)
      → Returns Q (query env f)
  unfolding query
  Returns-query env f h = Returns-call env _ (λ db a e. h db a (found (f db) a e))
    where
      found : (o : Option A) (a : A) → or_no_rows o ≡ ok a → o ≡ some a
      found none a e = cc
      found (some b) a e = let same : b ≡ a = cc in rw same refl

  pub Returns-in_tx : (env : Env) (m : Exec A) → Returns Q m → Returns Q (in_tx env m)
  Returns-in_tx env m h = record { value = λ w a e. h.value (next w) a ((in_tx-ok env m w a e).0) }

  pub Returns-lift : (r : Result A) → ((a : A) → r ≡ ok a → Q a) → Returns Q (lift r)
  unfolding lift
  Returns-lift r h = record { value = λ w a e. h a e }
