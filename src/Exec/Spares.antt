-- ===== src/Exec/Spares.antt =====
-- Actions that leave the table of authorization codes alone unless they succeed.
use kauth_go.Prelude.{
  ◌≡◌, ◌⊎◌, inl, inr, refl, ap, ◌∙◌, Bool, true, false, List, arith, if◌then◌else◌,
}
use kauth_go.Env.{Env}
use kauth_go.Db.{Db, AuthorizationCode}
use kauth_go.Exec.{Error, Result, ok, err, World, Exec, pure, attempt, continue, ◌>>=◌, in_tx}
use kauth_go.Exec.Keeps.{Keeps}
use kauth_go.Exec.Outcome.{in_tx-err}

abbrev pub HasCodes : List AuthorizationCode → Db → Type 0
HasCodes c db = db.authorization_codes ≡ c

abbrev pub succeeded : {A : Type 0} → (A → Bool) → Result A → Bool
succeeded good (err e) = false
succeeded good (ok a) = good a

pub record Spares {A : Type 0} (good : A → Bool) (m : Exec A) : Type 0 where
  pub run :
      (c : List AuthorizationCode) (w : World)
      → HasCodes c w.db
      → (succeeded good (m w).0 ≡ true) ⊎ HasCodes c (m w).1.db

module _ {A : Type 0} {good : A → Bool} where
  pub Spares-pure : (a : A) → Spares good (pure a)
  unfolding pure
  Spares-pure a = record { run = λ c w h. inr h }

  pub Spares-if :
      (b : Bool) (m n : Exec A) → Spares good m → Spares good n → Spares good (if b then m else n)
  Spares-if true m n h k = h
  Spares-if false m n h k = k

-- A failed transaction is rolled back.
pub Spares-in_tx : {A : Type 0} (env : Env) (m : Exec A) → Spares (λ _. true) (in_tx env m)
Spares-in_tx {A} env m = record { run = λ c w h. go c w h (in_tx env m w).0 refl }
  where
    go :
        (c : List AuthorizationCode) (w : World)
        → HasCodes c w.db
        → (r : Result A) → (in_tx env m w).0 ≡ r
        → (succeeded (λ _. true) (in_tx env m w).0 ≡ true) ⊎ HasCodes c (in_tx env m w).1.db
    go c w h (ok a) e = inl (ap (succeeded (λ _. true)) e)
    go c w h (err x) e = inr (ap (λ (db : Db). db.authorization_codes) (in_tx-err env m w x e) ∙ h)

module _ {A B : Type 0} where
  continue-succeeding :
      (good : B → Bool) (r : Result A) (f : A → Exec B) (c : List AuthorizationCode) (w : World)
      → ((a : A) (w : World) → succeeded good (f a w).0 ≡ true)
      → (succeeded (λ _. true) r ≡ true) ⊎ HasCodes c w.db
      → (succeeded good (continue r f w).0 ≡ true) ⊎ HasCodes c (continue r f w).1.db
  continue-succeeding good (ok a) f c w h k = inl (h a w)
  continue-succeeding good (err e) f c w h (inr k) = inr k
  continue-succeeding good (err e) f c w h (inl k) = cc

module _ {A B : Type 0} {good : B → Bool} where
  continue-Spares :
      (r : Result A) (f : A → Exec B) (c : List AuthorizationCode) (w : World)
      → ((a : A) → Spares good (f a))
      → HasCodes c w.db
      → (succeeded good (continue r f w).0 ≡ true) ⊎ HasCodes c (continue r f w).1.db
  continue-Spares (ok a) f c w h k = (h a).run c w k
  continue-Spares (err e) f c w h k = inr k

  pub Spares-bind :
      (m : Exec A) (f : A → Exec B)
      → ((c : List AuthorizationCode) → Keeps 0 (HasCodes c) m)
      → ((a : A) → Spares good (f a))
      → Spares good (m >>= f)
  unfolding ◌>>=◌
  Spares-bind m f k h = record {
    run = λ c w g.
        continue-Spares (m w).0 f c (m w).1 h
          ((k c).run w (record { since = omega arith; holds = g })).holds;
  }

  -- What follows a success succeeds too.
  pub Spares-bind_succeeding :
      (m : Exec A) (f : A → Exec B)
      → Spares (λ _. true) m
      → ((a : A) (w : World) → succeeded good (f a w).0 ≡ true)
      → Spares good (m >>= f)
  unfolding ◌>>=◌
  Spares-bind_succeeding m f k h = record {
    run = λ c w g. continue-succeeding good (m w).0 f c (m w).1 h (k.run c w g);
  }

  attempted :
      (r : Result A) (f : Result A → Exec B) (c : List AuthorizationCode) (w : World)
      → ((a : A) (w : World) → succeeded good (f (ok a) w).0 ≡ true)
      → ((e : Error) → Spares good (f (err e)))
      → (succeeded (λ _. true) r ≡ true) ⊎ HasCodes c w.db
      → (succeeded good (f r w).0 ≡ true) ⊎ HasCodes c (f r w).1.db
  attempted (ok a) f c w h l k = inl (h a w)
  attempted (err e) f c w h l (inr k) = (l e).run c w k
  attempted (err e) f c w h l (inl k) = cc

  pub Spares-bind_attempt :
      (m : Exec A) (f : Result A → Exec B)
      → Spares (λ _. true) m
      → ((a : A) (w : World) → succeeded good (f (ok a) w).0 ≡ true)
      → ((e : Error) → Spares good (f (err e)))
      → Spares good (attempt m >>= f)
  unfolding ◌>>=◌ attempt
  Spares-bind_attempt m f k h l = record {
    run = λ c w g. attempted (m w).0 f c (m w).1 h l (k.run c w g);
  }

pub ruleset spares_rules = (Spares-pure, Spares-if, Spares-bind)
