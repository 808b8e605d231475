-- ===== src/Exec.antt =====
-- How the server runs: code with Go's `error` results over the database, the audit log and the
-- outside world. What was written before an error stays written, except in a transaction
-- (`inTx` of internal/token/refresh.go).
pub mod Keeps
pub mod Outcome
pub mod Spares
use kauth_go.Prelude.{ℕ, suc, String, Bool, Option, none, some, List, ◌++◌, ◌∷◌, [], if◌then◌else◌}
use kauth_go.Env.{Env}
use kauth_go.Db.{Db}

-- The errors that some caller tells apart, and one for each other source of errors.
pub data Error : Type 0 where
  no_rows : Error  -- sql.ErrNoRows
  db_error : Error  -- any other error of the database
  unique_violation : Error  -- a failed UNIQUE constraint, where a caller asks (isUniqueViolation)
  random_failed bad_time bad_duration no_user_id no_public_id sign_failed : Error
  retry_resolve user_conflict user_inactive link_denied no_account : Error  -- of the identity resolver
  link_rejected : (reason : String) → Error  -- linkRejection
  token_reuse : Error  -- ErrTokenReuse
  token_revoked : Error  -- ErrTokenRevoked

pub data Result {ℓ} (A : Type ℓ) : Type ℓ where
  ok : A → Result A
  err : Error → Result A

-- audit.Event without IP and UA, which are copied from the request in every case.
pub record Event : Type 0 where
  pub kind : String
  pub auth_method : String
  pub email : String
  pub service_id : String
  pub success : Bool
  pub details : String

-- `step` counts the interactions with the outside world; `audit` is the log, oldest first.
pub record World : Type 0 where
  pub db : Db
  pub audit : List Event
  pub step : ℕ

abbrev pub Exec {ℓ} : Type ℓ → Type ℓ
Exec A = World → Result A × World

abbrev pub next : World → World
next w = record w { step = suc w.step }

module _ {ℓ} {A : Type ℓ} where
  unfoldable pub pure : A → Exec A
  pure a w = (ok a, w)

  unfoldable pub raise : Error → Exec A
  raise e w = (err e, w)

  unfoldable pub lift : Result A → Exec A
  lift r w = (r, w)

  -- `if err != nil { … }`: goes on with the result, whichever it is.
  unfoldable pub attempt : Exec A → Exec (Result A)
  attempt m w = let (r, w') = m w in (ok r, w')

module _ {ℓ κ} {A : Type ℓ} {B : Type κ} where
  abbrev pub continue : Result A → (A → Exec B) → Exec B
  continue (ok a) f w = f a w
  continue (err e) f w = (err e, w)

  infixl 10 ◌>>=◌
  -- Opening this opens the other ways to build an action too.
  unfoldable pub ◌>>=◌ : Exec A → (A → Exec B) → Exec B
  unfolding pure raise lift attempt
  ◌>>=◌ m f w = continue (m w).0 f (m w).1

module _ {ℓ} {B : Type ℓ} where
  infixl 10 ◌>>◌
  abbrev pub ◌>>◌ : Exec (Unit {0}) → Exec B → Exec B
  m >> n = m >>= λ _. n

  -- One call of the database, which fails without an effect or runs the statement.
  unfoldable pub call : Env → (Db → Result B × Db) → Exec B
  call env q w =
      if env.fault w.step
      then (err db_error, next w)
      else (let (r, db) = q w.db in (r, record w { db = db; step = suc w.step }))

  -- The statement of a transaction's end: COMMIT may fail, and the database is then as before.
  unfoldable pub finish_transaction : Env → Db → Result B → World → Result B × World
  finish_transaction env before (err e) w = (err e, record w { db = before })
  finish_transaction env before (ok b) w =
      if env.fault w.step
      then (err db_error, record w { db = before; step = suc w.step })
      else (ok b, next w)

  -- inTx: BEGIN, the body, and COMMIT or ROLLBACK.
  unfoldable pub in_tx : Env → Exec B → Exec B
  unfolding finish_transaction
  in_tx env body w =
      if env.fault w.step
      then (err db_error, next w)
      else (let (r, w') = body (next w) in finish_transaction env w.db r w')

-- A statement that reads: `none` is sql.ErrNoRows.
abbrev pub or_no_rows {ℓ} : {A : Type ℓ} → Option A → Result A
or_no_rows none = err no_rows
or_no_rows (some a) = ok a

unfoldable pub query {ℓ} : {A : Type ℓ} → Env → (Db → Option A) → Exec A
unfolding call
query env f = call env (λ db. (or_no_rows (f db), db))

-- A statement that writes and gives nothing back.
unfoldable pub execute : Env → (Db → Db) → Exec (Unit {0})
unfolding call
execute env f = call env (λ db. (ok tt, f db))

-- audit.Service.Log: the event is queued and the caller goes on.
unfoldable pub log : Event → Exec (Unit {0})
log e w = (ok tt, record w { audit = w.audit ++ e ∷ [] })

-- time.Now().UTC()
unfoldable pub clock : Env → Exec ℕ
clock env w = (ok (env.time w.step), next w)

unfoldable pub random : Env → Exec String
random env w = (elim (env.random w.step) [ none ↦ err random_failed | some s ↦ ok s ], next w)
