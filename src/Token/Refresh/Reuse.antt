-- ===== src/Token/Refresh/Reuse.antt =====
-- What a rotation does that is refused: how it comes to its classification.
pub mod Answers
use kauth_go.Prelude.{
  ℕ, suc, ◌≡◌, ◌≢◌, ◌⊎◌, refl, ◌&&◌, String, Bool, true, false, Option, none, some, List, [], ◌∷◌,
  ◌++◌, All, arith, eq_iff, eqb, text_or_empty, ◌==◌,
}
use kauth_go.Env.{Env}
use kauth_go.Db.{Db, RefreshToken}
use kauth_go.Db.Table.{select_first, update_where, select_first-none, All-update_where_hit}
use kauth_go.Db.Refresh.{
  is_consumable, mark_used, mark_revoked, consume_refresh_token, get_refresh_token_by_hash,
  revoke_family_tokens,
}
use kauth_go.Exec.{
  Event, Error, Result, ok, err, no_rows, db_error, token_reuse, token_revoked, World, next, Exec,
  pure, raise, lift, attempt, ◌>>=◌, ◌>>◌, call, query, execute, in_tx, finish_transaction, log,
  clock, or_no_rows,
}
use kauth_go.Token.Refresh.{
  consume_in, consume, revoke_in, find_by_hash, rotate_body, reuse_gap, gap_from, handle_reuse,
  present_revoked, classify_existing, classify_rejected, finish_rotate, rotate, RotationResult,
  event,
}

update_where-none :
    {R : Type 0} (p : R → Bool) (f : R → R) (rs : List R)
    → All (λ r. p r ≡ false) rs
    → update_where p f rs ≡ rs
unfolding update_where
update_where-none p f [] h = refl
update_where-none p f (r ∷ rs) h = ground (arith, update_where-none p f rs h.1)

-- A row with the hash has been used or revoked.
abbrev pub IsSpentRow : String → RefreshToken → Type 0
IsSpentRow h r = r.token_hash ≡ h → (r.used ≢ 0) ⊎ (r.revoked ≢ 0)

-- Every row of the family is revoked.
abbrev pub IsRevokedRow : String → RefreshToken → Type 0
IsRevokedRow f r = r.family_id ≡ f → r.revoked ≢ 0

pub spent-refused :
    (env : Env) (h now : String) (rs : List RefreshToken)
    → All (IsSpentRow h) rs
    → All (λ r. is_consumable env h now r ≡ false) rs
spent-refused env h now [] s = tt
spent-refused env h now (r ∷ rs) s =
    (ground (arith, s.0, eq_iff r.token_hash h), spent-refused env h now rs s.1)

-- No row of the family is live after its revocation.
pub revoked-family :
    (reason f : String) (rs : List RefreshToken)
    → All (IsRevokedRow f) (revoke_family_tokens reason f rs)
unfolding revoke_family_tokens
revoked-family reason f rs =
    All-update_where_hit (IsRevokedRow f) (λ r. r.family_id == f && eqb r.revoked 0)
      (mark_revoked reason) rs (λ r _ _. omega arith)
      (λ r miss same zero. ground (arith, eq_iff r.family_id f))

-- No database call fails for a reason outside the model.
abbrev pub IsHealthy : Env → Type 0
IsHealthy env = (n : ℕ) → env.fault n ≡ false

-- No row with the hash can be consumed.
abbrev pub IsRefused : Env → String → String → List RefreshToken → Type 0
IsRefused env hash now = All (λ r. is_consumable env hash now r ≡ false)

-- `n` interactions later, with the database and the log of before.
abbrev pub later : ℕ → World → World
later n w = record { db = w.db; audit = w.audit; step = n }

module _ (env : Env) (plain : String) (w : World) where
  body-refused :
      (now : ℕ) (v : World)
      → IsRefused env (env.sha256_hex plain) (env.format_time now) v.db.refresh_tokens
      → env.fault v.step ≡ false
      → (rotate_body env (env.sha256_hex plain) now v).0 ≡ err no_rows
  unfolding rotate_body consume consume_refresh_token call ◌>>=◌
  body-refused now v h ok_call = ground (
    arith,
    select_first-none (is_consumable env (env.sha256_hex plain) (env.format_time now))
        v.db.refresh_tokens h,
  )

  body-step :
      (now : ℕ) (v : World)
      → IsRefused env (env.sha256_hex plain) (env.format_time now) v.db.refresh_tokens
      → env.fault v.step ≡ false
      → ((rotate_body env (env.sha256_hex plain) now v).1.audit ≡ v.audit)
        × ((rotate_body env (env.sha256_hex plain) now v).1.step ≡ suc v.step)
  unfolding rotate_body consume consume_refresh_token call ◌>>=◌
  body-step now v h ok_call = ground (
    arith,
    select_first-none (is_consumable env (env.sha256_hex plain) (env.format_time now))
        v.db.refresh_tokens h,
  )

  pub refused-classified :
      IsHealthy env
      → IsRefused env (env.sha256_hex plain) (env.format_time (env.time w.step)) w.db.refresh_tokens
      → rotate env plain w
        ≡ classify_rejected env (env.sha256_hex plain) (later (suc (suc (suc w.step))) w)
  unfolding rotate finish_rotate in_tx finish_transaction clock ◌>>=◌
  refused-classified healthy h = ground (
    arith,
    healthy (suc w.step),
    body-refused (env.time w.step) (next (next w)) h (healthy _),
    body-step (env.time w.step) (next (next w)) h (healthy _),
  )

-- The gap that the audit names.
abbrev pub gap_of : Env → RefreshToken → World → String
gap_of env row w = elim (reuse_gap env row w).0 [ ok d ↦ d | err _ ↦ "" ]

pub reuse_gap-run :
    (env : Env) (row : RefreshToken) (w : World)
    → ((reuse_gap env row w).0 ≡ ok (gap_of env row w))
      × ((reuse_gap env row w).1.db ≡ w.db)
      × ((reuse_gap env row w).1.audit ≡ w.audit)
unfolding reuse_gap gap_from query call clock ◌>>=◌
reuse_gap-run env row w = ground arith

-- The world behind the revocation of a family.
abbrev pub revoked_world : String → String → World → World
revoked_world reason f v = record v { db = revoke_in reason f v.db; step = suc v.step }

pub handle_reuse-run :
    (env : Env) (row : RefreshToken) (svc : String) (v : World)
    → env.fault v.step ≡ false
    → let u = revoked_world "reuse_detected" row.family_id v in
      ((handle_reuse env row svc v).0 ≡ err token_reuse)
      × ((handle_reuse env row svc v).1.db ≡ u.db)
      × ((handle_reuse env row svc v).1.audit
          ≡ v.audit ++ event "refresh_token_reuse" row.email svc false (gap_of env row u) ∷ [])
unfolding handle_reuse execute call log ◌>>=◌
handle_reuse-run env row svc v healthy =
    ground (arith, reuse_gap-run env row (revoked_world "reuse_detected" row.family_id v))

module _ (env : Env) (plain : String) (v : World) (healthy : IsHealthy env) where
  pub classified-found :
      (row : RefreshToken)
      → get_refresh_token_by_hash (env.sha256_hex plain) v.db.refresh_tokens ≡ some row
      → classify_rejected env (env.sha256_hex plain) v ≡ classify_existing env (ok row) (next v)
  unfolding classify_rejected find_by_hash query call ◌>>=◌
  classified-found row found = ground (arith, healthy v.step)
