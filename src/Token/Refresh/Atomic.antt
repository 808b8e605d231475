-- ===== src/Token/Refresh/Atomic.antt =====
-- A rotation that ends in an internal error has changed no row.
use kauth_go.Prelude.{◌≡◌, ◌≢◌, refl, String, arith, text_or_empty, ◌∙◌}
use kauth_go.Env.{Env}
use kauth_go.Db.{Db, RefreshToken}
use kauth_go.Exec.{
  Error, Result, ok, err, no_rows, token_reuse, token_revoked, World, next, raise, ◌>>=◌, call,
  query, execute, log, clock,
}
use kauth_go.Exec.Outcome.{in_tx-err}
use kauth_go.Token.Refresh.{
  find_by_hash, rotate_body, handle_reuse, present_revoked, classify_existing, classify_rejected,
  finish_rotate, rotate,
}
use kauth_go.Token.Refresh.Reuse.{reuse_gap-run, revoked_world}

-- An error that is no verdict on the token.
abbrev pub IsInternal : Error → Type 0
IsInternal e = (e ≢ token_reuse) × (e ≢ token_revoked)

module _ (env : Env) (e : Error) (internal : IsInternal e) where
  handle_reuse-verdict :
      (row : RefreshToken) (svc : String) (v : World)
      → (handle_reuse env row svc v).0 ≡ err token_reuse
  unfolding handle_reuse execute call log ◌>>=◌
  handle_reuse-verdict row svc v = ground (
    arith,
    reuse_gap-run env row (revoked_world "reuse_detected" row.family_id v),
    reuse_gap-run env row (next v),
  )

  present_revoked-verdict :
      (row : RefreshToken) (svc : String) (v : World)
      → (present_revoked env row svc v).0 ≡ err token_revoked
  unfolding present_revoked execute call log ◌>>=◌
  present_revoked-verdict row svc v = ground arith

  existing-unchanged :
      (r : Result RefreshToken) (v : World)
      → (classify_existing env r v).0 ≡ err e
      → (classify_existing env r v).1.db ≡ v.db
  unfolding classify_existing raise
  existing-unchanged (err no_rows) v h = refl
  existing-unchanged (err x) v h = refl
  existing-unchanged (ok row) v h = ground (
    arith,
    internal.0,
    internal.1,
    handle_reuse-verdict row (text_or_empty row.service_id) v,
    present_revoked-verdict row (text_or_empty row.service_id) v,
  )

  find-unchanged : (hash : String) (v : World) → (find_by_hash env hash v).1.db ≡ v.db
  unfolding find_by_hash query call
  find-unchanged hash v = ground arith

  rejected-unchanged :
      (hash : String) (v : World)
      → (classify_rejected env hash v).0 ≡ err e
      → (classify_rejected env hash v).1.db ≡ v.db
  unfolding classify_rejected ◌>>=◌
  rejected-unchanged hash v h = existing-unchanged _ _ h ∙ find-unchanged hash v

  finish-unchanged :
      (hash : String) (r : Result (RefreshToken × String)) (v : World) (before : Db)
      → ((x : Error) → r ≡ err x → v.db ≡ before)
      → (finish_rotate env hash r v).0 ≡ err e
      → (finish_rotate env hash r v).1.db ≡ before
  unfolding finish_rotate raise log ◌>>=◌
  finish-unchanged hash (err no_rows) v before k h = rejected-unchanged hash v h ∙ k no_rows refl
  finish-unchanged hash (err x) v before k h = k _ refl
  finish-unchanged hash (ok r) v before k h = cc

-- A rotation that fails with any error but ErrTokenReuse and ErrTokenRevoked has left the whole
-- database as it was: the token can be presented again.
pub internal_error_unchanged :
    (env : Env) (plain : String) (w : World) (e : Error)
    → IsInternal e
    → (rotate env plain w).0 ≡ err e
    → (rotate env plain w).1.db ≡ w.db
unfolding rotate clock ◌>>=◌
internal_error_unchanged env plain w e internal h =
    finish-unchanged env e internal (env.sha256_hex plain) _ _ w.db
      (λ x t. in_tx-err env (rotate_body env (env.sha256_hex plain) (env.time w.step)) (next w) x t)
      h
