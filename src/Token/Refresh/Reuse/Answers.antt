-- ===== src/Token/Refresh/Reuse/Answers.antt =====
-- The answers to a refresh token that cannot be rotated: reuse, a revoked token, an expired one
-- and an unknown one.
use kauth_go.Prelude.{suc, ◌≡◌, ◌≢◌, String, false, some, [], ◌∷◌, ◌++◌, arith, text_or_empty}
use kauth_go.Env.{Env}
use kauth_go.Db.{RefreshToken}
use kauth_go.Db.Refresh.{get_refresh_token_by_hash, revoke_family_tokens}
use kauth_go.Exec.{err, token_reuse, token_revoked, World, next, raise, ◌>>=◌, call, execute, log}
use kauth_go.Token.Refresh.{present_revoked, classify_existing, rotate, event}
use kauth_go.Token.Refresh.RowInvariant.{AllRows}
use kauth_go.Token.Refresh.Reuse.{
  IsSpentRow, IsRevokedRow, IsHealthy, IsRefused, later, gap_of, revoked_world, spent-refused,
  revoked-family, handle_reuse-run, classified-found, refused-classified,
}

-- The end of a rotation in which nothing failed and the family of `row` is revoked for `reason`.
pub record Ended (env : Env) (plain kind reason : String) (row : RefreshToken) (w : World)
    : Type 0 where
  pub details : String
  pub rows :
      (rotate env plain w).1.db.refresh_tokens
      ≡ revoke_family_tokens reason row.family_id w.db.refresh_tokens
  pub family : AllRows (IsRevokedRow row.family_id) (rotate env plain w).1.db
  pub audit :
      (rotate env plain w).1.audit
      ≡ w.audit ++ event kind row.email (text_or_empty row.service_id) false details ∷ []

module _ (env : Env) (plain : String) (w : World) (row : RefreshToken)
    (healthy : IsHealthy env) where
  -- Where no database call fails, a rotation with a token whose row is used, and whose hash no
  -- live row has, answers ErrTokenReuse, revokes every row of the token's family that was not
  -- revoked, and adds one event refresh_token_reuse to the audit log.
  pub reuse_detected :
      AllRows (IsSpentRow (env.sha256_hex plain)) w.db
      → get_refresh_token_by_hash (env.sha256_hex plain) w.db.refresh_tokens ≡ some row
      → row.used ≡ 1
      → ((rotate env plain w).0 ≡ err token_reuse)
        × Ended env plain "refresh_token_reuse" "reuse_detected" row w
  unfolding classify_existing
  reuse_detected spent found used =
      let v = later (suc (suc (suc w.step))) w in
      let refused =
        spent-refused env (env.sha256_hex plain) (env.format_time (env.time w.step))
          w.db.refresh_tokens spent in
      let start = refused-classified env plain w healthy refused in
      let step = classified-found env plain v healthy row found in
      let run = handle_reuse-run env row (text_or_empty row.service_id) (next v) (healthy _) in
      let fam = revoked-family "reuse_detected" row.family_id w.db.refresh_tokens in
      (
        rw (start, step) (ground (arith, run)),
        record {
          details = gap_of env row (revoked_world "reuse_detected" row.family_id (next v));
          rows = rw (start, step) (ground (arith, run));
          family = rw (start, step) (ground (arith, run, fam));
          audit = rw (start, step) (ground (arith, run));
        },
      )

  -- Where no database call fails, a rotation with a revoked token that was not used answers
  -- ErrTokenRevoked, revokes the token's whole family and adds one event
  -- refresh_token_revoked_presented.
  pub revoked_presented :
      AllRows (IsSpentRow (env.sha256_hex plain)) w.db
      → get_refresh_token_by_hash (env.sha256_hex plain) w.db.refresh_tokens ≡ some row
      → row.used ≢ 1
      → row.revoked ≡ 1
      → ((rotate env plain w).0 ≡ err token_revoked)
        × Ended env plain "refresh_token_revoked_presented" "revoked_token_presented" row w
  unfolding classify_existing present_revoked execute call log ◌>>=◌
  revoked_presented spent found unused revoked =
      let v = later (suc (suc (suc w.step))) w in
      let refused =
        spent-refused env (env.sha256_hex plain) (env.format_time (env.time w.step))
          w.db.refresh_tokens spent in
      let start = refused-classified env plain w healthy refused in
      let step = classified-found env plain v healthy row found in
      let fam = revoked-family "revoked_token_presented" row.family_id w.db.refresh_tokens in
      (
        rw (start, step) (ground (arith, healthy (suc v.step))),
        record {
          details = "";
          rows = rw (start, step) (ground (arith, healthy (suc v.step)));
          family = rw (start, step) (ground (arith, healthy (suc v.step), fam));
          audit = rw (start, step) (ground (arith, healthy (suc v.step)));
        },
      )

  -- Where no database call fails, a rotation with a token that is merely expired answers
  -- ErrTokenRevoked and changes neither the database nor the audit log.
  pub expired_refused :
      IsRefused env (env.sha256_hex plain) (env.format_time (env.time w.step)) w.db.refresh_tokens
      → get_refresh_token_by_hash (env.sha256_hex plain) w.db.refresh_tokens ≡ some row
      → row.used ≡ 0
      → row.revoked ≡ 0
      → ((rotate env plain w).0 ≡ err token_revoked)
        × ((rotate env plain w).1.db ≡ w.db)
        × ((rotate env plain w).1.audit ≡ w.audit)
  unfolding classify_existing raise
  expired_refused refused found unused live =
      let v = later (suc (suc (suc w.step))) w in
      let start = refused-classified env plain w healthy refused in
      let step = classified-found env plain v healthy row found in
      (
        rw (start, step) (ground arith),
        rw (start, step) (ground arith),
        rw (start, step) (ground arith),
      )
