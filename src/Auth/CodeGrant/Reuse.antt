-- ===== src/Auth/CodeGrant/Reuse.antt =====
-- The second use of an authorization code.
use kauth_go.Prelude.{
  ◌≡◌, ◌≢◌, ◌≤◌, refl, String, true, false, some, ◌==◌, ◌||◌, eqb, ltb, eq_iff, arith,
}
use kauth_go.Text.{byte_length}
use kauth_go.Env.{Env}
use kauth_go.Db.{AuthorizationCode}
use kauth_go.Db.Codes.{get_authorization_code_by_hash}
use kauth_go.Exec.{ok, World, next, pure, attempt, log, call, query, execute, ◌>>=◌}
use kauth_go.Token.Refresh.{revoke_family}
use kauth_go.Token.Refresh.Reuse.{IsRevokedRow, IsHealthy, revoked-family}
use kauth_go.Token.Refresh.RowInvariant.{AllRows}
use kauth_go.Auth.Http.{TokenRequest}
use kauth_go.Auth.CodeGrant.{
  Server, invalid_grant, find_code, is_verified, revoke_code_family, reject_used, reject_code,
  unless_rejected, exchange_found, authorization_code_grant,
}

module _ (env : Env) (req : TokenRequest) (healthy : IsHealthy env) where
  -- A verified reuse is rejected, and ends the family.
  used-rejected :
      (row : AuthorizationCode) (f : String) (w : World)
      → row.used ≡ 1
      → is_verified env req row ≡ true
      → row.family_id ≡ some f
      → ((reject_code env req row w).0 ≡ ok true)
        × AllRows (IsRevokedRow f) (reject_code env req row w).1.db
  unfolding reject_code reject_used revoke_code_family revoke_family execute call log pure attempt
      ◌>>=◌
  used-rejected row f w used verified family =
      let hit : eqb row.used 1 ≡ true = ground arith in
      (
        rw (hit, verified, family) refl,
        rw (hit, verified, family, healthy w.step)
            (revoked-family "authorization_code_reuse" f w.db.refresh_tokens),
      )

-- Where no database call fails, the exchange of a code that was redeemed before, by a caller who
-- knows its client, redirect URI and verifier, is answered with invalid_grant and revokes every row of
-- the family that the code was redeemed for.
pub code_reuse_revokes :
    (env : Env) (srv : Server) (req : TokenRequest) (w : World) (row : AuthorizationCode)
    (f : String)
    → IsHealthy env
    → req.code ≢ ""
    → 43 ≤ byte_length req.code_verifier
    → byte_length req.code_verifier ≤ 128
    → get_authorization_code_by_hash (env.sha256_hex req.code) w.db.authorization_codes ≡ some row
    → row.used ≡ 1
    → is_verified env req row ≡ true
    → row.family_id ≡ some f
    → ((authorization_code_grant env srv req w).0 ≡ ok invalid_grant)
      × AllRows (IsRevokedRow f) (authorization_code_grant env srv req w).1.db
unfolding authorization_code_grant find_code query call exchange_found unless_rejected pure attempt
    ◌>>=◌
code_reuse_revokes env srv req w row f healthy coded least most found used verified family =
    let some_code : (req.code == "") ≡ false = ground (arith, eq_iff req.code "") in
    let fits : (ltb (byte_length req.code_verifier) 43 || ltb 128 (byte_length req.code_verifier))
        ≡ false =
      ground arith in
    let run = used-rejected env req healthy row f (next w) used verified family in
    (
      rw (some_code, fits, healthy w.step, found, run.0) refl,
      rw (some_code, fits, healthy w.step, found, run.0) run.1,
    )
