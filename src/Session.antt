-- ===== src/Session.antt =====
-- A server that performs any calls of RefreshService, the admin panel's revocation of a user's
-- tokens and the clean-up, one after the other. SQLite runs one writer at a time and every
-- modelled write is one statement or one transaction, so a run of concurrent requests is such a
-- sequence of their parts.
pub mod Invariant
pub mod Family
pub mod SingleUse
pub mod Lifetime
use kauth_go.Prelude.{ℕ, String, List, [], ◌∷◌}
use kauth_go.Env.{Env}
use kauth_go.Db.{Db, User, Service}
use kauth_go.Db.Refresh.{revoke_user_refresh_tokens}
use kauth_go.Exec.{World, Exec, pure, execute, ◌>>=◌}
use kauth_go.Token.Refresh.{
  rotate, issue, redeem_authorization_code, CodeRedemption, revoke_family, revoke_family_of_token,
}
use kauth_go.Jobs.{clean_refresh_tokens, clean_authorization_codes}

pub data Call : Type 0 where
  issues : User → Service → Call
  redeems : CodeRedemption → User → Service → Call
  rotates : String → Call
  revokes : (family reason : String) → Call
  logs_out : (plain reason : String) → Call
  revokes_user : (reason : String) → ℕ → Call
  cleans_refresh_tokens cleans_authorization_codes : Call

abbrev pub revoke_user_in : String → ℕ → Db → Db
revoke_user_in reason user db = record db {
  refresh_tokens = revoke_user_refresh_tokens reason user db.refresh_tokens;
}

-- What a caller does with the result is not part of the database's history.
unfoldable pub perform : Env → Call → Exec (Unit {0})
perform env (issues user svc) = do plain ← issue env user svc; pure tt
perform env (redeems p user svc) = do r ← redeem_authorization_code env p user svc; pure tt
perform env (rotates plain) = do r ← rotate env plain; pure tt
perform env (revokes family reason) = revoke_family env family reason
perform env (logs_out plain reason) = do r ← revoke_family_of_token env plain reason; pure tt
perform env (revokes_user reason user) = execute env (revoke_user_in reason user)
perform env cleans_refresh_tokens = clean_refresh_tokens env
perform env cleans_authorization_codes = clean_authorization_codes env

unfoldable pub serve : Env → List Call → World → World
serve env [] w = w
serve env (c ∷ cs) w = serve env cs (perform env c w).1
