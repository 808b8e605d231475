-- ===== src/Session/Invariant.antt =====
-- Whatever the calls, an invariant of rows holds on.
use kauth_go.Prelude.{ℕ, String, List, [], ◌∷◌, arith}
use kauth_go.Env.{Env}
use kauth_go.Db.{RefreshToken}
use kauth_go.Db.Table.{All-delete_where, All-update_where}
use kauth_go.Db.Refresh.{
  delete_expired_refresh_tokens, is_expired, mark_revoked, revoke_user_refresh_tokens,
}
use kauth_go.Exec.{World, execute}
use kauth_go.Exec.Keeps.{From, Keeps, Keeps-execute, keeps_rules}
use kauth_go.Token.Refresh.RowInvariant.{
  RowInvariant, AllRows, rotate-Keeps, issue-Keeps, redeem_authorization_code-Keeps,
  revoke_family-Keeps, revoke_family_of_token-Keeps,
}
use kauth_go.Jobs.{
  clean_refresh_tokens, clean_authorization_codes, delete_refresh_in, delete_codes_in,
}
use kauth_go.Session.{
  Call, issues, redeems, rotates, revokes, logs_out, revokes_user, cleans_refresh_tokens,
  cleans_authorization_codes, revoke_user_in, perform, serve,
}

module _ (env : Env) (k : ℕ) (P : RefreshToken → Type 0) (inv : RowInvariant env k P) where
  delete-Keeps : (now : String) → Keeps k (AllRows P) (execute env (delete_refresh_in env now))
  unfolding delete_expired_refresh_tokens
  delete-Keeps now =
      Keeps-execute env (delete_refresh_in env now)
        (λ db h. All-delete_where P (is_expired env now now) db.refresh_tokens h)

  delete_codes-Keeps : (now : String) → Keeps k (AllRows P) (execute env (delete_codes_in env now))
  delete_codes-Keeps now = Keeps-execute env (delete_codes_in env now) (λ db h. h)

  revoke_user-Keeps :
      (reason : String) (user : ℕ) → Keeps k (AllRows P) (execute env (revoke_user_in reason user))
  unfolding revoke_user_refresh_tokens
  revoke_user-Keeps reason user = Keeps-execute env (revoke_user_in reason user) λ db h.
      All-update_where P _ (mark_revoked reason) db.refresh_tokens
        (λ r _ q. inv.revoking reason r q) h

  perform-Keeps : (c : Call) → Keeps k (AllRows P) (perform env c)
  unfolding perform clean_refresh_tokens clean_authorization_codes
  perform-Keeps (issues user svc) = search (keeps_rules, issue-Keeps env k P inv)
  perform-Keeps (redeems p user svc) =
      search (keeps_rules, redeem_authorization_code-Keeps env k P inv)
  perform-Keeps (rotates plain) = search (keeps_rules, rotate-Keeps env k P inv)
  perform-Keeps (revokes family reason) = revoke_family-Keeps env k P inv family reason
  perform-Keeps (logs_out plain reason) =
      search (keeps_rules, revoke_family_of_token-Keeps env k P inv)
  perform-Keeps (revokes_user reason user) = revoke_user-Keeps reason user
  perform-Keeps cleans_refresh_tokens = search (keeps_rules, delete-Keeps) depth 7
  perform-Keeps cleans_authorization_codes = search (keeps_rules, delete_codes-Keeps) depth 7

  pub serve-From :
      (cs : List Call) (w : World) → From k (AllRows P) w → From k (AllRows P) (serve env cs w)
  unfolding serve
  serve-From [] w h = h
  serve-From (c ∷ cs) w h = serve-From cs (perform env c w).1 ((perform-Keeps c).run w h)

-- What holds of all rows now, and is kept by whatever is drawn from now on, holds after any calls.
pub serve-AllRows :
    (env : Env) (P : RefreshToken → Type 0) (cs : List Call) (w : World)
    → RowInvariant env w.step P
    → AllRows P w.db
    → AllRows P (serve env cs w).db
serve-AllRows env P cs w inv h =
    (serve-From env w.step P inv cs w (record { since = omega arith; holds = h })).holds
