-- ===== src/Auth/Login.antt =====
-- The end of every login (internal/auth/login_complete.go): the policy, the tokens, the record.
use kauth_go.Prelude.{ℕ, String, true, Option, none, some}
use kauth_go.Env.{Env}
use kauth_go.Db.{Db, User, Service}
use kauth_go.Db.Users.{update_user_last_login}
use kauth_go.Exec.{Result, ok, err, Event, Exec, pure, attempt, execute, log, clock, ◌>>=◌, ◌>>◌}
use kauth_go.Token.Issuer.{issue_access}
use kauth_go.Token.Refresh.{event, issue}
use kauth_go.Auth.Policy.{check_policy}
use kauth_go.Auth.CodeGrant.{Server}

pub record LoginMethod : Type 0 where
  pub audit_type : String
  pub auth_method : String

abbrev pub login_magic : LoginMethod
login_magic = record { audit_type = "magic_link_login"; auth_method = "magic_link" }

pub data Completion : Type 0 where
  policy_denied : String → Completion
  issue_failed : Completion
  -- The redirect to /dispatch with the access and the refresh token; the latter is a cookie too.
  completed : String → String → Completion

abbrev pub last_login_in : String → ℕ → Db → Db
last_login_in time id db = record db { users = update_user_last_login (some time) id db.users }

abbrev pub login_event : LoginMethod → User → Service → Event
login_event m user svc = record (event m.audit_type user.email svc.id true "") {
  auth_method = m.auth_method;
}

module _ (env : Env) (srv : Server) (svc : Service) (user : User) (m : LoginMethod) where
  unfoldable pub refresh_issued : String → Result String → Exec Completion
  refresh_issued access (err e) = pure issue_failed
  refresh_issued access (ok refresh) = do
    now ← clock env
    done ← attempt (execute env (last_login_in (env.format_time now) user.id))
    log (login_event m user svc)
    pure (completed access refresh)

  unfoldable pub access_given : Result String → Exec Completion
  unfolding refresh_issued
  access_given (err e) = pure issue_failed
  access_given (ok access) = do
    refresh ← attempt (issue env user svc)
    refresh_issued access refresh

  unfoldable pub complete_admitted : Option String → Exec Completion
  unfolding access_given
  complete_admitted (some reason) = pure (policy_denied reason)
  complete_admitted none = do
    access ← attempt (issue_access env srv.issuer user svc)
    access_given access

  unfoldable pub complete : Exec Completion
  unfolding complete_admitted
  complete = complete_admitted (check_policy user svc)
