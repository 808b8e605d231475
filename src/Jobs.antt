-- ===== src/Jobs.antt =====
-- The hourly clean-up (internal/jobs/cleanup.go). An error is logged and the job goes on. The two
-- layouts that the code writes times with give the same text in UTC.
use kauth_go.Prelude.{◌-◌, ◌*◌, String}
use kauth_go.Env.{Env}
use kauth_go.Db.{Db}
use kauth_go.Db.Refresh.{delete_expired_refresh_tokens}
use kauth_go.Db.Codes.{delete_expired_authorization_codes}
use kauth_go.Db.Magic.{delete_expired_magic_tokens}
use kauth_go.Exec.{Exec, pure, attempt, execute, clock, ◌>>=◌}

abbrev pub delete_refresh_in : Env → String → Db → Db
delete_refresh_in env now db = record db {
  refresh_tokens = delete_expired_refresh_tokens env now now db.refresh_tokens;
}

unfoldable pub clean_refresh_tokens : Env → Exec (Unit {0})
clean_refresh_tokens env = do
  now ← clock env
  done ← attempt (execute env (delete_refresh_in env (env.format_time now)))
  pure tt

abbrev pub delete_codes_in : Env → String → Db → Db
delete_codes_in env now db = record db {
  authorization_codes = delete_expired_authorization_codes env now db.authorization_codes;
}

unfoldable pub clean_authorization_codes : Env → Exec (Unit {0})
clean_authorization_codes env = do
  now ← clock env
  done ← attempt (execute env (delete_codes_in env (env.format_time now)))
  pure tt

abbrev pub delete_magic_in : Env → String → String → Db → Db
delete_magic_in env now day_ago db = record db {
  magic_tokens = delete_expired_magic_tokens env now day_ago db.magic_tokens;
}

unfoldable pub clean_magic_tokens : Env → Exec (Unit {0})
clean_magic_tokens env = do
  now ← clock env
  done ←
      attempt (
        execute env (delete_magic_in env (env.format_time now) (env.format_time (now - 24 * 3600))))
  pure tt
