-- ===== src/Auth/Magic/Redeem.antt =====
-- Redeem of internal/auth/magic.go: POST /magic-login/{token}.
pub mod Checks
pub mod Once
use Prim.Native.String.{◌++◌}
use kauth_go.Prelude.{
  ℕ, String, Bool, true, false, not, ◌&&◌, Option, none, some, List, ◌==◌, eqb, text_or_empty,
  if◌then◌else◌,
}
use kauth_go.Env.{Env}
use kauth_go.Db.{Db, User, Service, MagicToken}
use kauth_go.Db.Magic.{get_valid_magic_token_by_hash, consume_magic_token}
use kauth_go.Db.Users.{get_active_user_by_email, CreateUserParams, create_user}
use kauth_go.Exec.{
  Result, ok, err, unique_violation, Event, Exec, pure, attempt, call, query, log, clock, random,
  or_no_rows, ◌>>=◌, ◌>>◌,
}
use kauth_go.Registry.{resolve}
use kauth_go.Token.Refresh.{event}
use kauth_go.Auth.CodeGrant.{Server}
use kauth_go.Auth.FetchMeta.{FetchRequest, same_origin}
use kauth_go.Auth.Login.{Completion, policy_denied, issue_failed, completed, login_magic, complete}
use kauth_go.Auth.Magic.{normalize_email}

pub data MagicAnswer : Type 0 where
  blocked : MagicAnswer  -- 403
  sent_back : (service_id error : String) → MagicAnswer  -- to the form, with an error
  internal_error : MagicAnswer  -- 500
  logged_in : (svc : Service) (user : User) (access refresh : String) → MagicAnswer

abbrev pub is_login : MagicAnswer → Bool
is_login (logged_in svc user access refresh) = true
is_login _ = false

abbrev pub consume_magic_in : Env → String → String → Db → Result MagicToken × Db
consume_magic_in env hash now db =
    let (row, rows) = consume_magic_token env hash "service" now db.magic_tokens in
    (or_no_rows row, record db { magic_tokens = rows })

unfoldable pub consume_magic : Env → String → String → Exec MagicToken
consume_magic env hash now = call env (consume_magic_in env hash now)

unfoldable pub find_magic : Env → String → String → Exec MagicToken
find_magic env hash now =
    query env (λ db. get_valid_magic_token_by_hash env hash "service" now db.magic_tokens)

-- A service that is known and offers magic links.
abbrev pub with_magic : Option Service → Option Service
with_magic none = none
with_magic (some svc) = if eqb svc.auth_magic_link 1 then some svc else none

unfoldable pub stored_magic_service : Env → Server → MagicToken → Option Service
stored_magic_service env srv row = elim row.service_id [
  | none ↦ none
  | some id ↦ with_magic (resolve env srv.cache "" id "")
]

abbrev pub create_in : Env → CreateUserParams → Db → Result User × Db
create_in env p db = elim (create_user env p db.users) [
  | none ↦ (err unique_violation, db)
  | some (user, users) ↦ (ok user, record db { users = users })
]

unfoldable pub create : Env → CreateUserParams → Exec User
create env p = call env (create_in env p)

-- The default role of a service, "user" without one.
abbrev pub role_or_user : Option String → String
role_or_user none = "user"
role_or_user (some role) = if role == "" then "user" else role

abbrev pub registration : Env → Service → MagicToken → String → ℕ → CreateUserParams
registration env svc row public_id now = record {
  public_id = public_id;
  email = normalize_email env row.email;
  password_hash = none;
  name = none;
  roles = role_or_user svc.default_role;
  orgs = text_or_empty svc.default_org;
  created_at = env.format_time now;
}

abbrev pub login_failed : String → String → String → Event
login_failed email service_id details =
    record (event "login_failed" email service_id false details) { auth_method = "magic_link" }

module _ (env : Env) (srv : Server) where
  completion : Service → User → Result Completion → Exec MagicAnswer
  completion svc user (err e) = pure internal_error
  completion svc user (ok issue_failed) = pure internal_error
  completion svc user (ok (completed access refresh)) = pure (logged_in svc user access refresh)
  completion svc user (ok (policy_denied reason)) = do
    log (login_failed user.email svc.id reason)
    pure (sent_back svc.id "access_denied")

  unfoldable pub finish_login : Service → User → Exec MagicAnswer
  unfolding completion
  finish_login svc user = do
    result ← attempt (complete env srv svc user login_magic)
    completion svc user result

  registered : MagicToken → Service → Result User → Exec MagicAnswer
  registered row svc (err unique_violation) = do
    log (
        login_failed row.email svc.id
          "reason=user_conflict (konto deaktivert eller kunne ikke opprettes)")
    pure (sent_back svc.id "access_denied")
  registered row svc (err e) = pure internal_error
  registered row svc (ok user) = finish_login svc user

  register_as : MagicToken → Service → Result String → Exec MagicAnswer
  unfolding registered
  register_as row svc (err e) = pure internal_error
  register_as row svc (ok public_id) = do
    now ← clock env
    user ← attempt (create env (registration env svc row public_id now))
    registered row svc user

  -- A user who is not found is registered where the service allows it.
  link_user : MagicToken → Service → Result User → Exec MagicAnswer
  unfolding register_as
  link_user row svc (ok user) = finish_login svc user
  link_user row svc (err e) =
      if eqb svc.auto_register 1
      then (do public_id ← attempt (random env); register_as row svc public_id)
      else pure (sent_back svc.id "no_account")

  link_service : MagicToken → String → Option Service → Exec MagicAnswer
  unfolding link_user
  link_service row id none = do
    log (login_failed row.email id "tjeneste inaktiv eller magic link av")
    pure (sent_back id "expired")
  link_service row id (some svc) = do
    user ←
        attempt
          (query env (λ db. get_active_user_by_email (normalize_email env row.email) db.users))
    link_user row svc user

  -- An admin link has no service, and gives no login to one.
  link_bound : String → MagicToken → Option String → Exec MagicAnswer
  unfolding link_service
  link_bound hint row none = do
    log (login_failed row.email "" ("admin-token brukt mot tjenesteinnlogging, hint=" ++ hint))
    pure (sent_back hint "expired")
  link_bound hint row (some id) = link_service row id (stored_magic_service env srv row)

  link_consumed : String → Result MagicToken → Exec MagicAnswer
  unfolding link_bound
  link_consumed hint (err e) = pure (sent_back hint "expired")
  link_consumed hint (ok row) = link_bound hint row row.service_id

  unfoldable pub redeem_link : FetchRequest → String → String → Exec MagicAnswer
  unfolding link_consumed
  redeem_link req hint plain = do
    now ← clock env
    if same_origin req
        then (do
          row ← attempt (consume_magic env (env.sha256_hex plain) (env.format_time now))
          link_consumed hint row)
        else (do
          row ← attempt (find_magic env (env.sha256_hex plain) (env.format_time now))
          pure blocked)
