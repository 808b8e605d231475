-- ===== src/Token/Refresh/Steps.antt =====
-- The statements of RefreshService, and the first row of a family (computeExpiresAt and newRootToken
-- of internal/token/refresh.go).
use kauth_go.Prelude.{
  ℕ, ◌+◌, ◌*◌, String, Bool, Option, none, some, List, ◌==◌, ltb, eqb, if◌then◌else◌,
}
use kauth_go.Env.{Env}
use kauth_go.Db.{Db, User, Service, RefreshToken, AuthorizationCode}
use kauth_go.Db.Refresh.{
  InsertRefreshTokenParams, insert_refresh_token, consume_refresh_token, get_refresh_token_by_hash,
  revoke_family_tokens,
}
use kauth_go.Db.Codes.{ConsumeAuthorizationCodeCheckedParams, consume_authorization_code_checked}
use kauth_go.Exec.{
  Result, ok, err, db_error, bad_time, bad_duration, no_user_id, Event, Exec, pure, raise, lift,
  ◌>>=◌, call, query, random, or_no_rows,
}
use kauth_go.Token.Duration.{parse_iso8601_duration, add_duration}

-- The statements as calls of the database.
abbrev pub store_refresh : Db → Option (List RefreshToken) → Result (Unit {0}) × Db
store_refresh db none = (err db_error, db)
store_refresh db (some rows) = (ok tt, record db { refresh_tokens = rows })

unfoldable pub insert : Env → InsertRefreshTokenParams → Exec (Unit {0})
insert env p = call env (λ db. store_refresh db (insert_refresh_token p db.refresh_tokens))

abbrev pub consume_in : Env → String → String → Db → Result RefreshToken × Db
consume_in env hash now db =
    let (row, rows) = consume_refresh_token env hash now db.refresh_tokens in
    (or_no_rows row, record db { refresh_tokens = rows })

unfoldable pub consume : Env → String → String → Exec RefreshToken
consume env hash now = call env (consume_in env hash now)

abbrev pub revoke_in : String → String → Db → Db
revoke_in reason family db = record db {
  refresh_tokens = revoke_family_tokens reason family db.refresh_tokens;
}

abbrev pub consume_code_in :
    Env → ConsumeAuthorizationCodeCheckedParams → Db → Result AuthorizationCode × Db
consume_code_in env p db =
    let (row, rows) = consume_authorization_code_checked env p db.authorization_codes in
    (or_no_rows row, record db { authorization_codes = rows })

unfoldable pub consume_code : Env → ConsumeAuthorizationCodeCheckedParams → Exec AuthorizationCode
consume_code env p = call env (consume_code_in env p)

unfoldable pub find_by_hash : Env → String → Exec RefreshToken
find_by_hash env hash = query env (λ db. get_refresh_token_by_hash hash db.refresh_tokens)

-- 30 days, in seconds.
abbrev pub standard_lifetime : ℕ
standard_lifetime = 30 * 24 * 3600

unfoldable pub compute_expires_at : Env → ℕ → Option String → Result ℕ
compute_expires_at env now none = ok (now + standard_lifetime)
compute_expires_at env now (some family_exp) = elim (env.parse_time family_exp) [
  | none ↦ err bad_time
  | some t ↦ ok (if ltb t (now + standard_lifetime) then t else now + standard_lifetime)
]

-- The end of a family's life, if its service bounds it.
unfoldable pub family_end : Env → ℕ → Option String → Result (Option String)
family_end env now none = ok none
family_end env now (some age) =
    if age == "" then ok none else elim (parse_iso8601_duration env age) [
      | none ↦ err bad_duration
      | some d ↦ ok (some (env.format_time (add_duration now d)))
    ]

abbrev pub root_row :
    Env → User → Service → String → ℕ → String → Option String → ℕ → InsertRefreshTokenParams
root_row env user svc family_id now plain family_exp exp = record {
  token_hash = env.sha256_hex plain;
  email = user.email;
  user_id = some user.id;
  service_id = some svc.id;
  family_id = family_id;
  parent_id = none;
  created_at = env.format_time now;
  expires_at = env.format_time exp;
  family_expires_at = family_exp;
  ip_address = none;
  user_agent = none;
}

-- newRootToken for a user with an ID.
unfoldable pub root_token :
    Env → User → Service → String → ℕ → Exec (String × InsertRefreshTokenParams)
root_token env user svc family_id now = do
  plain ← random env
  family_exp ← lift (family_end env now svc.refresh_token_max_age)
  exp ← lift (compute_expires_at env now family_exp)
  pure (plain, root_row env user svc family_id now plain family_exp exp)

unfoldable pub new_root_token :
    Env → User → Service → String → ℕ → Exec (String × InsertRefreshTokenParams)
new_root_token env user svc family_id now =
    if eqb user.id 0 then raise no_user_id else root_token env user svc family_id now

abbrev pub event : String → String → String → Bool → String → Event
event kind email service_id success details = record {
  kind = kind;
  auth_method = "";
  email = email;
  service_id = service_id;
  success = success;
  details = details;
}
