-- ===== src/Token/Refresh.antt =====
-- RefreshService of internal/token/refresh.go. `ip` and `ua` are only copied to the audit log and
-- are left out; context.WithoutCancel has no counterpart, for no modelled call is cancelled. Lines
-- of slog are left out.
pub mod Steps
pub mod RowInvariant
pub mod Success
pub mod Reuse
pub mod Atomic
use Prim.Native.String.{◌++◌}
use kauth_go.Prelude.{
  ℕ, ◌+◌, ◌-◌, ◌*◌, String, Bool, true, false, Option, none, some, List, ◌==◌, ltb, eqb,
  text_or_empty, if◌then◌else◌,
}
use kauth_go.Env.{Env}
use kauth_go.Db.{Db, User, Service, RefreshToken, AuthorizationCode}
use kauth_go.Db.Refresh.{
  InsertRefreshTokenParams, insert_refresh_token, consume_refresh_token, get_refresh_token_by_hash,
  get_refresh_child, revoke_family_tokens,
}
use kauth_go.Db.Codes.{ConsumeAuthorizationCodeCheckedParams, consume_authorization_code_checked}
use kauth_go.Exec.{
  Result, ok, err, no_rows, db_error, bad_time, bad_duration, no_user_id, token_reuse,
  token_revoked, Event, Exec, pure, raise, lift, attempt, ◌>>=◌, ◌>>◌, call, query, execute, in_tx,
  log, clock, random, or_no_rows,
}
use kauth_go.Token.Duration.{parse_iso8601_duration, add_duration}
unfoldable pub use kauth_go.Token.Refresh.Steps.{
  insert, consume, consume_code, find_by_hash, compute_expires_at, family_end, root_token,
  new_root_token,
}
pub use kauth_go.Token.Refresh.Steps.{
  store_refresh, consume_in, revoke_in, consume_code_in, standard_lifetime, root_row, event,
}

unfoldable pub issue : Env → User → Service → Exec String
issue env user svc = do
  family_id ← random env
  now ← clock env
  (plain, params) ← new_root_token env user svc family_id now
  insert env params
  log (event "refresh_token_issued" user.email svc.id true "")
  pure plain

pub record CodeRedemption : Type 0 where
  pub code_hash : String
  pub service_id : String
  pub redirect_uri : String
  pub code_challenge : String

abbrev pub redemption_params :
    Env → CodeRedemption → String → ℕ → ConsumeAuthorizationCodeCheckedParams
redemption_params env p family_id now = record {
  family_id = family_id;
  code_hash = p.code_hash;
  service_id = p.service_id;
  redirect_uri = p.redirect_uri;
  code_challenge = p.code_challenge;
  now = env.format_time now;
}

-- The body of the transaction of RedeemAuthorizationCode.
unfoldable pub redeem_body :
    Env → ConsumeAuthorizationCodeCheckedParams → InsertRefreshTokenParams → Exec (Unit {0})
redeem_body env consumed params = do row ← consume_code env consumed; insert env params

-- The plain refresh token and the family.
unfoldable pub redeem_authorization_code :
    Env → CodeRedemption → User → Service → Exec (String × String)
redeem_authorization_code env p user svc = do
  family_id ← random env
  now ← clock env
  (plain, params) ← new_root_token env user svc family_id now
  in_tx env (redeem_body env (redemption_params env p family_id now) params)
  log (event "refresh_token_issued" user.email svc.id true "")
  pure (plain, family_id)

pub record RotationResult : Type 0 where
  pub new_token : String
  pub email : String
  pub family_id : String
  pub service_id : String
  pub user_id : Option ℕ

abbrev pub child_row : Env → RefreshToken → ℕ → String → ℕ → InsertRefreshTokenParams
child_row env consumed now new_plain exp = record {
  token_hash = env.sha256_hex new_plain;
  email = consumed.email;
  user_id = consumed.user_id;
  service_id = consumed.service_id;
  family_id = consumed.family_id;
  parent_id = some consumed.id;
  created_at = env.format_time now;
  expires_at = env.format_time exp;
  family_expires_at = consumed.family_expires_at;
  ip_address = none;
  user_agent = none;
}

-- The body of the transaction of Rotate: the consumed row and the new plain token.
unfoldable pub rotate_body : Env → String → ℕ → Exec (RefreshToken × String)
rotate_body env hash now = do
  consumed ← consume env hash (env.format_time now)
  new_plain ← random env
  exp ← lift (compute_expires_at env now consumed.family_expires_at)
  insert env (child_row env consumed now new_plain exp)
  pure (consumed, new_plain)

unfoldable pub gap_label : Env → String → ℕ → String
gap_label env created now = elim (env.parse_time created) [
  | none ↦ "gap_s=unknown"
  | some t ↦ "gap_s=" ++ env.decimal (now - t)
]

gap_from : Env → Result String → Exec String
gap_from env (err e) = pure "gap_s=unknown"
gap_from env (ok created) = do now ← clock env; pure (gap_label env created now)

unfoldable pub reuse_gap : Env → RefreshToken → Exec String
unfolding gap_from
reuse_gap env existing = do
  created ←
      attempt (query env (λ db. get_refresh_child existing.family_id existing.id db.refresh_tokens))
  gap_from env created

-- A failed revocation is logged and does not change the answer.
unfoldable pub handle_reuse : Env → RefreshToken → String → Exec RotationResult
handle_reuse env existing svc_id = do
  revoked ← attempt (execute env (revoke_in "reuse_detected" existing.family_id))
  gap ← reuse_gap env existing
  log (event "refresh_token_reuse" existing.email svc_id false gap)
  raise token_reuse

present_revoked : Env → RefreshToken → String → Exec RotationResult
present_revoked env existing svc_id = do
  revoked ← attempt (execute env (revoke_in "revoked_token_presented" existing.family_id))
  log (event "refresh_token_revoked_presented" existing.email svc_id false "")
  raise token_revoked

unfoldable pub classify_existing : Env → Result RefreshToken → Exec RotationResult
unfolding present_revoked
classify_existing env (err no_rows) = raise token_revoked
classify_existing env (err e) = raise e
classify_existing env (ok existing) =
    let svc_id = text_or_empty existing.service_id in
    if eqb existing.used 1
    then handle_reuse env existing svc_id
    else if eqb existing.revoked 1
    then present_revoked env existing svc_id
    else raise token_revoked

-- The error of a token that was not consumed.
unfoldable pub classify_rejected : Env → String → Exec RotationResult
classify_rejected env hash = do
  existing ← attempt (find_by_hash env hash)
  classify_existing env existing

abbrev pub rotation_result : RefreshToken → String → RotationResult
rotation_result consumed new_plain = record {
  new_token = new_plain;
  email = consumed.email;
  family_id = consumed.family_id;
  service_id = text_or_empty consumed.service_id;
  user_id = consumed.user_id;
}

unfoldable pub finish_rotate : Env → String → Result (RefreshToken × String) → Exec RotationResult
finish_rotate env hash (err no_rows) = classify_rejected env hash
finish_rotate env hash (err e) = raise e
finish_rotate env hash (ok (consumed, new_plain)) = do
  log (event "refresh_token_rotated" consumed.email (text_or_empty consumed.service_id) true "")
  pure (rotation_result consumed new_plain)

unfoldable pub rotate : Env → String → Exec RotationResult
rotate env plain = do
  now ← clock env
  rotated ← attempt (in_tx env (rotate_body env (env.sha256_hex plain) now))
  finish_rotate env (env.sha256_hex plain) rotated

unfoldable pub revoke_family : Env → String → String → Exec (Unit {0})
revoke_family env family_id reason = execute env (revoke_in reason family_id)

logged_out : RefreshToken → Result (Unit {0}) → Exec (Option (String × String))
logged_out row (err e) = pure none
logged_out row (ok _) =
    if eqb row.revoked 1 then pure none else pure (some (row.email, text_or_empty row.service_id))

revoke_found : Env → String → Result RefreshToken → Exec (Option (String × String))
unfolding logged_out
revoke_found env reason (err e) = pure none
revoke_found env reason (ok row) = do
  revoked ← attempt (execute env (revoke_in reason row.family_id))
  logged_out row revoked

-- `none` is `ok = false`.
unfoldable pub revoke_family_of_token : Env → String → String → Exec (Option (String × String))
unfolding revoke_found
revoke_family_of_token env plain reason = do
  row ← attempt (find_by_hash env (env.sha256_hex plain))
  revoke_found env reason row
