-- ===== src/Auth/CodeGrant.antt =====
-- authorizationCodeGrant of internal/auth/token_endpoint.go: the exchange of an authorization code
-- for tokens.
pub mod Spares
pub mod Grants
pub mod Reuse
use Prim.Native.String.{◌++◌}
use kauth_go.Prelude.{
  ℕ, ◌*◌, String, Bool, true, false, not, ◌&&◌, ◌||◌, Option, none, some, List, ◌==◌, eqb, ltb,
  text_or_empty, if◌then◌else◌,
}
use kauth_go.Text.{byte_length}
use kauth_go.Env.{Env}
use kauth_go.Db.{Db, User, Service, AuthorizationCode}
use kauth_go.Db.Codes.{get_authorization_code_by_hash}
use kauth_go.Db.Users.{get_active_user_by_id}
use kauth_go.Exec.{
  Result, ok, err, no_rows, Event, Exec, pure, raise, attempt, ◌>>=◌, ◌>>◌, query, log, clock,
}
use kauth_go.Registry.{resolve}
use kauth_go.Token.Issuer.{Issuer, Issued, issue_access_detailed, issue_id_token_detailed}
use kauth_go.Token.Refresh.{CodeRedemption, event, redeem_authorization_code, revoke_family}
use kauth_go.Auth.Policy.{check_policy}
use kauth_go.Auth.Http.{
  TokenRequest, Response, token_error, token_response, Tokens, no_change, s256_challenge,
  verify_pkce, scope_contains, sanitize_log_value, ttl_seconds,
}

-- PasswordHandlers: the issuer, the registry's cache and the origins of CORS.
pub record Server : Type 0 where
  pub issuer : Issuer
  pub cache : List Service
  pub cors_origins : List String

abbrev pub invalid_grant : Response
invalid_grant = token_error 400 "invalid_grant" no_change

abbrev pub server_error : Response
server_error = token_error 500 "server_error" no_change

unfoldable pub find_code : Env → String → Exec AuthorizationCode
find_code env hash = query env (λ db. get_authorization_code_by_hash hash db.authorization_codes)

unfoldable pub active_session_user : Env → Option ℕ → Exec User
active_session_user env none = raise no_rows
active_session_user env (some id) = query env (λ db. get_active_user_by_id id db.users)

-- The caller knows the code's client, redirect URI and verifier.
abbrev pub is_verified : Env → TokenRequest → AuthorizationCode → Bool
is_verified env req row =
    row.service_id == req.client_id
    && row.redirect_uri == req.redirect_uri
    && verify_pkce env req.code_verifier row.code_challenge row.code_challenge_method

abbrev pub family_details : String → Result (Unit {0}) → String
family_details family (ok _) = "family=" ++ family
family_details family (err e) = "family=" ++ family ++ " revoke_failed"

unfoldable pub revoke_code_family : Env → Option String → Exec String
revoke_code_family env none = pure ""
revoke_code_family env (some family) = do
  revoked ← attempt (revoke_family env family "authorization_code_reuse")
  pure (family_details family revoked)

unfoldable pub reject_used : Env → TokenRequest → AuthorizationCode → Exec Bool
reject_used env req row =
    if is_verified env req row
    then (do
      details ← revoke_code_family env row.family_id
      log (event "authorization_code_reuse" row.email row.service_id false details)
      pure true)
    else (do
      log (event "authorization_code_reuse" row.email row.service_id false "reason=unverified")
      pure true)

-- The event for a code that was not used; `none` accepts it.
unfoldable pub mismatch : Env → TokenRequest → AuthorizationCode → String → Option (String × String)
mismatch env req row now =
    if not (env.text_lt now row.expires_at)
    then some ("authorization_code_invalid", "")
    else if not (row.service_id == req.client_id)
    then some ("authorization_code_mismatch", "reason=client")
    else if not (row.redirect_uri == req.redirect_uri)
    then some ("authorization_code_mismatch", "reason=redirect_uri")
    else if not (verify_pkce env req.code_verifier row.code_challenge row.code_challenge_method)
    then some ("authorization_code_mismatch", "reason=pkce")
    else none

log_mismatch : AuthorizationCode → Option (String × String) → Exec Bool
log_mismatch row none = pure false
log_mismatch row (some (kind, details)) = do
  log (event kind row.email row.service_id false details)
  pure true

unfoldable pub reject_unused : Env → TokenRequest → AuthorizationCode → Exec Bool
unfolding log_mismatch
reject_unused env req row = do
  now ← clock env
  log_mismatch row (mismatch env req row (env.format_time now))

-- rejectCode; the caller writes the response.
unfoldable pub reject_code : Env → TokenRequest → AuthorizationCode → Exec Bool
reject_code env req row =
    if eqb row.used 1 then reject_used env req row else reject_unused env req row

unfoldable pub log_invalid : String → Exec Response
log_invalid service_id = do
  log (event "authorization_code_invalid" "" service_id false "")
  pure invalid_grant

module _ (env : Env) (srv : Server) (req : TokenRequest) where
  abbrev pub code_hash : String
  code_hash = env.sha256_hex req.code

  -- The answer to a rejected code, or the way on.
  unfoldable pub unless_rejected : Bool → Exec Response → Exec Response
  unless_rejected true rest = pure invalid_grant
  unless_rejected false rest = rest

  lost_race_found : AuthorizationCode → Result AuthorizationCode → Exec Response
  lost_race_found row (err no_rows) = log_invalid row.service_id
  lost_race_found row (err e) = pure server_error
  lost_race_found row (ok fresh) = do
    rejected ← reject_code env req fresh
    unless_rejected rejected (log_invalid row.service_id)

  -- Another request has redeemed the code between the reading and the UPDATE.
  unfoldable pub lost_race : AuthorizationCode → Exec Response
  unfolding lost_race_found
  lost_race row = do fresh ← attempt (find_code env code_hash); lost_race_found row fresh

  abbrev pub exchanged_event : User → Service → Issued → String → String → Event
  exchanged_event user svc access jti_id family =
      record (event "authorization_code_exchanged" user.email svc.id true
        ("jti_access=" ++ access.jti ++ " jti_id=" ++ jti_id ++ " family=" ++ family)) {
          auth_method = "authorization_code";
        }

  abbrev pub tokens_of : Service → Issued → Option Issued → String → Response
  tokens_of svc access id refresh =
      token_response
        (record {
          access_token = access.token;
          refresh_token = refresh;
          id_token = elim id [
            | none ↦ none
            | some issued ↦ if issued.token == "" then none else some issued.token
          ];
          expires_in = ttl_seconds env svc (15 * 60);
        })
        no_change

  abbrev pub jti_of : Option Issued → String
  jti_of none = "-"
  jti_of (some issued) = issued.jti

  unfoldable pub redeemed :
      AuthorizationCode
      → User
      → Service
      → Issued
      → Option Issued
      → Result (String × String)
      → Exec Response
  redeemed row user svc access id (err no_rows) = lost_race row
  redeemed row user svc access id (err e) = pure server_error
  redeemed row user svc access id (ok (refresh, family)) = do
    log (exchanged_event user svc access (jti_of id) family)
    pure (tokens_of svc access id refresh)

  abbrev pub redemption : CodeRedemption
  redemption = record {
    code_hash = code_hash;
    service_id = req.client_id;
    redirect_uri = req.redirect_uri;
    code_challenge = s256_challenge env req.code_verifier;
  }

  unfoldable pub redeem :
      AuthorizationCode → User → Service → Issued → Option Issued → Exec Response
  redeem row user svc access id = do
    result ← attempt (redeem_authorization_code env redemption user svc)
    redeemed row user svc access id result

  -- An ID token only for the scope openid.
  unfoldable pub issue_id : AuthorizationCode → User → Service → Exec (Option Issued)
  issue_id row user svc =
      if scope_contains (text_or_empty row.scope) "openid"
      then (do
        issued ← issue_id_token_detailed env srv.issuer user svc (text_or_empty row.nonce)
        pure (some issued))
      else pure none

  id_issued : AuthorizationCode → User → Service → Issued → Result (Option Issued) → Exec Response
  id_issued row user svc access (err e) = pure server_error
  id_issued row user svc access (ok id) = redeem row user svc access id

  access_issued : AuthorizationCode → User → Service → Result Issued → Exec Response
  unfolding id_issued
  access_issued row user svc (err e) = pure server_error
  access_issued row user svc (ok access) = do
    id ← attempt (issue_id row user svc)
    id_issued row user svc access id

  unfoldable pub exchange_tokens : AuthorizationCode → User → Service → Exec Response
  unfolding access_issued
  exchange_tokens row user svc = do
    access ← attempt (issue_access_detailed env srv.issuer user svc)
    access_issued row user svc access

  abbrev pub denied_event : User → Service → Event
  denied_event user svc = event "authorization_code_policy_denied" user.email svc.id false ""

  admit : AuthorizationCode → User → Service → Option String → Exec Response
  admit row user svc none = exchange_tokens row user svc
  admit row user svc (some reason) = do log (denied_event user svc); pure invalid_grant

  exchange_user : AuthorizationCode → Service → Result User → Exec Response
  unfolding admit
  exchange_user row svc (err no_rows) = pure invalid_grant
  exchange_user row svc (err e) = pure server_error
  exchange_user row svc (ok user) = admit row user svc (check_policy user svc)

  exchange_service : AuthorizationCode → Option Service → Exec Response
  unfolding exchange_user
  exchange_service row none = pure (token_error 400 "invalid_client" no_change)
  exchange_service row (some svc) = do
    user ← attempt (active_session_user env row.user_id)
    exchange_user row svc user

  exchange_found : Result AuthorizationCode → Exec Response
  unfolding exchange_service
  exchange_found (err no_rows) = log_invalid (sanitize_log_value req.client_id)
  exchange_found (err e) = pure server_error
  exchange_found (ok row) = do
    rejected ← reject_code env req row
    unless_rejected rejected (exchange_service row (resolve env srv.cache "" row.service_id ""))

  unfoldable pub authorization_code_grant : Exec Response
  unfolding exchange_found
  authorization_code_grant =
      if req.code == ""
      then pure (token_error 400 "invalid_request" no_change)
      else if ltb (byte_length req.code_verifier) 43 || ltb 128 (byte_length req.code_verifier)
      then pure invalid_grant
      else (do row ← attempt (find_code env code_hash); exchange_found row)
