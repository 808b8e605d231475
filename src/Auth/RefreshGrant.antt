-- ===== src/Auth/RefreshGrant.antt =====
-- RefreshToken of internal/auth/token_endpoint.go: the rotation of a refresh token at POST /token.
pub mod Checks
pub mod Refusals
use Prim.Native.String.{◌++◌}
use kauth_go.Prelude.{
  ℕ, ◌*◌, String, Bool, true, false, not, ◌&&◌, ◌||◌, Option, none, some, List, [], ◌∷◌, ◌==◌,
  text_or_empty, if◌then◌else◌,
}
use kauth_go.Env.{Env}
use kauth_go.Db.{User, Service}
use kauth_go.Exec.{
  Result, ok, err, no_rows, token_reuse, token_revoked, Event, Exec, pure, attempt, ◌>>=◌, ◌>>◌,
  log,
}
use kauth_go.Registry.{resolve}
use kauth_go.Token.Issuer.{issue_access}
use kauth_go.Token.Refresh.{RotationResult, event, revoke_family, rotate}
use kauth_go.Auth.Policy.{check_policy}
use kauth_go.Auth.Http.{
  TokenRequest, Response, token_error, token_response, Tokens, CookieChange, no_change,
  clear_refresh_token, origin_allowed, sanitize_log_value, ttl_seconds, auth_cookies,
}
use kauth_go.Auth.CodeGrant.{Server, server_error, active_session_user, authorization_code_grant}

-- strings.Join(vals, ",").
join_comma : List String → String
join_comma [] = ""
join_comma (v ∷ []) = v
join_comma (v ∷ w ∷ vs) = v ++ "," ++ join_comma (w ∷ vs)

-- The values of an Origin header that is refused.
unfoldable pub refused_origin : List String → Option (List String) → Option (List String)
refused_origin allowed none = none
refused_origin allowed (some []) = if origin_allowed allowed "" then none else some []
refused_origin allowed (some (v ∷ [])) = if origin_allowed allowed v then none else some (v ∷ [])
refused_origin allowed (some (v ∷ w ∷ vs)) = some (v ∷ w ∷ vs)

-- The cookie comes before the form.
unfoldable pub presented : TokenRequest → String
presented req =
    if text_or_empty req.cookie == "" then req.refresh_token else text_or_empty req.cookie

abbrev pub carries_token : TokenRequest → Bool
carries_token req = not (text_or_empty req.cookie == "") || not (req.posted_refresh_token == "")

unfoldable pub reject_origin : TokenRequest → List String → Exec Response
unfolding join_comma
reject_origin req vals =
    let answer = pure (token_error 403 "invalid_origin" no_change) in
    if carries_token req
    then (do
      log (
          event "refresh_invalid_origin" "" "" false
            ("origin=" ++ sanitize_log_value (join_comma vals)))
      answer)
    else answer

-- The event is for the session of the rotated token.
abbrev pub session_event : String → RotationResult → String → Event
session_event kind session details = event kind session.email session.service_id false details

-- A refusal behind the rotation: the family is revoked, so that the new token is of no use.
unfoldable pub deny : Env → RotationResult → String → String → String → Exec Response
deny env session kind reason details = do
  revoked ← attempt (revoke_family env session.family_id reason)
  log (session_event kind session details)
  pure (token_error 400 "invalid_grant" clear_refresh_token)

abbrev pub has_other_service : TokenRequest → RotationResult → Bool
has_other_service req session =
    not (req.service_id == "") && not (req.service_id == session.service_id)

abbrev pub mismatch_event : TokenRequest → RotationResult → Event
mismatch_event req session =
    record (session_event "refresh_service_mismatch" session
      ("stored=" ++ session.service_id ++ " given=" ++ sanitize_log_value req.service_id)) {
        success = true;
      }

unfoldable pub note_service : TokenRequest → RotationResult → Exec (Unit {0})
note_service req session =
    if has_other_service req session then log (mismatch_event req session) else pure tt

module _ (env : Env) (srv : Server) (req : TokenRequest) where
  abbrev pub refreshed : Service → RotationResult → String → Response
  refreshed svc session access =
      token_response
        (record {
          access_token = access;
          refresh_token = session.new_token;
          id_token = none;
          expires_in = ttl_seconds env svc (30 * 24 * 3600);
        })
        (auth_cookies env svc access session.new_token)

  access_issued : RotationResult → Service → Result String → Exec Response
  access_issued session svc (ok access) = pure (refreshed svc session access)
  access_issued session svc (err e) = do
    revoked ← attempt (revoke_family env session.family_id "issue_failed")
    pure (token_error 500 "server_error" clear_refresh_token)

  admit : RotationResult → User → Service → Option String → Exec Response
  unfolding access_issued
  admit session user svc (some reason) =
      deny env session "refresh_policy_denied" "policy_denied" reason
  admit session user svc none = do
    access ← attempt (issue_access env srv.issuer user svc)
    access_issued session svc access

  with_service : RotationResult → User → Option Service → Exec Response
  unfolding admit
  with_service session user none =
      deny env session "refresh_service_invalid" "service_invalid"
        ("stored_service=" ++ sanitize_log_value session.service_id)
  with_service session user (some svc) = do
    note_service req session
    admit session user svc (check_policy user svc)

  -- The service that the row names; the client's is a hint.
  unfoldable pub stored_service : RotationResult → Option Service
  stored_service session =
      if session.service_id == "" then none else resolve env srv.cache "" session.service_id ""

  with_user : RotationResult → Result User → Exec Response
  unfolding with_service
  with_user session (err no_rows) = do
    revoked ← attempt (revoke_family env session.family_id "user_inactive")
    log (session_event "refresh_user_inactive" session "")
    pure (token_error 401 "invalid_or_expired_token" clear_refresh_token)
  with_user session (err e) = pure (token_error 401 "invalid_or_expired_token" no_change)
  with_user session (ok user) = with_service session user (stored_service session)

  with_session : Result RotationResult → Exec Response
  unfolding with_user
  with_session (err token_reuse) = pure (token_error 401 "refresh_token_reused" clear_refresh_token)
  with_session (err token_revoked) =
      pure (token_error 401 "invalid_or_expired_token" clear_refresh_token)
  with_session (err e) = pure server_error
  with_session (ok session) = do
    user ← attempt (active_session_user env session.user_id)
    with_user session user

  with_token : String → Exec Response
  unfolding with_session
  with_token plain =
      if plain == ""
      then pure (token_error 400 "invalid_request" no_change)
      else (do session ← attempt (rotate env plain); with_session session)

  checked_origin : Option (List String) → Exec Response
  unfolding with_token
  checked_origin (some vals) = reject_origin req vals
  checked_origin none = with_token (presented req)

  unfoldable pub refresh_grant : Exec Response
  unfolding checked_origin
  refresh_grant = checked_origin (refused_origin srv.cors_origins req.origins)

  -- POST /token.
  unfoldable pub token : Exec Response
  token =
      if req.grant_type == "authorization_code"
      then authorization_code_grant env srv req
      else refresh_grant
