-- ===== src/Auth/Dispatch/Forward.antt =====
-- Levels 1 to 5 of the routing, and the whole of `ServeDispatch`.
use Prim.Native.String.{◌++◌}
use kauth_go.Prelude.{
  ℕ, String, Bool, true, false, not, ◌&&◌, ◌||◌, Option, none, some, ◌==◌, is_some, if◌then◌else◌,
}
use kauth_go.Text.{contains}
use kauth_go.Env.{Env}
use kauth_go.Db.{User, Service}
use kauth_go.Db.Table.{select_first, exists_where}
use kauth_go.Db.Users.{get_active_user_by_email}
use kauth_go.Exec.{Result, ok, err, no_rows, Exec, pure, attempt, query, log, clock, ◌>>=◌, ◌>>◌}
use kauth_go.Registry.{resolve, primary_callback, is_allowed_callback}
use kauth_go.Token.Epoch.{issued_after_email_epoch}
use kauth_go.Token.Issuer.{Claims}
use kauth_go.Token.Issuer.Verify.{expect_access, verify}
use kauth_go.Token.Refresh.{event}
use kauth_go.Auth.CodeGrant.{Server}
use kauth_go.Auth.Magic.{normalize_email}
use kauth_go.Auth.OidcRequest.{WebCodec, OidcAuthorizeRequest, read_oidc_cookie}
use kauth_go.Auth.Dispatch.{
  DispatchRequest, to_login, forwarded, Dispatched, token_age, age_detail, read_redirect_cookie,
  append_token_and_rt, Route, choose_route, answered, audit_aud_mismatch, log_service_mismatch,
  level0,
}

-- The subject is the user's address or public ID.
unfoldable pub is_own_subject : Claims → User → Bool
is_own_subject claims user = claims.subject == user.email || claims.subject == user.public_id

-- Why the token of a found user is not sent on; "" if it is.
unfoldable pub user_reject_reason : Env → Claims → User → String
unfolding is_own_subject
user_reject_reason env claims user =
    if not (is_own_subject claims user)
    then "sub_mismatch"
    else if not (is_some claims.issued_at)
    then "iat_missing"
    else if not (issued_after_email_epoch env claims user)
    then "email_reassigned"
    else ""

-- A lookup that fails lets the token through.
unfoldable pub looked_up : Env → Claims → Result User → Exec String
unfolding user_reject_reason
looked_up env claims (err no_rows) = pure "no_active_user"
looked_up env claims (err e) = do
  log (event "dispatch_subject_check_skipped" claims.email "" true "level=1-5 reason=db_error")
  pure ""
looked_up env claims (ok user) = pure (user_reject_reason env claims user)

unfoldable pub forward_reject_reason : Env → Claims → Exec String
unfolding looked_up
forward_reject_reason env claims = do
  user ←
      attempt
        (query env (λ db. get_active_user_by_email (normalize_email env claims.email) db.users))
  looked_up env claims user

module _ (env : Env) (codec : WebCodec) (srv : Server) (default_id : String)
    (req : DispatchRequest) where
  unfoldable pub routed : Claims → Option Route → Exec Dispatched
  routed claims none = pure (answered env codec srv req false to_login)
  routed claims (some r) = do
    audit_aud_mismatch env codec srv req claims r.level r.target (primary_callback r.target)
    pure (record {
      answer = forwarded (append_token_and_rt codec (primary_callback r.target) req.token req.rt);
      redirect_cleared = true;
      oidc_cleared = false;
    })

  -- The login's service is among those that share the callback.
  abbrev is_shared : String → Bool
  is_shared uri =
      exists_where (λ s. is_allowed_callback (some s) uri && s.id == req.service) srv.cache

  unfoldable pub note_service : Claims → String → Service → Exec (Unit {0})
  note_service claims uri target =
      if is_shared uri
      then pure tt
      else log_service_mismatch env codec srv req claims req.service target.id

  unfoldable pub note_audience : Claims → String → Service → Exec (Unit {0})
  note_audience claims uri target =
      if not (is_shared uri) && contains claims.audience req.service
      then pure tt
      else audit_aud_mismatch env codec srv req claims "1" target uri

  unfoldable pub level1 : Claims → String → Option Service → Exec Dispatched
  unfolding routed note_service note_audience
  level1 claims uri none = routed claims (choose_route env srv default_id req claims)
  level1 claims uri (some target) = do
    note_service claims uri target
    note_audience claims uri target
    pure (
        answered env codec srv req false
          (forwarded (append_token_and_rt codec uri req.token req.rt)))

  -- The first service that allows the URI of the cookie.
  abbrev pub cookie_target : String → Option Service
  cookie_target uri =
      if uri == "" then none else select_first (λ s. is_allowed_callback (some s) uri) srv.cache

  unfoldable pub note_age : Claims → ℕ → Exec (Unit {0})
  note_age claims now =
      if token_age claims now
      then pure tt
      else log (
          event "dispatch_token_stale" claims.email "" true
            ("level=1-5 " ++ age_detail env claims now ++ " mode=audit"))

  unfoldable pub send_on : Claims → String → Exec Dispatched
  unfolding level1 note_age
  send_on claims reason =
      if not (reason == "")
      then (do
        log (
            event "dispatch_subject_mismatch" claims.email "" false ("level=1-5 reason=" ++ reason))
        pure (answered env codec srv req false to_login))
      else (do
        now ← clock env
        note_age claims now
        let uri = read_redirect_cookie codec req.redirect_cookie in
            level1 claims uri (cookie_target uri))

  unfoldable pub levels : Claims → Option OidcAuthorizeRequest → Exec Dispatched
  unfolding send_on
  levels claims (some oidc) =
      level0 env codec srv req claims oidc (resolve env srv.cache "" oidc.client_id "")
  levels claims none = do reason ← forward_reject_reason env claims; send_on claims reason

  unfoldable pub dispatch_verified : Option Claims → Exec Dispatched
  unfolding levels
  dispatch_verified none =
      pure (record { answer = to_login; redirect_cleared = false; oidc_cleared = false })
  dispatch_verified (some claims) = levels claims (read_oidc_cookie codec req.oidc_cookie)

  -- A missing token fails no other way than one that is not accepted.
  unfoldable pub serve_dispatch : Exec Dispatched
  unfolding dispatch_verified
  serve_dispatch =
      if req.token == ""
      then pure (record { answer = to_login; redirect_cleared = false; oidc_cleared = false })
      else dispatch_verified (verify srv.issuer req.token expect_access)
