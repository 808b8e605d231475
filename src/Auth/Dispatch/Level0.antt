-- ===== src/Auth/Dispatch/Level0.antt =====
-- When the routing hands out an authorization code.
use kauth_go.Prelude.{◌≡◌, String, true, false, some, List, is_some}
use kauth_go.Env.{Env}
use kauth_go.Db.{Service}
use kauth_go.Exec.{ok, World, Exec, pure, log, ◌>>◌}
use kauth_go.Registry.{resolve, is_allowed_callback}
use kauth_go.Token.Refresh.{event}
use kauth_go.Token.Issuer.{Claims}
use kauth_go.Token.Issuer.Verify.{expect_access, verify}
use kauth_go.Auth.CodeGrant.{Server}
use kauth_go.Auth.OidcRequest.{WebCodec, OidcAuthorizeRequest, read_oidc_cookie}
use kauth_go.Auth.Dispatch.Sent.{IsSent}
use kauth_go.Auth.Dispatch.{
  DispatchRequest, to_login, sent_code, Dispatched, token_age, age_detail, answered,
}

module _ (env : Env) (codec : WebCodec) (srv : Server) (req : DispatchRequest) (claims : Claims)
    (oidc : OidcAuthorizeRequest) (svc : Service) where
  -- What the code wants of the token, too: it is 120 seconds old at most by the clock.
  pub record IsGrantable (w after : World) (to : String) : Type 0 where
    pub sent : IsSent env codec srv req claims oidc svc w.db.users after to
    pub fresh : token_age claims (env.time w.step) ≡ true

  stale : World → Exec Dispatched
  stale w = do
    log (
        event "dispatch_token_stale" claims.email svc.id false
          (age_detail env claims (env.time w.step)))
    pure (answered env codec srv req true to_login)

-- The request's cookie names the service that the login was for, and a callback that this service
-- lists; the token is an access token for this service.
pub record IsGrant (env : Env) (codec : WebCodec) (srv : Server) (req : DispatchRequest)
    (w after : World) (to : String) : Type 0 where
  pub oidc : OidcAuthorizeRequest
  pub asked : read_oidc_cookie codec req.oidc_cookie ≡ some oidc
  pub svc : Service
  pub resolved : resolve env srv.cache "" oidc.client_id "" ≡ some svc
  pub same_service : req.service ≡ oidc.client_id
  pub allowed : is_allowed_callback (some svc) oidc.redirect_uri ≡ true
  pub claims : Claims
  pub verified : verify srv.issuer req.token expect_access ≡ some claims
  pub addressed :
      is_some
        (verify srv.issuer req.token (record { token_use = "access"; audience = oidc.client_id }))
      ≡ true
  pub grantable : IsGrantable env codec srv req claims oidc svc w after to

module _ (env : Env) (codec : WebCodec) (srv : Server) (default_id : String) (req : DispatchRequest)
    (start : World) where
  abbrev Grants : World → Dispatched → Type 0
  Grants after d =
      (to : String) → d.answer ≡ sent_code to → IsGrant env codec srv req start after to

  -- No code is sent.
  abbrev Withholds : Dispatched → Type 0
  Withholds d = (after : World) → Grants after d

  -- What one run, from `start`, sends.
  record GrantsHere (m : Exec Dispatched) : Type 0 where
    value : (d : Dispatched) → (m start).0 ≡ ok d → Grants (m start).1 d
