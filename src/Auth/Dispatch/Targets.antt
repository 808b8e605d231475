-- ===== src/Auth/Dispatch/Targets.antt =====
-- Where the routing sends a token.
use Prim.Native.String.{◌++◌}
use kauth_go.Prelude.{
  is_some, ◌≡◌, refl, ap, String, Bool, true, false, not, Option, none, some, List, ◌==◌,
  if◌then◌else◌, unless-some,
}
use kauth_go.Env.{Env}
use kauth_go.Db.{User, Service}
use kauth_go.Db.Table.{select_first, exists_where, select_first-true}
use kauth_go.Exec.{Result, ok, err, no_rows, World, pure, attempt, random}
use kauth_go.Exec.Outcome.{Returns, Returns-pure, Returns-if, Returns-bind}
use kauth_go.Registry.{primary_callback, is_allowed_callback}
use kauth_go.Registry.Members.{
  InCache, OfCache, select_first-OfCache, resolve-OfCache, resolve_or_default-OfCache,
  primary_callback-is_allowed_callback,
}
use kauth_go.Token.Epoch.{issued_after_email_epoch}
use kauth_go.Token.Issuer.{Claims}
use kauth_go.Auth.CodeGrant.{Server}
use kauth_go.Auth.OidcRequest.{WebCodec, OidcAuthorizeRequest}
use kauth_go.Auth.Dispatch.Forward.{
  level1, send_on, levels, dispatch_verified, serve_dispatch, routed, cookie_target,
}
use kauth_go.Auth.Dispatch.{
  DispatchRequest, to_login, forwarded, Dispatched, append_token_and_rt, Route, with_callback,
  or_route, level2, level3, level4, level5, choose_route, refused, code_target, code_inserted,
  code_drawn, with_user, for_client, is_subject, level0, goes_on, has_host, has_org,
}

-- The route's service is of the cache and has a callback.
record IsRoute (cache : List Service) (o : Option Route) : Type 0 where
  sound :
      (r : Route)
      → o ≡ some r
      → InCache cache r.target
        × (is_allowed_callback (some r.target) (primary_callback r.target) ≡ true)

with_callback-IsRoute :
    (cache : List Service) (level : String) (o : Option Service)
    → OfCache cache o
    → IsRoute cache (with_callback level o)
with_callback-IsRoute cache level none h = record { sound = λ r e. cc }
with_callback-IsRoute cache level (some svc) h = record { sound = sound }
  where
    sound :
        (r : Route)
        → with_callback level (some svc) ≡ some r
        → InCache cache r.target
          × (is_allowed_callback (some r.target) (primary_callback r.target) ≡ true)
    sound r e =
        let (full, taken) = unless-some (primary_callback svc == "") _ r e in
        let is : Path Route (record { level = level; target = svc }) r = cc in
        let same : svc ≡ r.target = ap (λ (x : Route). x.target) is in
        rw (← same) (h.found svc refl, primary_callback-is_allowed_callback svc full)

or_route-IsRoute :
    (cache : List Service) (a b : Option Route)
    → IsRoute cache a
    → IsRoute cache b
    → IsRoute cache (or_route a b)
or_route-IsRoute cache none b h k = k
or_route-IsRoute cache (some r) b h k = h

unless-IsRoute :
    (cache : List Service) (b : Bool) (o : Option Route)
    → IsRoute cache o
    → IsRoute cache (if b then none else o)
unless-IsRoute cache true o h = record { sound = λ r e. cc }
unless-IsRoute cache false o h = h

choose_route-IsRoute :
    (env : Env) (srv : Server) (default_id : String) (req : DispatchRequest) (claims : Claims)
    → IsRoute srv.cache (choose_route env srv default_id req claims)
unfolding choose_route level2 level3 level4 level5
choose_route-IsRoute env srv default_id req claims =
    or_route-IsRoute srv.cache _ _
      (unless-IsRoute srv.cache (req.service == "") _
        (with_callback-IsRoute srv.cache "2" _ (resolve-OfCache env srv.cache "" req.service "")))
      (or_route-IsRoute srv.cache _ _
        (unless-IsRoute srv.cache (req.host == "") _ (
          with_callback-IsRoute srv.cache "3" _ (
            select_first-OfCache (goes_on env srv default_id (has_host env srv default_id req.host))
              srv.cache)))
        (or_route-IsRoute srv.cache _ _
          (with_callback-IsRoute srv.cache "4" _ (
            select_first-OfCache
              (goes_on env srv default_id (has_org env srv default_id claims.org)) srv.cache))
          (with_callback-IsRoute srv.cache "5" _
            (resolve_or_default-OfCache env srv.cache "" default_id ""))))

-- The token is sent to a callback that a service of the cache allows.
pub record IsForward (codec : WebCodec) (cache : List Service) (req : DispatchRequest) (to : String)
    : Type 0 where
  pub callback : String
  pub registered : exists_where (λ s. is_allowed_callback (some s) callback) cache ≡ true
  pub location : to ≡ append_token_and_rt codec callback req.token req.rt

module _ (env : Env) (codec : WebCodec) (srv : Server) (default_id : String)
    (req : DispatchRequest) where
  abbrev Sends : Dispatched → Type 0
  Sends d = (to : String) → d.answer ≡ forwarded to → IsForward codec srv.cache req to

  abbrev at_login : Bool → Bool → Dispatched
  at_login a b = record { answer = to_login; redirect_cleared = a; oidc_cleared = b }

  module _ (claims : Claims) (oidc : OidcAuthorizeRequest) (svc : Service) where
    code_target-Returns :
        (o : Option String) → Returns Sends (code_target env codec srv req claims oidc svc o)
    unfolding code_target
    code_target-Returns none = Returns-pure _ (λ to clash. cc)
    code_target-Returns (some to) = Returns-pure _ (λ to clash. cc)

    inserted-Returns :
        (code : String) (r : Result (Unit {0}))
        → Returns Sends (code_inserted env codec srv req claims oidc svc code r)
    unfolding code_inserted
    inserted-Returns code (err e) = Returns-pure _ (λ to clash. cc)
    inserted-Returns code (ok u) = code_target-Returns _

    drawn-Returns :
        (user : User) (r : Result String)
        → Returns Sends (code_drawn env codec srv req claims oidc svc user r)
    unfolding code_drawn
    drawn-Returns user (err e) = Returns-pure _ (λ to clash. cc)
    drawn-Returns user (ok code) =
        Returns-bind _ _
          (λ now. Returns-bind _ _ (λ now'. Returns-bind _ _ (inserted-Returns code)))

    refused-Returns :
        (email detail : String)
        → Returns Sends (refused env codec srv req claims oidc svc email detail)
    unfolding refused
    refused-Returns email detail = Returns-bind _ _ (λ _. Returns-pure _ (λ to clash. cc))

    user-Returns : (r : Result User) → Returns Sends (with_user env codec srv req claims oidc svc r)
    unfolding with_user
    user-Returns (err no_rows) = refused-Returns _ _
    user-Returns (err e) = Returns-pure _ (λ to clash. cc)
    user-Returns (ok user) =
        Returns-if (not (is_subject env codec srv req claims oidc svc user)) _ _
          (refused-Returns user.email ("level=0 sub_format=" ++ svc.sub_format))
          (Returns-if (not (issued_after_email_epoch env claims user)) _ _
            (refused-Returns user.email "level=0 reason=email_reassigned")
            (Returns-bind (attempt (random env)) _ (drawn-Returns user)))

    client-Returns :
        (o : Option Claims) → Returns Sends (for_client env codec srv req claims oidc svc o)
    unfolding for_client
    client-Returns none = Returns-bind _ _ (λ _. Returns-pure _ (λ to clash. cc))
    client-Returns (some again) = Returns-bind _ _ (λ now.
        Returns-if _ _ _ (Returns-bind _ _ user-Returns)
          (Returns-bind _ _ (λ _. Returns-pure _ (λ to clash. cc))))

  login-Returns : (a b : Bool) → Returns Sends (pure (at_login a b))
  login-Returns a b = Returns-pure _ (λ to clash. cc)

  level0-Returns :
      (claims : Claims) (oidc : OidcAuthorizeRequest) (o : Option Service)
      → Returns Sends (level0 env codec srv req claims oidc o)
  unfolding level0
  level0-Returns claims oidc none = Returns-pure _ (λ to clash. cc)
  level0-Returns claims oidc (some svc) =
      Returns-if _ _ _ (login-Returns (is_some req.redirect_cookie) true)
        (client-Returns claims oidc svc _)

  forwarded-Sends :
      (callback : String) (a b : Bool)
      → exists_where (λ s. is_allowed_callback (some s) callback) srv.cache ≡ true
      → Sends (record {
        answer = forwarded (append_token_and_rt codec callback req.token req.rt);
        redirect_cleared = a;
        oidc_cleared = b;
      })
  forwarded-Sends callback a b h to e =
      let same : append_token_and_rt codec callback req.token req.rt ≡ to = cc in
      record { callback = callback; registered = h; location = rw same refl }

  routed-Returns :
      (claims : Claims) (o : Option Route)
      → IsRoute srv.cache o
      → Returns Sends (routed env codec srv default_id req claims o)
  unfolding routed
  routed-Returns claims none h = Returns-pure _ (λ to clash. cc)
  routed-Returns claims (some r) h =
      let (member, allowed) = h.sound r refl in
      Returns-bind _ _ (λ _.
        Returns-pure _
          (forwarded-Sends (primary_callback r.target) true false (member.meets _ allowed)))

  level1-Returns :
      (claims : Claims) (uri : String) (o : Option Service)
      → ((s : Service)
          → o ≡ some s
          → exists_where (λ s. is_allowed_callback (some s) uri) srv.cache ≡ true)
      → Returns Sends (level1 env codec srv default_id req claims uri o)
  unfolding level1
  level1-Returns claims uri none h =
      routed-Returns claims _ (choose_route-IsRoute env srv default_id req claims)
  level1-Returns claims uri (some target) h = Returns-bind _ _ (λ _. Returns-bind _ _ (λ _.
      Returns-pure _ (forwarded-Sends uri (is_some req.redirect_cookie) false (h target refl))))

  cookie_target-registered :
      (uri : String) (s : Service)
      → cookie_target env codec srv default_id req uri ≡ some s
      → exists_where (λ s. is_allowed_callback (some s) uri) srv.cache ≡ true
  cookie_target-registered uri s e =
      let test : Service → Bool = λ s. is_allowed_callback (some s) uri in
      let (full, taken) = unless-some (uri == "") (select_first test srv.cache) s e in
      ((select_first-OfCache test srv.cache).found s taken).meets test
        (select_first-true test srv.cache s taken)

  send_on-Returns :
      (claims : Claims) (reason : String)
      → Returns Sends (send_on env codec srv default_id req claims reason)
  unfolding send_on
  send_on-Returns claims reason =
      Returns-if _ _ _ (Returns-bind _ _ (λ _. login-Returns (is_some req.redirect_cookie) false)) (
        Returns-bind _ _
          (λ now. Returns-bind _ _ (λ _. level1-Returns claims _ _ (cookie_target-registered _))))

  levels-Returns :
      (claims : Claims) (o : Option OidcAuthorizeRequest)
      → Returns Sends (levels env codec srv default_id req claims o)
  unfolding levels
  levels-Returns claims (some oidc) = level0-Returns claims oidc _
  levels-Returns claims none = Returns-bind _ _ (send_on-Returns claims)

  verified-Returns :
      (o : Option Claims) → Returns Sends (dispatch_verified env codec srv default_id req o)
  unfolding dispatch_verified
  verified-Returns none = Returns-pure _ (λ to clash. cc)
  verified-Returns (some claims) = levels-Returns claims _

  -- Whatever cookies, host and parameters a request has, a token is sent on only to a callback that
  -- a service of the registry lists.
  pub forwarded-IsForward :
      (w : World) (d : Dispatched) (to : String)
      → (serve_dispatch env codec srv default_id req w).0 ≡ ok d
      → d.answer ≡ forwarded to
      → IsForward codec srv.cache req to
  unfolding serve_dispatch
  forwarded-IsForward w d to e =
      (Returns-if _ _ _ (login-Returns false false) (verified-Returns _)).value w d e to
