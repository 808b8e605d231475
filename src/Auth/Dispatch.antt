-- ===== src/Auth/Dispatch.antt =====
-- The routing after a login, and the logout (internal/auth/dispatch.go). The cookies that are set are
-- all deletions. A lookup that the client cancelled is taken for a failed one.
pub mod Forward
pub mod Logout
pub mod Sent
pub mod Level0
pub mod Targets
use Prim.Native.String.{[], ◌∷◌, ◌++◌}
use kauth_go.Prelude.{
  ℕ, ◌+◌, ◌-◌, String, Bool, true, false, not, ◌&&◌, ◌||◌, Option, none, some, List, ◌==◌, eqb, leb,
  ltb, is_some, if◌then◌else◌,
}
use kauth_go.Text.{contains}
use kauth_go.Text.Cut.{count_char}
use kauth_go.Env.{Env}
use kauth_go.Db.{Db, User, Service}
use kauth_go.Db.Table.{select_first}
use kauth_go.Db.Codes.{InsertAuthorizationCodeParams, insert_authorization_code}
use kauth_go.Db.Users.{get_active_user_by_email, get_active_user_by_public_id}
use kauth_go.Exec.{
  Error, Result, ok, err, no_rows, unique_violation, Event, Exec, pure, raise, attempt, call, query,
  log, clock, random, ◌>>=◌, ◌>>◌,
}
use kauth_go.Registry.{resolve, resolve_or_default, primary_callback, is_allowed_callback}
use kauth_go.Token.Epoch.{issued_after_email_epoch}
use kauth_go.Token.Issuer.{Claims}
use kauth_go.Token.Issuer.Verify.{Expect, expect_access, verify}
use kauth_go.Token.Refresh.{event, revoke_family_of_token}
use kauth_go.Auth.CodeGrant.{Server}
use kauth_go.Auth.FetchMeta.{FetchRequest, logout_allowed}
use kauth_go.Auth.Http.{sanitize_log_value}
use kauth_go.Auth.Magic.{normalize_email}
use kauth_go.Auth.OidcRequest.{
  WebCodec, OidcAuthorizeRequest, read_oidc_cookie, build_redirect_with_code,
}

-- The query's values and the values of the cookies redirect_uri and oidc_authz.
pub record DispatchRequest : Type 0 where
  pub token : String
  pub rt : String
  pub service : String
  pub host : String
  pub redirect_cookie : Option String
  pub oidc_cookie : Option String

-- All but the internal error are redirects (303).
pub data DispatchAnswer : Type 0 where
  to_login internal_error : DispatchAnswer
  sent_code : (to : String) → DispatchAnswer
  forwarded : (to : String) → DispatchAnswer

-- The answer, and which of the cookies redirect_uri and oidc_authz are deleted.
pub record Dispatched : Type 0 where
  pub answer : DispatchAnswer
  pub redirect_cleared : Bool
  pub oidc_cleared : Bool

-- 120 seconds back, 30 ahead.
abbrev pub is_fresh : ℕ → ℕ → Bool
is_fresh now issued = leb now (issued + 120) && leb issued (now + 30)

unfoldable pub token_age : Claims → ℕ → Bool
token_age claims now = elim claims.issued_at [ none ↦ false | some issued ↦ is_fresh now issued ]

abbrev seconds : Env → ℕ → ℕ → String
seconds env now issued =
    if leb issued now then env.decimal (now - issued) else "-" ++ env.decimal (issued - now)

abbrev pub age_detail : Env → Claims → ℕ → String
age_detail env claims now = elim claims.issued_at [
  | none ↦ "iat=missing"
  | some issued ↦ "age_s=" ++ seconds env now issued
]

join_comma : List String → String
join_comma List.[] = ""
join_comma (List.◌∷◌ s List.[]) = s
join_comma (List.◌∷◌ s (List.◌∷◌ t ts)) = s ++ "," ++ join_comma (List.◌∷◌ t ts)

unfoldable pub aud_detail : List String → String
unfolding join_comma
aud_detail List.[] = "-"
aud_detail (List.◌∷◌ s ss) = join_comma (List.◌∷◌ s ss)

abbrev pub nullable : String → Option String
nullable s = if s == "" then none else some s

-- strings.Trim(s, `"`).
drop_quotes : String → String
drop_quotes [] = []
drop_quotes (c ∷ s) = let rest = drop_quotes s in if c ∷ [] == "\"" then rest else c ∷ s

-- A quotation mark is kept before what is kept.
trim_end : String → String
trim_end [] = []
trim_end (c ∷ s) = let rest = trim_end s in if c ∷ [] == "\"" && rest == "" then [] else c ∷ rest

abbrev unquoted : Option String → String
unquoted none = ""
unquoted (some v) = trim_end (drop_quotes v)

unfoldable pub read_redirect_cookie : WebCodec → Option String → String
unfolding drop_quotes trim_end
read_redirect_cookie codec none = ""
read_redirect_cookie codec (some value) = unquoted (codec.query_unescape value)

unfoldable pub append_token_and_rt : WebCodec → String → String → String → String
append_token_and_rt codec target token rt =
    let sep = if ltb 0 (count_char "?" target) then "&" else "?" in
    let u = target ++ sep ++ "token=" ++ codec.query_escape token in
    if rt == "" then u else u ++ "#rt=" ++ codec.query_escape rt

-- The services of a token's audience allow the callback.
unfoldable pub audience_allows : Env → List Service → List String → String → Bool
audience_allows env cache List.[] callback = false
audience_allows env cache (List.◌∷◌ id ids) callback =
    is_allowed_callback (resolve env cache "" id "") callback
    || audience_allows env cache ids callback

unfoldable pub insert_code : Env → InsertAuthorizationCodeParams → Exec (Unit {0})
insert_code env p = call env (λ db. elim (insert_authorization_code p db.authorization_codes) [
  | none ↦ (err unique_violation, db)
  | some rows ↦ (ok tt, record db { authorization_codes = rows })
])

-- Where levels 2 to 5 send the user.
pub record Route : Type 0 where
  pub level : String
  pub target : Service

abbrev with_callback : String → Option Service → Option Route
with_callback level none = none
with_callback level (some svc) =
    if primary_callback svc == "" then none else some (record { level = level; target = svc })

abbrev pub or_route : Option Route → Option Route → Option Route
or_route none o = o
or_route (some r) o = some r

module _ (env : Env) (srv : Server) (default_id : String) where
  abbrev has_host : String → Service → Bool
  has_host host svc = elim svc.auth_host [ none ↦ false | some h ↦ env.lower h == env.lower host ]

  abbrev has_org : List String → Service → Bool
  has_org orgs svc = elim svc.default_org [ none ↦ false | some org ↦ contains orgs org ]

  abbrev goes_on : (Service → Bool) → Service → Bool
  goes_on test svc = test svc && not (primary_callback svc == "")

  unfoldable pub level2 : String → Option Route
  level2 id = if id == "" then none else with_callback "2" (resolve env srv.cache "" id "")

  unfoldable pub level3 : String → Option Route
  level3 host =
      if host == ""
      then none
      else with_callback "3" (select_first (goes_on (has_host host)) srv.cache)

  unfoldable pub level4 : List String → Option Route
  level4 orgs = with_callback "4" (select_first (goes_on (has_org orgs)) srv.cache)

  unfoldable pub level5 : Option Route
  level5 = with_callback "5" (resolve_or_default env srv.cache "" default_id "")

  unfoldable pub choose_route : DispatchRequest → Claims → Option Route
  unfolding level2 level3 level4 level5
  choose_route req claims =
      or_route (level2 req.service)
        (or_route (level3 req.host) (or_route (level4 claims.org) level5))

module _ (env : Env) (codec : WebCodec) (srv : Server) (req : DispatchRequest) where
  abbrev clears : Bool
  clears = is_some req.redirect_cookie

  abbrev pub answered : Bool → DispatchAnswer → Dispatched
  answered oidc answer = record { answer = answer; redirect_cleared = clears; oidc_cleared = oidc }

  module _ (claims : Claims) where
    unfoldable pub aud_event : String → Service → Event
    aud_event level target = event "dispatch_aud_mismatch" claims.email target.id false (
        "level=" ++ level ++ " token_aud=" ++ aud_detail claims.audience ++ " target=" ++ target.id)

    unfoldable pub audit_aud_mismatch : String → Service → String → Exec (Unit {0})
    unfolding aud_event
    audit_aud_mismatch level target callback =
        if contains claims.audience target.id
          || audience_allows env srv.cache claims.audience callback
        then pure tt
        else log (aud_event level target)

    unfoldable pub log_service_mismatch : String → String → Exec (Unit {0})
    log_service_mismatch login target =
        let clean = sanitize_log_value login in
        let id =
          if not (clean == "") && is_some (resolve env srv.cache "" clean "") then clean else "" in
        log (
          event "redirect_service_mismatch" claims.email id true
            ("login_service=" ++ codec.quote clean ++ " target_service=" ++ codec.quote target))

    -- Level 0, from its end to its start.
    module _ (oidc : OidcAuthorizeRequest) (svc : Service) where
      refused : String → String → Exec Dispatched
      refused email detail = do
        log (event "dispatch_subject_mismatch" email svc.id false detail)
        pure (answered true to_login)

      abbrev pub code_params : User → String → ℕ → ℕ → InsertAuthorizationCodeParams
      code_params user code now now' = record {
        code = env.sha256_hex code;
        service_id = oidc.client_id;
        email = user.email;
        user_id = some user.id;
        redirect_uri = oidc.redirect_uri;
        scope = nullable oidc.scope;
        nonce = nullable oidc.nonce;
        code_challenge = oidc.code_challenge;
        code_challenge_method = oidc.code_challenge_method;
        created_at = env.format_time now';
        expires_at = env.format_time (now + 60);
      }

      unfoldable pub code_target : Option String → Exec Dispatched
      code_target none = pure (answered true internal_error)
      code_target (some to) = pure (answered true (sent_code to))

      unfoldable pub code_inserted : String → Result (Unit {0}) → Exec Dispatched
      unfolding code_target
      code_inserted code (err e) = pure (answered true internal_error)
      code_inserted code (ok _) =
          code_target (build_redirect_with_code codec oidc.redirect_uri code oidc.state)

      unfoldable pub code_drawn : User → Result String → Exec Dispatched
      unfolding code_inserted
      code_drawn user (err e) = pure (answered true internal_error)
      code_drawn user (ok code) = do
        now ← clock env
        now' ← clock env
        inserted ← attempt (insert_code env (code_params user code now now'))
        code_inserted code inserted

      -- The token's subject, or its address, is the user's.
      unfoldable pub is_subject : User → Bool
      is_subject user =
          if svc.sub_format == "id"
          then normalize_email env claims.email == user.email
          else claims.subject == user.email

      unfoldable pub with_user : Result User → Exec Dispatched
      unfolding refused is_subject code_drawn
      with_user (err no_rows) = refused claims.email "level=0 reason=no_active_user"
      with_user (err e) = pure (answered true internal_error)
      with_user (ok user) =
          if not (is_subject user)
          then refused user.email ("level=0 sub_format=" ++ svc.sub_format)
          else if not (issued_after_email_epoch env claims user)
          then refused user.email "level=0 reason=email_reassigned"
          else (do code ← attempt (random env); code_drawn user code)

      unfoldable pub token_user : Exec User
      token_user = query env (λ db.
          if svc.sub_format == "id"
          then get_active_user_by_public_id claims.subject db.users
          else get_active_user_by_email (normalize_email env claims.email) db.users)

      unfoldable pub for_client : Option Claims → Exec Dispatched
      unfolding with_user token_user
      for_client none = do log (aud_event "0" svc); pure (answered true to_login)
      for_client (some again) = do
        now ← clock env
        if token_age claims now then (do user ← attempt token_user; with_user user) else (do
          log (event "dispatch_token_stale" claims.email svc.id false (age_detail env claims now))
          pure (answered true to_login))

    abbrev pub expect_client : OidcAuthorizeRequest → Expect
    expect_client oidc = record { token_use = "access"; audience = oidc.client_id }

    unfoldable pub level0 : OidcAuthorizeRequest → Option Service → Exec Dispatched
    unfolding for_client
    level0 oidc none = pure (answered true to_login)
    level0 oidc (some svc) =
        if not (req.service == oidc.client_id)
          || not (is_allowed_callback (some svc) oidc.redirect_uri)
        then pure (answered true to_login)
        else for_client oidc svc (verify srv.issuer req.token (expect_client oidc))
