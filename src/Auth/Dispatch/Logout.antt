-- ===== src/Auth/Dispatch/Logout.antt =====
-- `ServeLogout`.
use kauth_go.Prelude.{
  String, Bool, true, false, ◌&&◌, Option, none, some, List, ◌==◌, if◌then◌else◌, refl, ◌≡◌, ◌⊎◌,
  inl, inr,
}
use kauth_go.Env.{Env}
use kauth_go.Db.{Service}
use kauth_go.Db.Table.{exists_where}
use kauth_go.Exec.{ok, World, Exec, pure, log, ◌>>=◌, ◌>>◌}
use kauth_go.Exec.Outcome.{Returns-pure, Returns-if, Returns-bind}
use kauth_go.Registry.{resolve_or_default, is_allowed_callback}
use kauth_go.Token.Refresh.{event, revoke_family_of_token}
use kauth_go.Auth.CodeGrant.{Server}
use kauth_go.Auth.FetchMeta.{FetchRequest, logout_allowed}

pub record LogoutRequest : Type 0 where
  pub fetch : FetchRequest
  pub refresh_token : Option String
  pub redirect_uri : String

-- Where the redirect leads, and the access cookie that is deleted together with refresh_token.
pub record LoggedOut : Type 0 where
  pub to : String
  pub cleared : Option String

module _ (env : Env) (srv : Server) (default_id : String) (req : LogoutRequest) where
  unfoldable pub logout_target : String
  logout_target =
      if not_empty && exists_where (λ s. is_allowed_callback (some s) req.redirect_uri) srv.cache
      then req.redirect_uri
      else "/login"
    where
      not_empty : Bool
      not_empty = if req.redirect_uri == "" then false else true

  abbrev cookie_name : Option Service → String
  cookie_name none = "auth_token"
  cookie_name (some svc) = svc.jwt_cookie_name

  unfoldable pub log_logout : Option (String × String) → Exec (Unit {0})
  log_logout none = pure tt
  log_logout (some (email, service)) = log (event "user_logout" email service true "")

  unfoldable pub revoke_refresh_family : Option String → Exec (Unit {0})
  unfolding log_logout
  revoke_refresh_family none = pure tt
  revoke_refresh_family (some plain) =
      if plain == ""
      then pure tt
      else (do owner ← revoke_family_of_token env plain "user_logout"; log_logout owner)

  unfoldable pub serve_logout : Exec LoggedOut
  unfolding logout_target revoke_refresh_family
  serve_logout =
      if logout_allowed req.fetch
      then (do
        revoke_refresh_family req.refresh_token
        pure (record {
          to = logout_target;
          cleared = some (cookie_name (resolve_or_default env srv.cache "" default_id ""));
        }))
      else pure (record { to = logout_target; cleared = none })

-- The target is the login page or a callback that a service lists.
pub IsTarget : List Service → String → Type 0
IsTarget cache to =
    (to ≡ "/login") ⊎ (exists_where (λ s. is_allowed_callback (some s) to) cache ≡ true)

logout_target-IsTarget :
    (env : Env) (srv : Server) (default_id : String) (req : LogoutRequest)
    → IsTarget srv.cache (logout_target env srv default_id req)
unfolding logout_target IsTarget
logout_target-IsTarget env srv default_id req = go _ _ refl
  where
    go :
        (a b : Bool)
        → exists_where (λ s. is_allowed_callback (some s) req.redirect_uri) srv.cache ≡ b
        → ((if a && b then req.redirect_uri else "/login") ≡ "/login")
          ⊎ (exists_where
                (λ s. is_allowed_callback (some s) (if a && b then req.redirect_uri else "/login"))
                srv.cache
              ≡ true)
    go true true e = inr e
    go true false e = inl refl
    go false b e = inl refl

-- A logout that the fetch metadata forbids changes nothing and deletes no cookie. Whether it is
-- allowed or not, the user is sent to the login page or to a callback that a service lists.
pub logout_guarded :
    (env : Env) (srv : Server) (default_id : String) (req : LogoutRequest) (w : World)
    → (logout_allowed req.fetch ≡ false
        → serve_logout env srv default_id req w
          ≡ (ok (record { to = logout_target env srv default_id req; cleared = none }), w))
      × ((out : LoggedOut)
          → (serve_logout env srv default_id req w).0 ≡ ok out
          → IsTarget srv.cache out.to)
unfolding serve_logout pure
logout_guarded env srv default_id req w =
    let there = logout_target-IsTarget env srv default_id req in
    (
      (λ h. rw h refl),
      (λ out.
          (Returns-if {Q = λ (o : LoggedOut). IsTarget srv.cache o.to} (logout_allowed req.fetch) _
              _ (Returns-bind _ _ (λ _. Returns-pure _ there)) (Returns-pure _ there)).value
            w out),
    )
