-- ===== src/Auth/SocialService.antt =====
-- resolveRequestedService of internal/auth/social_service.go. strings.EqualFold is a parameter.
use mathlib.Core.Path.{subst}
use kauth_go.Prelude.{
  ◌≡◌, refl, String, Bool, true, false, not, ◌||◌, Option, none, some, List, ◌==◌, if◌then◌else◌,
  ◌⊎◌, inl, inr, ◌∙◌, unless-some,
}
use kauth_go.Env.{Env}
use kauth_go.Db.{Service}
use kauth_go.Db.Table.{select_first, select_first-true}
use kauth_go.Registry.{
  has_auth_host, by_host, by_domain, by_id, by_suffix, redirect_host, or_else, resolve,
  default_service, resolve_or_default,
}

module _ (env : Env) (equal_fold : String → String → Bool) (cache : List Service) where
  -- May the ID name the service on this host?
  abbrev pub is_home : String → Service → Bool
  is_home host svc = elim svc.auth_host [ none ↦ true | some h ↦ h == "" || equal_fold h host ]

  unfoldable pub with_named : String → Option Service → Option Service
  with_named host none = resolve_or_default env cache host "" ""
  with_named host (some svc) =
      if is_home host svc then some svc else resolve_or_default env cache host "" ""

  unfoldable pub resolve_requested_service : (host requested_id : String) → Option Service
  unfolding with_named
  resolve_requested_service host requested_id =
      if not (requested_id == "")
      then with_named host (resolve env cache "" requested_id "")
      else resolve_or_default env cache host "" ""

  -- The service has no other host than this one, is the one that the host belongs to, or is the
  -- default service.
  pub IsOnHost : String → Service → Type 0
  IsOnHost host svc =
      (is_home host svc ≡ true)
      ⊎ ((has_auth_host env host svc ≡ true) ⊎ (default_service cache ≡ some svc))

  by_host-meets :
      (host : String) (svc : Service)
      → by_host env host cache ≡ some svc
      → has_auth_host env host svc ≡ true
  unfolding by_host
  by_host-meets host svc h =
      select_first-true (has_auth_host env host) cache svc
        (unless-some (host == "") (select_first (has_auth_host env host) cache) svc h).1

  host_or_default :
      (host : String) (svc : Service) (o : Option Service)
      → by_host env host cache ≡ o
      → or_else (or_else o none) (default_service cache) ≡ some svc
      → IsOnHost host svc
  unfolding IsOnHost
  host_or_default host svc none is_none h = inr (inr h)
  host_or_default host svc (some s) is_some h = inr (inl (by_host-meets host svc (is_some ∙ h)))

  unnamed-IsOnHost :
      (host : String) (svc : Service)
      → resolve_or_default env cache host "" "" ≡ some svc
      → IsOnHost host svc
  unfolding resolve_or_default resolve redirect_host by_domain by_id by_suffix
  unnamed-IsOnHost host svc h = host_or_default host svc (by_host env host cache) refl h

  home-IsOnHost :
      (b : Bool) (host : String) (named svc : Service)
      → is_home host named ≡ b
      → (if b then some named else resolve_or_default env cache host "" "") ≡ some svc
      → IsOnHost host svc
  unfolding IsOnHost
  home-IsOnHost true host named svc home h =
      let same : named ≡ svc = cc in inl (subst (λ s. is_home host s ≡ true) same home)
  home-IsOnHost false host named svc home h = unnamed-IsOnHost host svc h

  named-IsOnHost :
      (host : String) (svc : Service) (o : Option Service)
      → with_named host o ≡ some svc
      → IsOnHost host svc
  unfolding with_named
  named-IsOnHost host svc none h = unnamed-IsOnHost host svc h
  named-IsOnHost host svc (some named) h = home-IsOnHost (is_home host named) host named svc refl h

  -- Whatever service ID a login page asks for, the login starts for a service that has no other
  -- auth host than the request's, for the one that the request's host belongs to, or for the
  -- default service.
  pub requested-IsOnHost :
      (host requested_id : String) (svc : Service)
      → resolve_requested_service host requested_id ≡ some svc
      → IsOnHost host svc
  unfolding resolve_requested_service
  requested-IsOnHost host requested_id svc h = go (not (requested_id == "")) h
    where
      go :
          (b : Bool)
          → (if b
              then with_named host (resolve env cache "" requested_id "")
              else resolve_or_default env cache host "" "")
            ≡ some svc
          → IsOnHost host svc
      go true e = named-IsOnHost host svc (resolve env cache "" requested_id "") e
      go false e = unnamed-IsOnHost host svc e
