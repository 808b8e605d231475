-- ===== src/Tests/SocialService.antt =====
-- Runs of the choice of a login's service.
use kauth_go.Prelude.{◌≡◌, refl, String, Bool, none, some, List, [], ◌∷◌, ◌==◌}
use kauth_go.Db.{Service}
use kauth_go.Auth.SocialService.{resolve_requested_service, IsOnHost, requested-IsOnHost}
use kauth_go.Tests.Fixtures.{env, app}

abbrev tenant : Service
tenant = record (app none) { id = "tenant"; auth_host = some "tenant.no"; is_default = 0 }

abbrev main_app : Service
main_app = record (app none) { is_default = 1 }

abbrev tenants : List Service
tenants = tenant ∷ main_app ∷ []

abbrev equal_fold : String → String → Bool
equal_fold a b = a == b

asked : resolve_requested_service env equal_fold tenants "tenant.no" "tenant" ≡ some tenant
unfolding resolve_requested_service kauth_go.Auth.SocialService.with_named kauth_go.Registry.resolve
    kauth_go.Registry.redirect_host kauth_go.Registry.by_domain kauth_go.Registry.by_host
    kauth_go.Registry.by_id kauth_go.Registry.by_suffix kauth_go.Registry.resolve_or_default
    kauth_go.Db.Table.select_first
asked = refl

-- The tenant's ID is asked for on the app's host, which no auth host names: the default service.
not_asked : resolve_requested_service env equal_fold tenants "elsewhere" "tenant" ≡ some main_app
unfolding resolve_requested_service kauth_go.Auth.SocialService.with_named kauth_go.Registry.resolve
    kauth_go.Registry.redirect_host kauth_go.Registry.by_domain kauth_go.Registry.by_host
    kauth_go.Registry.by_id kauth_go.Registry.by_suffix kauth_go.Registry.resolve_or_default
    kauth_go.Registry.default_service kauth_go.Db.Table.select_first
not_asked = refl

requested-IsOnHost_example : IsOnHost env equal_fold tenants "tenant.no" tenant
requested-IsOnHost_example =
    requested-IsOnHost env equal_fold tenants "tenant.no" "tenant" tenant asked
