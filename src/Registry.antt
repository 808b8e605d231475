-- ===== src/Registry.antt =====
-- The service registry (internal/service/registry.go and callback.go): the active services of the
-- cache, in their order, and how a request finds its service among them. The lock is left out: the
-- modelled operations read the cache.
pub mod Suffix
pub mod Members
use Prim.Native.String.{◌++◌}
use kauth_go.Prelude.{
  ℕ, String, Bool, true, false, ◌&&◌, Option, none, some, List, [], ◌∷◌, ◌==◌, ltb, eqb,
  if◌then◌else◌,
}
use kauth_go.Text.{split_csv, contains, has_suffix, byte_length}
use kauth_go.Env.{Env}
use kauth_go.Db.{Service}
use kauth_go.Db.Table.{select_first}

-- The host of a redirect URI in lower case, if it has one.
unfoldable pub redirect_host : Env → String → Option String
redirect_host env uri = if uri == "" then none else elim (env.url_host uri) [
  | none ↦ none
  | some h ↦ if h == "" then none else some (env.lower h)
]

abbrev pub domain_of : Env → Service → String
domain_of env s = env.lower s.domain

-- Level 1: the host of the redirect URI is a service's domain.
unfoldable pub by_domain : Env → Option String → List Service → Option Service
by_domain env none cache = none
by_domain env (some host) cache = select_first (λ s. domain_of env s == host) cache

abbrev pub has_auth_host : Env → String → Service → Bool
has_auth_host env host s = elim s.auth_host [
  | none ↦ false
  | some h ↦ env.lower h == env.lower host
]

-- Level 2: the Host header.
unfoldable pub by_host : Env → String → List Service → Option Service
by_host env host cache = if host == "" then none else select_first (has_auth_host env host) cache

-- Level 3: the service ID.
unfoldable pub by_id : String → List Service → Option Service
by_id id cache = if id == "" then none else select_first (λ s. s.id == id) cache

-- Is the host a proper sub-domain of the service's domain?
abbrev pub is_sub_domain : Env → String → Service → Bool
is_sub_domain env host s = has_suffix host ("." ++ domain_of env s)

abbrev pub is_longer : Env → Service → Option Service → Bool
is_longer env s none = true
is_longer env s (some best) = ltb (byte_length (domain_of env best)) (byte_length (domain_of env s))

-- The loop of level 4, from `best` on.
unfoldable pub longest : Env → String → Option Service → List Service → Option Service
longest env host best [] = best
longest env host best (s ∷ rest) =
    longest env host (if is_sub_domain env host s && is_longer env s best then some s else best)
      rest

unfoldable pub by_suffix : Env → Option String → List Service → Option Service
by_suffix env none cache = none
by_suffix env (some host) cache = longest env host none cache

abbrev pub or_else : Option Service → Option Service → Option Service
or_else none o = o
or_else (some s) o = some s

unfoldable pub resolve : Env → List Service → String → String → String → Option Service
resolve env cache host service_id redirect_uri =
    let uri_host = redirect_host env redirect_uri in
    or_else (by_domain env uri_host cache) (
      or_else (by_host env host cache)
        (or_else (by_id service_id cache) (by_suffix env uri_host cache)))

abbrev pub first : List Service → Option Service
first [] = none
first (s ∷ _) = some s

unfoldable pub default_service : List Service → Option Service
default_service cache = or_else (select_first (λ s. eqb s.is_default 1) cache) (first cache)

unfoldable pub resolve_or_default : Env → List Service → String → String → String → Option Service
resolve_or_default env cache host service_id redirect_uri =
    or_else (resolve env cache host service_id redirect_uri) (default_service cache)

-- CallbackURLs.
unfoldable pub callback_urls : String → List String
callback_urls raw = split_csv raw

unfoldable pub primary_callback : Service → String
primary_callback svc = elim (callback_urls svc.callback_url) [ [] ↦ "" | uri ∷ _ ↦ uri ]

unfoldable pub is_allowed_callback : Option Service → String → Bool
is_allowed_callback none uri = false
is_allowed_callback (some svc) uri =
    if uri == "" then false else contains (callback_urls svc.callback_url) uri

-- LinkBaseURL.
unfoldable pub link_base_url : String → Option Service → String
link_base_url base none = base
link_base_url base (some svc) = elim svc.auth_host [
  | none ↦ base
  | some host ↦ if host == "" then base else "https://" ++ host
]
