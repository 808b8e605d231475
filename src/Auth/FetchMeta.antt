-- ===== src/Auth/FetchMeta.antt =====
-- Where a browser's request comes from (internal/fetchmeta/fetchmeta.go). A header that is missing
-- is "".
use Prim.Native.String.{◌++◌}
use kauth_go.Prelude.{String, Bool, true, false, not, ◌&&◌, ◌||◌, ◌==◌, if◌then◌else◌}

-- `insecure` is KAUTH_INSECURE_COOKIES.
pub record FetchRequest : Type 0 where
  pub host : String
  pub site : String
  pub mode : String
  pub dest : String
  pub origin : String
  pub insecure : Bool

unfoldable pub same_origin : FetchRequest → Bool
same_origin r =
    if not (r.site == "")
    then r.site == "same-origin"
    else if not (r.origin == "")
    then r.origin == "https://" ++ r.host || (r.insecure && r.origin == "http://" ++ r.host)
    else false

-- Middleware lets the request through.
unfoldable pub passes : String → FetchRequest → Bool
passes method r =
    if method == "GET" || method == "HEAD" || method == "OPTIONS" then true else same_origin r

unfoldable pub logout_allowed : FetchRequest → Bool
logout_allowed r =
    if r.site == "" || r.site == "same-origin" || r.site == "same-site" || r.site == "none"
    then true
    else if r.site == "cross-site"
    then r.mode == "navigate" && (r.dest == "" || r.dest == "document")
    else false
