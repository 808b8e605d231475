-- ===== src/Auth/Policy.antt =====
-- The admission policy of a service (checkPolicy of internal/auth/identity.go).
pub mod Csv
use kauth_go.Prelude.{
  String, Bool, true, false, not, ◌&&◌, ◌||◌, Option, none, some, List, [], ◌∷◌, ◌==◌, eqb,
  if◌then◌else◌,
}
use kauth_go.Text.{split, trim_space}
use kauth_go.Db.{User, Service}

has_part : String → List String → Bool
has_part value [] = false
has_part value (p ∷ ps) = trim_space p == value || has_part value ps

unfoldable pub csv_has_exact : String → String → Bool
unfolding has_part
csv_has_exact csv value = has_part value (split b',' csv)

-- A required role that the user does not have.
abbrev pub lacks_role : User → Service → Bool
lacks_role user svc = elim svc.require_role [
  | none ↦ false
  | some role ↦ not (role == "") && not (csv_has_exact user.roles role)
]

abbrev pub lacks_org : User → Service → Bool
lacks_org user svc = elim svc.default_org [
  | none ↦ false
  | some org ↦ eqb svc.enforce_org 1 && not (csv_has_exact user.orgs org)
]

-- The text of the error; `none` admits the user.
unfoldable pub check_policy : User → Service → Option String
check_policy user svc =
    if lacks_role user svc
    then some "mangler rolle"
    else if lacks_org user svc
    then some "ikke autorisert"
    else none
