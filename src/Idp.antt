-- ===== src/Idp.antt =====
-- The loaded identity providers and the services that they are assigned to
-- (internal/idp/registry.go). A map is a list with the first entry for a key.
use kauth_go.Prelude.{ℕ, String, Option, none, some, List, [], ◌∷◌, ◌==◌, if◌then◌else◌}
use kauth_go.Db.Table.{select_first}

pub record Provider : Type 0 where
  pub id : ℕ
  pub slug : String
  pub display_name : String
  pub issuer : String

pub record IdpRegistry : Type 0 where
  pub providers : List Provider
  pub by_service : List (String × List String)

unfoldable pub provider_of : IdpRegistry → String → Option Provider
provider_of reg slug = select_first (λ p. p.slug == slug) reg.providers

unfoldable pub slugs_of : List (String × List String) → String → List String
slugs_of [] service_id = []
slugs_of ((id, slugs) ∷ rest) service_id =
    if id == service_id then slugs else slugs_of rest service_id

put : Option Provider → List Provider → List Provider
put none ps = ps
put (some p) ps = p ∷ ps

unfoldable pub loaded : IdpRegistry → List String → List Provider
unfolding put provider_of
loaded reg [] = []
loaded reg (slug ∷ slugs) = put (provider_of reg slug) (loaded reg slugs)

-- ForService: in the order of the assignment; a slug that is not loaded gives none.
unfoldable pub for_service : IdpRegistry → String → List Provider
unfolding loaded slugs_of
for_service reg service_id = loaded reg (slugs_of reg.by_service service_id)
