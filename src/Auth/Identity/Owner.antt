-- ===== src/Auth/Identity/Owner.antt =====
-- Logins leave a known identity with its user.
use kauth_go.Prelude.{ℕ, ◌≡◌, refl, ◌∙◌, String, Option, none, some, List, [], ◌∷◌, arith}
use kauth_go.Env.{Env}
use kauth_go.Db.{Db, UserIdentity}
use kauth_go.Db.Identities.{
  InsertIdentityParams, get_identity, identity_row, insert_identity, link_identity_if_first,
  update_identity_seen,
}
use kauth_go.Db.Table.{select_first, update_where, insert_row, next_id}
use kauth_go.Db.Users.{CreateUserParams, create_user}
use kauth_go.Exec.{World}
use kauth_go.Auth.Magic.Redeem.{create_in}
use kauth_go.Auth.Identity.{
  ExternalIdentity, LinkPolicy, insert_identity_in, link_first_in, resolve_identity,
}
use kauth_go.Auth.Identity.Keeping.{Safe, resolve-Keeps}

abbrev user_of : Option UserIdentity → Option ℕ
user_of none = none
user_of (some r) = some r.user_id

-- The user that an identity logs in, if it is known.
unfoldable pub owner : String → String → List UserIdentity → Option ℕ
owner issuer subject rows = user_of (get_identity issuer subject rows)

module _ (issuer subject : String) where
  pub owner-insert_row :
      (rows : List UserIdentity) (r : UserIdentity) (u : ℕ)
      → owner issuer subject rows ≡ some u
      → owner issuer subject (insert_row r rows) ≡ some u
  unfolding owner get_identity select_first
  owner-insert_row [] r u e = cc
  owner-insert_row (x ∷ rows) r u e = ground (arith, owner-insert_row rows r u)

  pub owner-seen :
      (rows : List UserIdentity) (email time : Option String) (id : ℕ)
      → owner issuer subject (update_identity_seen email time id rows) ≡ owner issuer subject rows
  unfolding owner get_identity select_first update_identity_seen update_where
  owner-seen [] email time id = refl
  owner-seen (x ∷ rows) email time id = ground (arith, owner-seen rows email time id)

  -- The identity belongs to `u`.
  abbrev pub IsOwned : ℕ → Db → Type 0
  IsOwned u db = owner issuer subject db.user_identities ≡ some u

  module _ (u : ℕ) where
    pub inserted-IsOwned :
        (p : InsertIdentityParams) (db : Db) → IsOwned u db → IsOwned u (insert_identity_in p db).1
    unfolding insert_identity
    inserted-IsOwned p db h = ground (
      arith,
      owner-insert_row db.user_identities (identity_row p (next_id (λ r. r.id) db.user_identities))
          u h,
    )

    first-IsOwned :
        (p : InsertIdentityParams) (db : Db) → IsOwned u db → IsOwned u (link_first_in p db).1
    unfolding link_identity_if_first
    first-IsOwned p db h = ground (arith, inserted-IsOwned p db h)

    created-IsOwned :
        (env : Env) (p : CreateUserParams) (db : Db)
        → IsOwned u db
        → IsOwned u (create_in env p db).1
    unfolding create_user
    created-IsOwned env p db h = ground arith

    IsOwned-Safe : (env : Env) (pol : LinkPolicy) → Safe env pol (IsOwned u) (λ _. Unit)
    IsOwned-Safe env pol = record {
      seen = λ email time id db h. owner-seen db.user_identities email time id ∙ h;
      linked = λ _ _. inserted-IsOwned;
      first = λ _ _. first-IsOwned;
      created = λ _. created-IsOwned env;
      fresh = λ _ _ _ _ _. tt;
      registered = λ _ p db _. inserted-IsOwned p db;
    }

-- A known identity keeps its user through every login, whatever its outcome.
pub resolve-IsOwned :
    (env : Env) (service_id : String) (ext : ExternalIdentity) (pol : LinkPolicy)
    (issuer subject : String) (u : ℕ) (w : World)
    → IsOwned issuer subject u w.db
    → IsOwned issuer subject u (resolve_identity env service_id ext pol w).1.db
resolve-IsOwned env service_id ext pol issuer subject u w h =
    ((resolve-Keeps env pol (IsOwned issuer subject u) (λ _. Unit)
        (IsOwned-Safe issuer subject u env pol) service_id ext).run
      w (record { since = omega arith; holds = h })).holds
