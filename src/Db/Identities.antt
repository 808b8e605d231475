-- ===== src/Db/Identities.antt =====
-- The statements on `user_identities` (internal/db/gen/user_identities.sql.go), but for the list of a
-- user's identities, which only reads. (issuer, subject) is UNIQUE, and id the primary key.
use kauth_go.Prelude.{
  ℕ, String, Bool, false, ◌&&◌, Option, none, some, List, ◌==◌, eqb, text_is, if◌then◌else◌,
}
use kauth_go.Db.{User, UserIdentity}
use kauth_go.Db.Table.{select_first, exists_where, update_where, delete_where, insert_row, next_id}

abbrev pub has_key : String → String → UserIdentity → Bool
has_key issuer subject r = r.issuer == issuer && r.subject == subject

unfoldable pub get_identity : String → String → List UserIdentity → Option UserIdentity
get_identity issuer subject = select_first (has_key issuer subject)

unfoldable pub has_identity : ℕ → List UserIdentity → Bool
has_identity user_id = exists_where (λ r. eqb r.user_id user_id)

pub record InsertIdentityParams : Type 0 where
  pub user_id : ℕ
  pub provider : String
  pub issuer : String
  pub subject : String
  pub email : Option String
  pub created_at : String
  pub last_used_at : Option String

abbrev pub identity_row : InsertIdentityParams → ℕ → UserIdentity
identity_row p id = record {
  id = id;
  user_id = p.user_id;
  provider = p.provider;
  issuer = p.issuer;
  subject = p.subject;
  email = p.email;
  created_at = p.created_at;
  last_used_at = p.last_used_at;
  admin_ok = 0;
}

abbrev pub added : InsertIdentityParams → List UserIdentity → List UserIdentity
added p rows = insert_row (identity_row p (next_id (λ r. r.id) rows)) rows

-- The number of inserted rows, and the table: nothing on a conflict.
unfoldable pub insert_identity : InsertIdentityParams → List UserIdentity → ℕ × List UserIdentity
insert_identity p rows =
    if exists_where (has_key p.issuer p.subject) rows then (0, rows) else (1, added p rows)

-- For a user without any identity.
unfoldable pub link_identity_if_first :
    InsertIdentityParams → List UserIdentity → ℕ × List UserIdentity
unfolding insert_identity has_identity
link_identity_if_first p rows =
    if has_identity p.user_id rows then (0, rows) else insert_identity p rows

unfoldable pub update_identity_seen :
    Option String → Option String → ℕ → List UserIdentity → List UserIdentity
update_identity_seen email time id =
    update_where (λ r. eqb r.id id) (λ r. record r { email = email; last_used_at = time })

-- The columns that RETURNING gives back.
pub record DeleteIdentityRow : Type 0 where
  pub provider : String
  pub issuer : String
  pub admin_ok : ℕ

abbrev is_of : ℕ → ℕ → UserIdentity → Bool
is_of id user_id r = eqb r.id id && eqb r.user_id user_id

abbrev returned : Option UserIdentity → Option DeleteIdentityRow
returned none = none
returned (some r) =
    some (record { provider = r.provider; issuer = r.issuer; admin_ok = r.admin_ok })

-- The deleted row, if the user has the identity, and the table without it.
unfoldable pub delete_identity :
    ℕ → ℕ → List UserIdentity → Option DeleteIdentityRow × List UserIdentity
delete_identity id user_id rows =
    (returned (select_first (is_of id user_id) rows), delete_where (is_of id user_id) rows)

-- admin_bound_at = bound_at, which is true of no NULL.
abbrev is_bound_at : Option String → User → Bool
is_bound_at none u = false
is_bound_at (some time) u = text_is u.admin_bound_at time

abbrev is_bound : List User → ℕ → ℕ → Option String → UserIdentity → Bool
is_bound users id user_id bound_at r =
    is_of id user_id r && exists_where (λ u. eqb u.id r.user_id && is_bound_at bound_at u) users

-- The identity of a user whose binding has exactly this time; the number of such rows, of which
-- there is at most one.
unfoldable pub set_admin_ok :
    ℕ → ℕ → Option String → List User → List UserIdentity → ℕ × List UserIdentity
set_admin_ok id user_id bound_at users rows =
    let hit = is_bound users id user_id bound_at in
    (if exists_where hit rows then 1 else 0, update_where hit (λ r. record r { admin_ok = 1 }) rows)
