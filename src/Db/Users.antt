-- ===== src/Db/Users.antt =====
-- The statements on `users` that sessions use (internal/db/gen/users.sql.go).
use kauth_go.Prelude.{
  ℕ, String, Bool, ◌&&◌, ◌||◌, not, Option, none, some, List, ◌==◌, eqb, is_some, if◌then◌else◌,
}
use kauth_go.Env.{Env}
use kauth_go.Db.{User}
use kauth_go.Db.Table.{select_first, exists_where, update_where, insert_row, next_id}

abbrev pub is_active : User → Bool
is_active u = not (is_some u.deactivated_at)

unfoldable pub get_active_user_by_id : ℕ → List User → Option User
get_active_user_by_id id = select_first (λ u. eqb u.id id && is_active u)

unfoldable pub get_active_user_by_email : String → List User → Option User
get_active_user_by_email email = select_first (λ u. u.email == email && is_active u)

unfoldable pub get_active_user_by_public_id : String → List User → Option User
get_active_user_by_public_id public_id = select_first (λ u. u.public_id == public_id && is_active u)

pub record CreateUserParams : Type 0 where
  pub public_id : String
  pub email : String
  pub password_hash : Option String
  pub name : Option String
  pub roles : String
  pub orgs : String
  pub created_at : String

abbrev pub created_user : CreateUserParams → ℕ → User
created_user p id = record {
  id = id;
  email = p.email;
  password_hash = p.password_hash;
  name = p.name;
  roles = p.roles;
  orgs = p.orgs;
  created_at = p.created_at;
  last_login = none;
  deactivated_at = none;
  public_id = p.public_id;
  email_changed_at = none;
  admin_bound_at = none;
}

-- The UNIQUE indexes, on the public ID and on lower(trim(email)); `none` is their failure.
abbrev pub collides : Env → CreateUserParams → User → Bool
collides env p u = u.public_id == p.public_id || env.sqlite_key u.email == env.sqlite_key p.email

unfoldable pub create_user : Env → CreateUserParams → List User → Option (User × List User)
create_user env p users =
    let user = created_user p (next_id (λ u. u.id) users) in
    if exists_where (collides env p) users then none else some (user, insert_row user users)

unfoldable pub update_user_last_login : Option String → ℕ → List User → List User
update_user_last_login time id =
    update_where (λ u. eqb u.id id) (λ u. record u { last_login = time })

unfoldable pub get_user_by_id : ℕ → List User → Option User
get_user_by_id id = select_first (λ u. eqb u.id id)

unfoldable pub get_user_by_email : String → List User → Option User
get_user_by_email email = select_first (λ u. u.email == email)
