-- ===== src/Db/Refresh.antt =====
-- The statements on `refresh_tokens` (internal/db/gen/refresh_tokens.sql.go). A failed UNIQUE
-- constraint on `token_hash` is `none`; the table's CHECK that a hash has 64 characters holds of
-- every SHA-256 in hex.
use kauth_go.Prelude.{
  ℕ, String, Bool, true, ◌&&◌, Option, none, some, List, ◌==◌, eqb, nat_is, if◌then◌else◌,
}
use kauth_go.Db.{RefreshToken}
use kauth_go.Db.Table.{select_first, exists_where, update_where, delete_where, insert_row, next_id}
use kauth_go.Env.{Env}
use mathlib.Core.Option

pub record InsertRefreshTokenParams : Type 0 where
  pub token_hash : String
  pub email : String
  pub user_id : Option ℕ
  pub service_id : Option String
  pub family_id : String
  pub parent_id : Option ℕ
  pub created_at : String
  pub expires_at : String
  pub family_expires_at : Option String
  pub ip_address : Option String
  pub user_agent : Option String

abbrev pub inserted_row : InsertRefreshTokenParams → ℕ → RefreshToken
inserted_row p id = record {
  id = id;
  token_hash = p.token_hash;
  email = p.email;
  service_id = p.service_id;
  family_id = p.family_id;
  parent_id = p.parent_id;
  created_at = p.created_at;
  expires_at = p.expires_at;
  family_expires_at = p.family_expires_at;
  used = 0;
  revoked = 0;
  revoked_reason = none;
  ip_address = p.ip_address;
  user_agent = p.user_agent;
  user_id = p.user_id;
}

unfoldable pub insert_refresh_token :
    InsertRefreshTokenParams → List RefreshToken → Option (List RefreshToken)
insert_refresh_token p rows =
    if exists_where (λ r. r.token_hash == p.token_hash) rows
    then none
    else some (insert_row (inserted_row p (next_id (λ r. r.id) rows)) rows)

-- WHERE token_hash = ? AND used = 0 AND revoked = 0 AND expires_at > ?
abbrev pub is_consumable : Env → String → String → RefreshToken → Bool
is_consumable env hash now r =
    r.token_hash == hash && eqb r.used 0 && eqb r.revoked 0 && env.text_lt now r.expires_at

abbrev pub mark_used : RefreshToken → RefreshToken
mark_used r = record r { used = 1 }

-- The row as RETURNING shows it, and the table.
unfoldable pub consume_refresh_token :
    Env → String → String → List RefreshToken → Option RefreshToken × List RefreshToken
consume_refresh_token env hash now rows = (
  Option.map mark_used (select_first (is_consumable env hash now) rows),
  update_where (is_consumable env hash now) mark_used rows,
)

unfoldable pub get_refresh_token_by_hash : String → List RefreshToken → Option RefreshToken
get_refresh_token_by_hash hash = select_first (λ r. r.token_hash == hash)

unfoldable pub get_refresh_child : String → ℕ → List RefreshToken → Option String
get_refresh_child family parent rows =
    Option.map (λ r. r.created_at)
      (select_first (λ r. r.family_id == family && nat_is r.parent_id parent) rows)

abbrev pub mark_revoked : String → RefreshToken → RefreshToken
mark_revoked reason r = record r { revoked = 1; revoked_reason = some reason }

unfoldable pub revoke_family_tokens : String → String → List RefreshToken → List RefreshToken
revoke_family_tokens reason family =
    update_where (λ r. r.family_id == family && eqb r.revoked 0) (mark_revoked reason)

unfoldable pub revoke_user_refresh_tokens : String → ℕ → List RefreshToken → List RefreshToken
revoke_user_refresh_tokens reason user =
    update_where (λ r. nat_is r.user_id user && eqb r.revoked 0) (mark_revoked reason)

-- expires_at < ? AND (family_expires_at IS NULL OR family_expires_at < ?)
abbrev pub is_expired : Env → String → String → RefreshToken → Bool
is_expired env now family_now r =
    env.text_lt r.expires_at now
    && (elim r.family_expires_at [ none ↦ true | some t ↦ env.text_lt t family_now ])

unfoldable pub delete_expired_refresh_tokens :
    Env → String → String → List RefreshToken → List RefreshToken
delete_expired_refresh_tokens env now family_now = delete_where (is_expired env now family_now)
