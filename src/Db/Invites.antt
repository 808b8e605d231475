-- ===== src/Db/Invites.antt =====
-- The statements on `identity_link_invites` (internal/db/gen/identity_link_invites.sql.go).
-- `token_hash` is UNIQUE, and an id is never given twice.
use kauth_go.Prelude.{
  ℕ, suc, String, Bool, ◌&&◌, not, Option, none, some, List, [], ◌∷◌, ◌==◌, eqb, ltb, is_some,
  if◌then◌else◌,
}
use kauth_go.Db.{IdentityLinkInvite}
use kauth_go.Db.Table.{select_first, exists_where, update_where, delete_where, insert_row}
use kauth_go.Env.{Env}
use mathlib.Core.Option

abbrev pub is_unused : IdentityLinkInvite → Bool
is_unused r = not (is_some r.used_at)

abbrev pub is_open : Env → String → IdentityLinkInvite → Bool
is_open env now r = is_unused r && env.text_lt now r.expires_at

abbrev pub use_invite : String → IdentityLinkInvite → IdentityLinkInvite
use_invite now r = record r { used_at = some now }

-- WHERE id = ?2 AND provider_id = ?3 AND service_id = ?4 AND used_at IS NULL AND expires_at > ?1
abbrev pub is_consumable_invite : Env → String → ℕ → ℕ → String → IdentityLinkInvite → Bool
is_consumable_invite env now id provider_id service_id r =
    eqb r.id id && eqb r.provider_id provider_id && r.service_id == service_id && is_open env now r

unfoldable pub consume_link_invite :
    Env
    → String
    → ℕ
    → ℕ
    → String
    → List IdentityLinkInvite
    → Option IdentityLinkInvite × List IdentityLinkInvite
consume_link_invite env now id provider_id service_id rows =
    let hit = is_consumable_invite env now id provider_id service_id in
    (Option.map (use_invite now) (select_first hit rows), update_where hit (use_invite now) rows)

unfoldable pub get_valid_link_invite_by_hash :
    Env → String → String → List IdentityLinkInvite → Option IdentityLinkInvite
get_valid_link_invite_by_hash env hash now =
    select_first (λ r. r.token_hash == hash && is_open env now r)

unfoldable pub get_link_invite_by_id : ℕ → List IdentityLinkInvite → Option IdentityLinkInvite
get_link_invite_by_id id = select_first (λ r. eqb r.id id)

unfoldable pub burn_link_invites :
    String → ℕ → ℕ → List IdentityLinkInvite → List IdentityLinkInvite
burn_link_invites now user_id provider_id =
    update_where (λ r. eqb r.user_id user_id && eqb r.provider_id provider_id && is_unused r)
      (use_invite now)

unfoldable pub burn_link_invites_for_user :
    String → ℕ → List IdentityLinkInvite → List IdentityLinkInvite
burn_link_invites_for_user now user_id =
    update_where (λ r. eqb r.user_id user_id && is_unused r) (use_invite now)

-- The number of rows, and the table.
unfoldable pub revoke_link_invite :
    String → ℕ → ℕ → List IdentityLinkInvite → ℕ × List IdentityLinkInvite
revoke_link_invite now id user_id rows =
    let hit : IdentityLinkInvite → Bool =
      λ r. eqb r.id id && eqb r.user_id user_id && is_unused r in
    (if exists_where hit rows then 1 else 0, update_where hit (use_invite now) rows)

unfoldable pub delete_expired_link_invites :
    Env → String → List IdentityLinkInvite → List IdentityLinkInvite
delete_expired_link_invites env cutoff = delete_where (λ r. env.text_lt r.expires_at cutoff)

unfoldable pub list_active_link_invites_by_user :
    Env → ℕ → String → List IdentityLinkInvite → List IdentityLinkInvite
list_active_link_invites_by_user env user_id now [] = []
list_active_link_invites_by_user env user_id now (r ∷ rs) =
    let rest = list_active_link_invites_by_user env user_id now rs in
    if eqb r.user_id user_id && is_open env now r then r ∷ rest else rest

pub record InsertLinkInviteLimitedParams : Type 0 where
  pub token_hash : String
  pub user_id : ℕ
  pub provider_id : ℕ
  pub service_id : String
  pub email : String
  pub created_by : String
  pub created_at : String
  pub expires_at : String
  pub window_start : String

abbrev pub invite_row : InsertLinkInviteLimitedParams → ℕ → IdentityLinkInvite
invite_row p id = record {
  id = id;
  token_hash = p.token_hash;
  user_id = p.user_id;
  provider_id = p.provider_id;
  service_id = p.service_id;
  email = p.email;
  created_by = p.created_by;
  created_at = p.created_at;
  expires_at = p.expires_at;
  used_at = none;
}

-- The invitations that the limit counts.
unfoldable pub count_invites : Env → ℕ → String → List IdentityLinkInvite → ℕ
count_invites env user_id start [] = 0
count_invites env user_id start (r ∷ rs) =
    let rest = count_invites env user_id start rs in
    if eqb r.user_id user_id && env.text_lt start r.created_at then suc rest else rest

-- The number of inserted rows, the table, and the largest id given; `none` is a failed UNIQUE
-- constraint.
unfoldable pub insert_link_invite_limited :
    Env
    → InsertLinkInviteLimitedParams
    → List IdentityLinkInvite
    → ℕ
    → Option (ℕ × List IdentityLinkInvite × ℕ)
insert_link_invite_limited env p rows last =
    let id = suc last in
    if ltb (count_invites env p.user_id p.window_start rows) 5
    then (if exists_where (λ r. r.token_hash == p.token_hash) rows
        then none
        else some (1, insert_row (invite_row p id) rows, id))
    else some (0, rows, last)
