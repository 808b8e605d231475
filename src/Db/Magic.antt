-- ===== src/Db/Magic.antt =====
-- The statements on `magic_tokens` (internal/db/gen/magic_tokens.sql.go). `token` is UNIQUE and holds
-- the hash of the token.
use kauth_go.Prelude.{
  ℕ, suc, String, Bool, ◌&&◌, ◌||◌, Option, none, some, List, [], ◌∷◌, ◌==◌, eqb, ltb,
  if◌then◌else◌,
}
use kauth_go.Db.{MagicToken}
use kauth_go.Db.Table.{select_first, exists_where, update_where, delete_where, insert_row, next_id}
use kauth_go.Env.{Env}
use mathlib.Core.Option

-- SELECT COUNT(*) … WHERE p.
unfoldable pub count_where : (MagicToken → Bool) → List MagicToken → ℕ
count_where p [] = 0
count_where p (r ∷ rs) = let rest = count_where p rs in if p r then suc rest else rest

pub record InsertMagicTokenLimitedParams : Type 0 where
  pub token_hash : String
  pub email : String
  pub service_id : Option String
  pub redirect_uri : Option String
  pub purpose : String
  pub created_at : String
  pub expires_at : String
  pub window_start : String

abbrev pub magic_row : InsertMagicTokenLimitedParams → ℕ → MagicToken
magic_row p id = record {
  id = id;
  token = p.token_hash;
  email = p.email;
  service_id = p.service_id;
  redirect_uri = p.redirect_uri;
  created_at = p.created_at;
  expires_at = p.expires_at;
  used = 0;
  purpose = p.purpose;
}

-- The rows that the limit counts.
abbrev pub is_recent : Env → String → String → String → MagicToken → Bool
is_recent env email purpose start r =
    r.email == email && r.purpose == purpose && env.text_lt start r.created_at

-- The number of inserted rows, and the table; `none` is a failed UNIQUE constraint.
unfoldable pub insert_magic_token_limited :
    Env → InsertMagicTokenLimitedParams → List MagicToken → Option (ℕ × List MagicToken)
insert_magic_token_limited env p rows =
    if ltb (count_where (is_recent env p.email p.purpose p.window_start) rows) 3
    then (if exists_where (λ r. r.token == p.token_hash) rows
        then none
        else some (1, insert_row (magic_row p (next_id (λ r. r.id) rows)) rows))
    else some (0, rows)

-- WHERE token = ?1 AND purpose = ?2 AND used = 0 AND expires_at > ?3
abbrev pub is_valid : Env → String → String → String → MagicToken → Bool
is_valid env hash purpose now r =
    r.token == hash && r.purpose == purpose && eqb r.used 0 && env.text_lt now r.expires_at

unfoldable pub get_valid_magic_token_by_hash :
    Env → String → String → String → List MagicToken → Option MagicToken
get_valid_magic_token_by_hash env hash purpose now = select_first (is_valid env hash purpose now)

abbrev pub mark_magic_used : MagicToken → MagicToken
mark_magic_used r = record r { used = 1 }

unfoldable pub consume_magic_token :
    Env → String → String → String → List MagicToken → Option MagicToken × List MagicToken
consume_magic_token env hash purpose now rows = (
  Option.map mark_magic_used (select_first (is_valid env hash purpose now) rows),
  update_where (is_valid env hash purpose now) mark_magic_used rows,
)

unfoldable pub burn_magic_tokens_for_emails :
    Env → String → String → String → List MagicToken → List MagicToken
burn_magic_tokens_for_emails env old new now =
    update_where
      (λ r. (r.email == old || r.email == new) && eqb r.used 0 && env.text_lt now r.expires_at)
      mark_magic_used

unfoldable pub delete_expired_magic_tokens :
    Env → String → String → List MagicToken → List MagicToken
delete_expired_magic_tokens env now day_ago =
    delete_where
      (λ r. (eqb r.used 1 && env.text_lt r.expires_at now) || env.text_lt r.expires_at day_ago)
