-- ===== src/Db/Codes.antt =====
-- The statements on `authorization_codes` (internal/db/gen/authorization_codes.sql.go). `code` is
-- UNIQUE and holds the hash of the code.
use kauth_go.Prelude.{ℕ, String, Bool, ◌&&◌, Option, none, some, List, ◌==◌, eqb, if◌then◌else◌}
use kauth_go.Db.{AuthorizationCode}
use kauth_go.Db.Table.{select_first, exists_where, update_where, delete_where, insert_row, next_id}
use kauth_go.Env.{Env}
use mathlib.Core.Option

pub record InsertAuthorizationCodeParams : Type 0 where
  pub code : String
  pub service_id : String
  pub email : String
  pub user_id : Option ℕ
  pub redirect_uri : String
  pub scope : Option String
  pub nonce : Option String
  pub code_challenge : String
  pub code_challenge_method : String
  pub created_at : String
  pub expires_at : String

abbrev pub code_row : InsertAuthorizationCodeParams → ℕ → AuthorizationCode
code_row p id = record {
  id = id;
  code = p.code;
  service_id = p.service_id;
  email = p.email;
  redirect_uri = p.redirect_uri;
  scope = p.scope;
  nonce = p.nonce;
  code_challenge = p.code_challenge;
  code_challenge_method = p.code_challenge_method;
  created_at = p.created_at;
  expires_at = p.expires_at;
  used = 0;
  family_id = none;
  user_id = p.user_id;
}

unfoldable pub insert_authorization_code :
    InsertAuthorizationCodeParams → List AuthorizationCode → Option (List AuthorizationCode)
insert_authorization_code p rows =
    let row = code_row p (next_id (λ (r : AuthorizationCode). r.id) rows) in
    if exists_where (λ r. r.code == p.code) rows then none else some (insert_row row rows)

pub record ConsumeAuthorizationCodeCheckedParams : Type 0 where
  pub family_id : String
  pub code_hash : String
  pub service_id : String
  pub redirect_uri : String
  pub code_challenge : String
  pub now : String

-- The WHERE clause of ConsumeAuthorizationCodeChecked.
abbrev pub is_redeemable : Env → ConsumeAuthorizationCodeCheckedParams → AuthorizationCode → Bool
is_redeemable env p r =
    r.code == p.code_hash
    && r.service_id == p.service_id
    && r.redirect_uri == p.redirect_uri
    && r.code_challenge == p.code_challenge
    && r.code_challenge_method == "S256"
    && eqb r.used 0
    && env.text_lt p.now r.expires_at

abbrev pub mark_redeemed : String → AuthorizationCode → AuthorizationCode
mark_redeemed family r = record r { used = 1; family_id = some family }

unfoldable pub consume_authorization_code_checked :
    Env
    → ConsumeAuthorizationCodeCheckedParams
    → List AuthorizationCode
    → Option AuthorizationCode × List AuthorizationCode
consume_authorization_code_checked env p rows = (
  Option.map (mark_redeemed p.family_id) (select_first (is_redeemable env p) rows),
  update_where (is_redeemable env p) (mark_redeemed p.family_id) rows,
)

unfoldable pub get_authorization_code_by_hash :
    String → List AuthorizationCode → Option AuthorizationCode
get_authorization_code_by_hash hash = select_first (λ r. r.code == hash)

unfoldable pub delete_expired_authorization_codes :
    Env → String → List AuthorizationCode → List AuthorizationCode
delete_expired_authorization_codes env now = delete_where (λ r. env.text_lt r.expires_at now)
