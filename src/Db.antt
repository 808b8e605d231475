-- ===== src/Db.antt =====
-- The rows of the database (internal/db/gen/models.go) and the tables that the modelled code
-- works on. A pointer field is an `Option`; INTEGER columns are natural numbers, for no
-- modelled statement writes a negative one.
pub mod Table
pub mod Refresh
pub mod Codes
pub mod Users
pub mod Magic
pub mod Identities
pub mod Invites
use kauth_go.Prelude.{ℕ, String, Option, List}

pub record RefreshToken : Type 0 where
  pub id : ℕ
  pub token_hash : String
  pub email : String
  pub service_id : Option String
  pub family_id : String
  pub parent_id : Option ℕ
  pub created_at : String
  pub expires_at : String
  pub family_expires_at : Option String
  pub used : ℕ
  pub revoked : ℕ
  pub revoked_reason : Option String
  pub ip_address : Option String
  pub user_agent : Option String
  pub user_id : Option ℕ

pub record AuthorizationCode : Type 0 where
  pub id : ℕ
  pub code : String
  pub service_id : String
  pub email : String
  pub redirect_uri : String
  pub scope : Option String
  pub nonce : Option String
  pub code_challenge : String
  pub code_challenge_method : String
  pub created_at : String
  pub expires_at : String
  pub used : ℕ
  pub family_id : Option String
  pub user_id : Option ℕ

pub record MagicToken : Type 0 where
  pub id : ℕ
  pub token : String
  pub email : String
  pub service_id : Option String
  pub redirect_uri : Option String
  pub created_at : String
  pub expires_at : String
  pub used : ℕ
  pub purpose : String

pub record User : Type 0 where
  pub id : ℕ
  pub email : String
  pub password_hash : Option String
  pub name : Option String
  pub roles : String
  pub orgs : String
  pub created_at : String
  pub last_login : Option String
  pub deactivated_at : Option String
  pub public_id : String
  pub email_changed_at : Option String
  pub admin_bound_at : Option String

pub record Service : Type 0 where
  pub id : String
  pub display_name : String
  pub tagline : Option String
  pub domain : String
  pub auth_host : Option String
  pub callback_url : String
  pub logo_html : Option String
  pub bg_image : Option String
  pub bg_css : Option String
  pub theme : String
  pub accent_color : String
  pub email_from_name : String
  pub auto_register : ℕ
  pub default_role : Option String
  pub default_org : Option String
  pub require_role : Option String
  pub enforce_org : ℕ
  pub is_default : ℕ
  pub auth_google : ℕ
  pub auth_microsoft : ℕ
  pub auth_magic_link : ℕ
  pub auth_password : ℕ
  pub google_client_id : Option String
  pub google_client_secret : Option String
  pub microsoft_client_id : Option String
  pub microsoft_client_secret : Option String
  pub jwt_cookie_name : String
  pub access_token_ttl : String
  pub refresh_token_max_age : Option String
  pub active : ℕ
  pub updated_at : String
  pub email_from_address : Option String
  pub sub_format : String
  pub auto_link : ℕ
  pub google_client_secret_env : Option String
  pub microsoft_client_secret_env : Option String
  pub auth_github : ℕ
  pub github_client_id : Option String
  pub github_client_secret_env : Option String

-- The account of a provider that a user logs in with.
pub record UserIdentity : Type 0 where
  pub id : ℕ
  pub user_id : ℕ
  pub provider : String
  pub issuer : String
  pub subject : String
  pub email : Option String
  pub created_at : String
  pub last_used_at : Option String
  pub admin_ok : ℕ

pub record IdentityLinkInvite : Type 0 where
  pub id : ℕ
  pub token_hash : String
  pub user_id : ℕ
  pub provider_id : ℕ
  pub service_id : String
  pub email : String
  pub created_by : String
  pub created_at : String
  pub expires_at : String
  pub used_at : Option String

pub record Db : Type 0 where
  pub refresh_tokens : List RefreshToken
  pub authorization_codes : List AuthorizationCode
  pub users : List User
  pub magic_tokens : List MagicToken
  pub user_identities : List UserIdentity
  pub identity_link_invites : List IdentityLinkInvite
  -- The largest id that an invitation has had (AUTOINCREMENT).
  pub last_invite_id : ℕ
