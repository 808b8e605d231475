-- ===== src/Tests/Fixtures.antt =====
-- A concrete outside world and database, for the runs of Tests.antt: nothing fails, the clock counts
-- interactions, an instant is written with as many ticks as it has seconds, and every draw is new.
use Prim.Native.String.{[], ◌∷◌}
use kauth_go.Prelude.{
  ℕ, ◌+◌, ◌^◌, zero, suc, ◌≡◌, ◌≢◌, refl, ap, String, Bool, false, Option, none, some, List, ltb,
  eqb, code, pos,
}
use kauth_go.Env.{Env, TimeLaws}
use kauth_go.Db.{RefreshToken, AuthorizationCode, MagicToken, User, Service}
use kauth_go.Exec.{World}
use kauth_go.Token.KeyRing.{RsaKey, KeyRing}
use kauth_go.Token.Issuer.{Claims, named, valid}
use kauth_go.Auth.Http.{TokenRequest}
use kauth_go.Auth.CodeGrant.{Server}
use kauth_go.Auth.OidcRequest.{OidcAuthorizeRequest, WebCodec, cookie_values}

unfoldable pub ticks : ℕ → String
ticks zero = []
ticks (suc n) = "i" ∷ ticks n

-- A number in unary.
unfoldable pub digits : ℕ → String
digits zero = []
digits (suc n) = "1" ∷ digits n

unfoldable pub count : String → ℕ
count [] = 0
count (c ∷ s) = suc (count s)

count-ticks : (t : ℕ) → count (ticks t) ≡ t
unfolding count ticks
count-ticks zero = refl
count-ticks (suc t) = ap suc (count-ticks t)

abbrev pub env : Env
env = record {
  fault = λ n. false;
  time = λ n. n;
  random = λ n. some ("r" ∷ ticks n);
  sha256_hex = λ s. s;
  sha256_base64 = λ s. s;
  format_time = ticks;
  parse_time = λ s. some (count s);
  text_lt = λ s t. ltb (count s) (count t);
  decimal = digits;
  lower = λ s. s;
  upper = λ s. s;
  sqlite_key = λ s. s;
  url_host = λ s. some s;
  hmac_hex = λ secret s. "5";
  base64url = λ s. s;
  base64url_decode = λ s. some s;
  parse_utc_time = λ s. some (count s);
  parse_sqlite_time = λ s. some (count s);
  parse_int64 = λ s. some (pos (count s));
}

pub laws : TimeLaws env
laws = record {
  parse-format = λ t. ap some (count-ticks t);
  text_lt-format = λ s t. rw (count-ticks s, count-ticks t) refl;
}

abbrev pub is_drawn : Option String → Bool
is_drawn none = false
is_drawn (some []) = false
is_drawn (some (c ∷ s)) = eqb (code c) b'r'

-- A text with another first letter is never drawn.
pub fresh : (f : String) (n : ℕ) → is_drawn (some f) ≡ false → env.random n ≢ some f
fresh f n e same = let clash = ap is_drawn same in cc

-- A row of the family "fam" that ends at 9.
abbrev pub token_row : ℕ → String → ℕ → ℕ → RefreshToken
token_row id hash used revoked = record {
  id = id;
  token_hash = hash;
  email = "a@x.no";
  service_id = some "app";
  family_id = "fam";
  parent_id = none;
  created_at = ticks 0;
  expires_at = ticks 9;
  family_expires_at = some (ticks 9);
  used = used;
  revoked = revoked;
  revoked_reason = none;
  ip_address = none;
  user_agent = none;
  user_id = some 1;
}

abbrev pub world_of : List RefreshToken → World
world_of rows = record {
  db = record {
    refresh_tokens = rows;
    authorization_codes = List.[];
    users = List.[];
    magic_tokens = List.[];
    user_identities = List.[];
    identity_link_invites = List.[];
    last_invite_id = 0;
  };
  audit = List.[];
  step = 0;
}

abbrev pub member : User
member = record {
  id = 1;
  email = "a@x.no";
  password_hash = none;
  name = none;
  roles = "user, editor";
  orgs = "acme";
  created_at = ticks 0;
  last_login = none;
  deactivated_at = none;
  public_id = "p1";
  email_changed_at = none;
  admin_bound_at = none;
}

abbrev pub app : Option String → Service
app role = record {
  id = "app";
  display_name = "App";
  tagline = none;
  domain = "x.no";
  auth_host = none;
  callback_url = "https://x.no/cb";
  logo_html = none;
  bg_image = none;
  bg_css = none;
  theme = "light";
  accent_color = "";
  email_from_name = "App";
  auto_register = 0;
  default_role = none;
  default_org = some "acme";
  require_role = role;
  enforce_org = 1;
  is_default = 1;
  auth_google = 1;
  auth_microsoft = 0;
  auth_magic_link = 1;
  auth_password = 0;
  google_client_id = some "client";
  google_client_secret = none;
  microsoft_client_id = none;
  microsoft_client_secret = none;
  jwt_cookie_name = "app_jwt";
  access_token_ttl = "PT15M";
  refresh_token_max_age = some "PT9S";
  active = 1;
  updated_at = ticks 0;
  email_from_address = none;
  sub_format = "email";
  auto_link = 1;
  google_client_secret_env = none;
  microsoft_client_secret_env = none;
  auth_github = 0;
  github_client_id = none;
  github_client_secret_env = none;
}

-- 43 characters.
abbrev pub verifier : String
verifier = "abcdefghijklmnopqrstuvwxyzabcdefghijklmnopq"

abbrev pub code_row : AuthorizationCode
code_row = record {
  id = 1;
  code = "code";
  service_id = "app";
  email = "a@x.no";
  redirect_uri = "https://x.no/cb";
  scope = some "profile openid";
  nonce = some "n";
  code_challenge = verifier;
  code_challenge_method = "S256";
  created_at = ticks 0;
  expires_at = ticks 60;
  used = 0;
  family_id = none;
  user_id = some 1;
}

abbrev pub key : ℕ → RsaKey
key n = record { modulus = some (2 ^ 2047 + n); exponent = 65537 }

abbrev pub ring : KeyRing
ring = record {
  current = record { kid = "kauth-1"; private = some (key 1); public = some (key 1) };
  next_key = some (record { kid = "kauth-2"; public = some (key 2) });
  previous = some (record { kid = "kauth-0"; public = some (key 0) });
}

-- Of an access token for the service "app".
abbrev pub app_claims : Claims
app_claims = record {
  jti = "j";
  issuer = "kauth";
  subject = "a@x.no";
  audience = List.◌∷◌ "app" List.[];
  issued_at = some 1;
  not_before = 1;
  expires_at = 61;
  email = "a@x.no";
  org = List.◌∷◌ "acme" List.[];
  groups = List.[];
  name = "";
  token_use = "access";
  nonce = "";
}

abbrev pub server : Option String → Server
server role = record {
  issuer = record {
    issuer = "kauth";
    default_ttl = 60;
    admin_ttl = 60;
    ring = ring;
    sign = λ claims. some "jwt";
    kid_of = λ token. some (named "kauth-1");
    check = λ key token. valid app_claims;
  };
  cache = List.◌∷◌ (app role) List.[];
  cors_origins = List.[];
}

abbrev pub link : MagicToken
link = record {
  id = 1;
  token = "link";
  email = "a@x.no";
  service_id = some "app";
  redirect_uri = none;
  created_at = ticks 0;
  expires_at = ticks 60;
  used = 0;
  purpose = "service";
}

abbrev pub site : World
site = record (world_of (List.◌∷◌ (token_row 1 "tok" 0 0) List.[])) {
  db = record {
    refresh_tokens = List.◌∷◌ (token_row 1 "tok" 0 0) List.[];
    authorization_codes = List.◌∷◌ code_row List.[];
    users = List.◌∷◌ member List.[];
    magic_tokens = List.◌∷◌ link List.[];
    user_identities = List.[];
    identity_link_invites = List.[];
    last_invite_id = 0;
  };
}

abbrev pub code_request : String → TokenRequest
code_request client = record {
  grant_type = "authorization_code";
  code = "code";
  redirect_uri = "https://x.no/cb";
  client_id = client;
  code_verifier = verifier;
  refresh_token = "";
  posted_refresh_token = "";
  service_id = "";
  cookie = none;
  origins = none;
}

abbrev pub refresh_request : TokenRequest
refresh_request = record (code_request "app") { grant_type = ""; cookie = some "tok" }

-- The code was redeemed for the family "fam".
abbrev pub redeemed_row : AuthorizationCode
redeemed_row = record code_row { used = 1; family_id = some "fam" }

abbrev pub redeemed_site : World
redeemed_site = record site {
  db = record site.db { authorization_codes = List.◌∷◌ redeemed_row List.[] };
}

abbrev pub authorize : OidcAuthorizeRequest
authorize = record {
  client_id = "app";
  redirect_uri = "https://x.no/cb";
  state = "st";
  nonce = "";
  scope = "openid";
  code_challenge = verifier;
  code_challenge_method = "S256";
}

-- The only query that is encoded is the cookie's.
abbrev pub codec : WebCodec
codec = record {
  query_escape = λ s. s;
  query_unescape = λ s. some s;
  encode_values = λ q. "q";
  parse_query = λ s. some (cookie_values authorize);
  with_query = λ uri q. some uri;
  quote = λ s. s;
}
