-- ===== src/Auth/Http.antt =====
-- What the token endpoint reads from a request and writes to a response, the checks on single
-- values, and the cookies (internal/auth: token_endpoint.go, oidc_request.go, middleware.go,
-- cookies.go).
use Prim.Native.String.{[], ◌∷◌}
use kauth_go.Prelude.{
  ℕ, ◌*◌, ◌/◌, ◌-◌, code, String, Bool, true, false, not, ◌&&◌, ◌||◌, Option, none, some, List,
  ◌==◌, leb, ltb, if◌then◌else◌,
}
use kauth_go.Text.{char_length, trim_space, fields, contains}
use kauth_go.Env.{Env}
use kauth_go.Db.{Service}
use kauth_go.Token.Duration.{parse_iso8601_duration, is_positive, second}

-- The form's values, the cookie refresh_token, and the values of the Origin header if there is one.
-- `posted_refresh_token` is the value in the body alone.
pub record TokenRequest : Type 0 where
  pub grant_type : String
  pub code : String
  pub redirect_uri : String
  pub client_id : String
  pub code_verifier : String
  pub refresh_token : String
  pub posted_refresh_token : String
  pub service_id : String
  pub cookie : Option String
  pub origins : Option (List String)

pub data CookieChange : Type 0 where
  no_change clear_refresh_token : CookieChange
  -- The access cookie's name, the two tokens, and the access cookie's age in seconds.
  set_auth_cookies : String → String → String → ℕ → CookieChange

pub record Tokens : Type 0 where
  pub access_token : String
  pub refresh_token : String
  pub id_token : Option String
  pub expires_in : ℕ

pub data Response : Type 0 where
  token_error : ℕ → String → CookieChange → Response
  token_response : Tokens → CookieChange → Response

abbrev pub is_granted : Response → Bool
is_granted (token_error status error cookies) = false
is_granted (token_response tokens cookies) = true

unfoldable pub s256_challenge : Env → String → String
s256_challenge env verifier = env.sha256_base64 verifier

unfoldable pub verify_pkce : Env → String → String → String → Bool
unfolding s256_challenge
verify_pkce env verifier challenge method =
    if verifier == "" || challenge == ""
    then false
    else if not (method == "S256")
    then false
    else s256_challenge env verifier == challenge

-- strings.Fields(scope) has the wanted scope.
unfoldable pub scope_contains : String → String → Bool
scope_contains scope want = contains (fields scope) want

has_trimmed : List String → String → Bool
has_trimmed List.[] origin = false
has_trimmed (List.◌∷◌ o os) origin = trim_space o == origin || has_trimmed os origin

unfoldable pub origin_allowed : List String → String → Bool
unfolding has_trimmed
origin_allowed origins origin =
    if origin == "" || origin == "null" then false else has_trimmed origins origin

-- unicode.IsControl.
abbrev is_control : ℕ → Bool
is_control c = ltb c 0x20 || (leb 0x7f c && leb c 0x9f)

without_control : String → String
without_control [] = []
without_control (c ∷ s) =
    let rest = without_control s in if is_control (code c) then rest else c ∷ rest

-- The characters that fit in `n` bytes.
take_bytes : ℕ → String → String
take_bytes n [] = []
take_bytes n (c ∷ s) =
    let rest = take_bytes (n - char_length (code c)) s in
    if leb (char_length (code c)) n then c ∷ rest else []

unfoldable pub sanitize_log_value : String → String
unfolding without_control take_bytes
sanitize_log_value o = take_bytes 200 (without_control o)

-- The access token's life in seconds, as the client is told it.
abbrev pub ttl_seconds : Env → Service → ℕ → ℕ
ttl_seconds env svc default = elim (parse_iso8601_duration env svc.access_token_ttl) [
  | none ↦ default
  | some d ↦ if is_positive d then d / second else default
]

-- setAuthCookies.
abbrev pub auth_cookies : Env → Service → String → String → CookieChange
auth_cookies env svc access refresh =
    set_auth_cookies svc.jwt_cookie_name access refresh (ttl_seconds env svc (30 * 24 * 3600))
