-- ===== src/Auth/OidcRequest.antt =====
-- The OIDC authorization request and its cookie (internal/auth/oidc_request.go). A query is a list of
-- keys with values.
pub mod RoundTrip
use kauth_go.Prelude.{
  String, Bool, true, false, not, ◌&&◌, ◌||◌, Option, none, some, List, [], ◌∷◌, ◌++◌, ◌==◌,
  if◌then◌else◌,
}

abbrev pub Query : Type 0
Query = List (String × String)

-- Go's net/url, and the quoting of fmt's %q.
pub record WebCodec : Type 0 where
  pub query_escape : String → String
  pub query_unescape : String → Option String
  pub encode_values : Query → String
  pub parse_query : String → Option Query
  -- url.Parse, Query().Set of each pair, and String(); `none` is a parse error.
  pub with_query : String → Query → Option String
  pub quote : String → String

-- Values.Get: the first value, or "".
unfoldable pub get : Query → String → String
get [] key = ""
get ((k, v) ∷ q) key = if k == key then v else get q key

pub record OidcAuthorizeRequest : Type 0 where
  pub client_id : String
  pub redirect_uri : String
  pub state : String
  pub nonce : String
  pub scope : String
  pub code_challenge : String
  pub code_challenge_method : String

unfoldable pub is_oidc_authorize_request : Query → Bool
unfolding get
is_oidc_authorize_request q = get q "response_type" == "code" && not (get q "client_id" == "")

unfoldable pub parse_oidc_authorize_request : Query → OidcAuthorizeRequest
unfolding get
parse_oidc_authorize_request q = record {
  client_id = get q "client_id";
  redirect_uri = get q "redirect_uri";
  state = get q "state";
  nonce = get q "nonce";
  scope = get q "scope";
  code_challenge = get q "code_challenge";
  code_challenge_method = get q "code_challenge_method";
}

abbrev pub cookie_values : OidcAuthorizeRequest → Query
cookie_values req =
    ("client_id", req.client_id)
    ∷ ("redirect_uri", req.redirect_uri)
    ∷ ("state", req.state)
    ∷ ("nonce", req.nonce)
    ∷ ("scope", req.scope)
    ∷ ("code_challenge", req.code_challenge)
    ∷ ("code_challenge_method", req.code_challenge_method)
    ∷ []

module _ (codec : WebCodec) where
  -- The value that SetOIDCAuthorizeCookie stores.
  unfoldable pub oidc_cookie : OidcAuthorizeRequest → String
  oidc_cookie req = codec.query_escape (codec.encode_values (cookie_values req))

  unfoldable pub check_request : OidcAuthorizeRequest → Option OidcAuthorizeRequest
  check_request req = if req.client_id == "" || req.redirect_uri == "" then none else some req

  unfoldable pub read_values : Option Query → Option OidcAuthorizeRequest
  unfolding parse_oidc_authorize_request check_request
  read_values none = none
  read_values (some q) = check_request (parse_oidc_authorize_request q)

  unfoldable pub read_raw : Option String → Option OidcAuthorizeRequest
  unfolding read_values
  read_raw none = none
  read_raw (some raw) = read_values (codec.parse_query raw)

  -- Of the cookie's value, if there is one.
  unfoldable pub read_oidc_cookie : Option String → Option OidcAuthorizeRequest
  unfolding read_raw
  read_oidc_cookie none = none
  read_oidc_cookie (some value) = read_raw (codec.query_unescape value)

  abbrev pub state_pair : String → Query
  state_pair state = if state == "" then [] else ("state", state) ∷ []

  -- `none` is an internal error.
  unfoldable pub redirect_with_oidc_error : String → String → String → Option String
  redirect_with_oidc_error uri error state =
      codec.with_query uri (("error", error) ∷ state_pair state)

  unfoldable pub build_redirect_with_code : String → String → String → Option String
  build_redirect_with_code uri code state = codec.with_query uri (("code", code) ∷ state_pair state)
