-- ===== src/Auth/OidcRequest/RoundTrip.antt =====
-- The cookie carries the authorization request through the login.
use kauth_go.Prelude.{◌≡◌, ◌≢◌, refl, ap, ◌∙◌, String, some, eq_iff, arith}
use kauth_go.Auth.OidcRequest.{
  Query, WebCodec, get, OidcAuthorizeRequest, parse_oidc_authorize_request, cookie_values,
  oidc_cookie, check_request, read_values, read_raw, read_oidc_cookie,
}

-- What the cookie relies on for the query `q`: escaped text is read back, and the encoded query
-- has the same first value for each key.
pub record WebLaws (codec : WebCodec) (q : Query) : Type 0 where
  pub unescape-escape : (s : String) → codec.query_unescape (codec.query_escape s) ≡ some s
  pub reread : Query
  pub parse-encode : codec.parse_query (codec.encode_values q) ≡ some reread
  pub get-reread : (key : String) → get reread key ≡ get q key

parse-reread :
    (codec : WebCodec) (req : OidcAuthorizeRequest) (laws : WebLaws codec (cookie_values req))
    → parse_oidc_authorize_request laws.reread ≡ req
unfolding parse_oidc_authorize_request
parse-reread codec req laws =
    let same = laws.get-reread in
    rw
      (
        same "client_id",
        same "redirect_uri",
        same "state",
        same "nonce",
        same "scope",
        same "code_challenge",
        same "code_challenge_method",
      )
      (unfold get in refl)

check_request-some :
    (codec : WebCodec) (req : OidcAuthorizeRequest)
    → req.client_id ≢ ""
    → req.redirect_uri ≢ ""
    → check_request codec req ≡ some req
unfolding check_request
check_request-some codec req client uri =
    ground (arith, eq_iff req.client_id "", eq_iff req.redirect_uri "")

-- The request that the cookie was set for is read back from it, if it names a client and a
-- redirect URI.
pub read_oidc_cookie-oidc_cookie :
    (codec : WebCodec) (req : OidcAuthorizeRequest) (laws : WebLaws codec (cookie_values req))
    → req.client_id ≢ ""
    → req.redirect_uri ≢ ""
    → read_oidc_cookie codec (some (oidc_cookie codec req)) ≡ some req
unfolding read_oidc_cookie oidc_cookie read_raw read_values check_request
read_oidc_cookie-oidc_cookie codec req laws client uri =
    rw (laws.unescape-escape (codec.encode_values (cookie_values req)), laws.parse-encode)
      (ap (check_request codec) (parse-reread codec req laws)
        ∙ check_request-some codec req client uri)
