-- ===== src/Tests/State.antt =====
-- Runs of the signed states and of the authorization request's cookie.
use kauth_go.Prelude.{ℕ, zero, suc, ◌≡◌, refl, ap, true, false, some, arith}
use kauth_go.Env.{CodecLaws}
use kauth_go.Text.Cut.{is_digits}
use kauth_go.Auth.State.{StateClaims, sign_idp_state, parse_state}
use kauth_go.Auth.State.Read.{IsFresh}
use kauth_go.Auth.State.RoundTrip.{IsReadBack, IsSeparated, parse_state-sign, verify_state-sign}
use kauth_go.Auth.State.Sound.{IsSigned, parse_state-IsSigned}
use kauth_go.Auth.OidcRequest.{read_oidc_cookie, oidc_cookie, cookie_values}
use kauth_go.Auth.OidcRequest.RoundTrip.{WebLaws, read_oidc_cookie-oidc_cookie}
use kauth_go.Tests.Fixtures.{env, digits, count, codec, authorize}

digits-is_digits : (n : ℕ) → is_digits (digits n) ≡ true
unfolding digits is_digits
digits-is_digits zero = refl
digits-is_digits (suc n) = digits-is_digits n

count-digits : (n : ℕ) → count (digits n) ≡ n
unfolding digits count
count-digits zero = refl
count-digits (suc n) = ap suc (count-digits n)

codec_laws : CodecLaws env
unfolding kauth_go.Text.Cut.is_free_of
codec_laws = record {
  decode-encode = λ s. refl;
  hmac-no_dot = λ secret s. refl;
  decimal-digits = digits-is_digits;
  parse-decimal = λ n small. rw (count-digits n) refl;
}

IsFresh-state : IsFresh 1 2 "ab"
unfolding kauth_go.Text.Cut.is_free_of
IsFresh-state = record { free = refl; small = omega arith; old = omega arith; ahead = omega arith }

is_slug_acme : kauth_go.Auth.State.is_slug "acme" ≡ true
unfolding kauth_go.Auth.State.is_slug kauth_go.Auth.State.all_slug
is_slug_acme = refl

parse_state-sign_example : IsReadBack env "secret" 1 2 "ab" "app" "acme" 3
parse_state-sign_example =
    parse_state-sign env codec_laws "secret" "app" IsFresh-state "acme" 3 is_slug_acme refl
      (omega arith)

verify_state-sign_example : IsSeparated env "secret" 1 2 "ab" "app" "acme" 3
verify_state-sign_example =
    verify_state-sign env codec_laws "secret" "app" IsFresh-state "acme" 3 is_slug_acme refl
      (omega arith)

abbrev acme_claims : StateClaims
acme_claims = record {
  service_id = "app";
  nonce = "ab";
  admin = false;
  idp = "acme";
  link = 0;
  github = false;
}

acme-read : parse_state env "secret" 2 "app:ab:1:idp=acme.5" ≡ some acme_claims
unfolding kauth_go.Text.Cut.extend_cut kauth_go.Text.Cut.cut_last kauth_go.Text.Cut.cut_prefix
    kauth_go.Text.Cut.put_before kauth_go.Text.Cut.cut_suffix kauth_go.Text.Cut.count_char
    kauth_go.Text.Cut.is_digits kauth_go.Text.Cut.is_free_of kauth_go.Auth.State.all_slug
    kauth_go.Auth.State.is_slug kauth_go.Auth.State.sign_state_payload
    kauth_go.Auth.State.sign_state kauth_go.Auth.State.sign_admin_state
    kauth_go.Auth.State.sign_idp_state kauth_go.Auth.State.sign_link_state
    kauth_go.Auth.State.sign_github_state kauth_go.Auth.State.follows_idp
    kauth_go.Auth.State.read_link_id kauth_go.Auth.State.read_link_segment
    kauth_go.Auth.State.read_link_cut kauth_go.Auth.State.try_github kauth_go.Auth.State.try_admin
    kauth_go.Auth.State.read_word kauth_go.Auth.State.read_idp kauth_go.Auth.State.read_purpose_cut
    kauth_go.Auth.State.is_outside kauth_go.Auth.State.read_nonce kauth_go.Auth.State.read_issued
    kauth_go.Auth.State.read_base kauth_go.Auth.State.with_purpose kauth_go.Auth.State.with_link
    kauth_go.Auth.State.check_mac kauth_go.Auth.State.parse_decoded kauth_go.Auth.State.parse_state
    kauth_go.Auth.State.plain_service kauth_go.Auth.State.verify_state kauth_go.Tests.Fixtures.count
acme-read = refl

parse_state-IsSigned_example : IsSigned env "secret" "app:ab:1:idp=acme.5" 2 acme_claims
parse_state-IsSigned_example =
    parse_state-IsSigned env "secret" 2 acme_claims "app:ab:1:idp=acme.5" acme-read

web_laws : WebLaws codec (cookie_values authorize)
web_laws = record {
  unescape-escape = λ s. refl;
  reread = cookie_values authorize;
  parse-encode = refl;
  get-reread = λ key. refl;
}

read_oidc_cookie-oidc_cookie_example :
    read_oidc_cookie codec (some (oidc_cookie codec authorize)) ≡ some authorize
read_oidc_cookie-oidc_cookie_example =
    read_oidc_cookie-oidc_cookie codec authorize web_laws (λ e. cc) (λ e. cc)
