-- ===== src/Token/Issuer/Verify.antt =====
-- Which tokens are accepted (`parse` and `Verify` of internal/token/issuer.go).
pub mod Keys
use kauth_go.Prelude.{
  ℕ, ◌≡◌, ◌⊎◌, inl, inr, refl, String, Bool, true, false, not, ◌&&◌, ◌||◌, Option, none, some, List,
  ◌==◌, text_is, if◌then◌else◌, arith, eq_iff,
}
use kauth_go.Text.{contains}
use kauth_go.Token.KeyRing.{RsaKey, KeyRing, PublicKey}
use kauth_go.Token.Issuer.{
  Claims, Kid, absent, no_string, named, Parsed, valid, bad_signature, bad_token, Issuer,
}

pub record Expect : Type 0 where
  pub token_use : String
  pub audience : String

abbrev pub expect_access : Expect
expect_access = record { token_use = "access"; audience = "" }

abbrev pub expect_admin : Expect
expect_admin = record { token_use = "admin"; audience = "kauth-admin" }

-- The previous key, if the kid names it.
unfoldable pub previous_named : Option PublicKey → String → Option RsaKey
previous_named none kid = none
previous_named (some k) kid = if kid == k.kid then k.public else none

-- keyfunc.
unfoldable pub select_key : KeyRing → Kid → Option RsaKey
unfolding previous_named
select_key ring absent = ring.current.public
select_key ring no_string = none
select_key ring (named kid) =
    if kid == ring.current.kid then ring.current.public else previous_named ring.previous kid

module _ (iss : Issuer) (token : String) where
  unfoldable pub check_under : Option RsaKey → Parsed
  check_under none = bad_token
  check_under (some key) = iss.check key token

  -- A token without kid is tried with the previous key after a wrong signature.
  unfoldable pub fallback : Option PublicKey → Kid → Parsed → Option Claims
  unfolding check_under
  fallback previous kid (valid claims) = some claims
  fallback previous kid bad_token = none
  fallback none kid bad_signature = none
  fallback (some k) no_string bad_signature = none
  fallback (some k) (named kid) bad_signature = none
  fallback (some k) absent bad_signature = elim (check_under k.public) [
    | valid claims ↦ some claims
    | bad_signature ↦ none
    | bad_token ↦ none
  ]

  unfoldable pub parse_kid : Option Kid → Option Claims
  unfolding fallback select_key
  parse_kid none = none
  parse_kid (some kid) = fallback iss.ring.previous kid (check_under (select_key iss.ring kid))

  unfoldable pub parse : Option Claims
  unfolding parse_kid
  parse = parse_kid (iss.kid_of token)

  unfoldable pub is_expected : Expect → Claims → Bool
  is_expected expect claims =
      claims.token_use == expect.token_use
      && (expect.audience == "" || contains claims.audience expect.audience)

  unfoldable pub accept : Expect → Option Claims → Option Claims
  unfolding is_expected
  accept expect none = none
  accept expect (some claims) = if is_expected expect claims then some claims else none

  unfoldable pub verify : Expect → Option Claims
  unfolding accept parse
  verify expect = if expect.token_use == "" then none else accept expect parse
