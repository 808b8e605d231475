-- ===== src/Token/Issuer.antt =====
-- JWTs and their claims (internal/token/issuer.go). Signing with the current key of the ring is the
-- JWT library's, and a field of the issuer.
pub mod Signed
pub mod Verify
use kauth_go.Prelude.{
  ℕ, String, Option, none, some, List, [], ◌∷◌, ◌==◌, text_or_empty, if◌then◌else◌,
}
use kauth_go.Env.{Env}
use kauth_go.Db.{User, Service}
use kauth_go.Exec.{
  Result, ok, err, sign_failed, no_public_id, Exec, pure, raise, lift, ◌>>=◌, random, clock,
}
use kauth_go.Text.{split_csv}
use kauth_go.Token.KeyRing.{KeyRing, RsaKey}
use kauth_go.Token.Duration.{parse_iso8601_duration, is_positive, add_duration}

pub record Claims : Type 0 where
  pub jti : String
  pub issuer : String
  pub subject : String
  pub audience : List String
  pub issued_at : Option ℕ
  pub not_before : ℕ
  pub expires_at : ℕ
  pub email : String
  pub org : List String
  pub groups : List String
  pub name : String
  pub token_use : String
  pub nonce : String

-- The header's kid.
pub data Kid : Type 0 where
  absent no_string : Kid
  named : String → Kid

-- jwt.ParseWithClaims under one key: claims, a wrong signature, or another error (the form, the
-- algorithm, the issuer, the expiry).
pub data Parsed : Type 0 where
  valid : Claims → Parsed
  bad_signature : Parsed
  bad_token : Parsed

pub record Issuer : Type 0 where
  pub issuer : String
  pub default_ttl : ℕ
  pub admin_ttl : ℕ
  pub ring : KeyRing
  -- jwt.NewWithClaims(RS256, claims).SignedString with the current key.
  pub sign : Claims → Option String
  -- The kid of a token whose header can be read, and the JWT library's check under a key, RS256
  -- alone, with the issuer's name and an expiry that is required.
  pub kid_of : String → Option Kid
  pub check : RsaKey → String → Parsed

pub record Issued : Type 0 where
  pub token : String
  pub jti : String

-- `none` is an admin token, whose subject is the e-mail address.
unfoldable pub subject_of : User → Option Service → Result String
subject_of user none = ok user.email
subject_of user (some svc) =
    if svc.sub_format == "id"
    then (if user.public_id == "" then err no_public_id else ok user.public_id)
    else ok user.email

abbrev pub claims_of : Issuer → User → String → String → ℕ → ℕ → String → Claims
claims_of iss user jti subject now end token_use = record {
  jti = jti;
  issuer = iss.issuer;
  subject = subject;
  audience = [];
  issued_at = some now;
  not_before = now;
  expires_at = end;
  email = user.email;
  org = split_csv user.orgs;
  groups = split_csv user.roles;
  name = text_or_empty user.name;
  token_use = token_use;
  nonce = "";
}

unfoldable pub build_claims : Env → Issuer → User → Option Service → ℕ → String → Exec Claims
build_claims env iss user svc ttl token_use = do
  jti ← random env
  now ← clock env
  subject ← lift (subject_of user svc)
  pure (claims_of iss user jti subject now (add_duration now ttl) token_use)

unfoldable pub signed : String → Option String → Exec Issued
signed jti none = raise sign_failed
signed jti (some text) = pure (record { token = text; jti = jti })

unfoldable pub sign : Issuer → Claims → Exec Issued
sign iss claims = signed claims.jti (iss.sign claims)

abbrev pub addressed : String → String → Claims → Claims
addressed aud nonce claims = record claims { audience = aud ∷ []; nonce = nonce }

unfoldable pub sign_claims :
    Env → Issuer → User → Option Service → ℕ → String → String → String → Exec Issued
sign_claims env iss user svc ttl token_use aud nonce = do
  claims ← build_claims env iss user svc ttl token_use
  sign iss (addressed aud nonce claims)

unfoldable pub service_ttl : Env → Issuer → Service → ℕ
service_ttl env iss svc = elim (parse_iso8601_duration env svc.access_token_ttl) [
  | none ↦ iss.default_ttl
  | some d ↦ if is_positive d then d else iss.default_ttl
]

unfoldable pub issue_access_detailed : Env → Issuer → User → Service → Exec Issued
issue_access_detailed env iss user svc =
    sign_claims env iss user (some svc) (service_ttl env iss svc) "access" svc.id ""

unfoldable pub issue_access : Env → Issuer → User → Service → Exec String
issue_access env iss user svc = do
  issued ← issue_access_detailed env iss user svc
  pure issued.token

unfoldable pub issue_id_token_detailed : Env → Issuer → User → Service → String → Exec Issued
issue_id_token_detailed env iss user svc nonce =
    sign_claims env iss user (some svc) (service_ttl env iss svc) "id" svc.id nonce

unfoldable pub issue_admin : Env → Issuer → User → ℕ → Exec String
issue_admin env iss user ttl = do
  issued ←
      sign_claims env iss user none (if is_positive ttl then ttl else iss.admin_ttl) "admin"
        "kauth-admin" ""
  pure issued.token
