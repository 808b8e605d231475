-- ===== src/Token/Issuer/Signed.antt =====
-- What the claims of a signed token say.
use kauth_go.Prelude.{ℕ, suc, ◌≡◌, ◌≢◌, refl, String, Option, none, some, [], ◌∷◌, eq_iff, arith}
use kauth_go.Env.{Env}
use kauth_go.Db.{User, Service}
use kauth_go.Exec.{Result, ok, err, World, next, pure, raise, lift, random, clock, ◌>>=◌}
use kauth_go.Token.Duration.{add_duration}
use kauth_go.Token.Issuer.{
  Claims, Issuer, Issued, subject_of, claims_of, addressed, build_claims, signed, sign, sign_claims,
  service_ttl, issue_id_token_detailed,
}

-- The claims behind a token that was issued to a user for a service.
pub record ClaimsBehind (iss : Issuer) (user : User) (svc : Service) (ttl : ℕ)
    (token_use asked_nonce : String) (out : Issued) : Type 0 where
  pub claims : Claims
  pub signature : iss.sign claims ≡ some out.token
  pub jti : claims.jti ≡ out.jti
  pub issuer : claims.issuer ≡ iss.issuer
  pub audience : claims.audience ≡ svc.id ∷ []
  pub purpose : claims.token_use ≡ token_use
  pub nonce : claims.nonce ≡ asked_nonce
  pub email : claims.email ≡ user.email
  pub issued_at : ℕ
  pub issued : claims.issued_at ≡ some issued_at
  pub expiry : claims.expires_at ≡ add_duration issued_at ttl
  pub by_id : svc.sub_format ≡ "id" → (claims.subject ≡ user.public_id) × (user.public_id ≢ "")
  pub by_email : svc.sub_format ≢ "id" → claims.subject ≡ user.email

module _ (env : Env) (iss : Issuer) (user : User) (svc : Service) (ttl : ℕ)
    (use_ nonce : String) where
  subject-by_id :
      (s : String)
      → subject_of user (some svc) ≡ ok s
      → svc.sub_format ≡ "id"
      → (s ≡ user.public_id) × (user.public_id ≢ "")
  unfolding subject_of
  subject-by_id s e h = ground (arith, eq_iff svc.sub_format "id", eq_iff user.public_id "")

  subject-by_email :
      (s : String) → subject_of user (some svc) ≡ ok s → svc.sub_format ≢ "id" → s ≡ user.email
  unfolding subject_of
  subject-by_email s e h = ground (arith, eq_iff svc.sub_format "id")

  -- The claims of a run that starts in `w`.
  abbrev claims_at : World → String → String → Claims
  claims_at w jti s = addressed svc.id nonce (
      claims_of iss user jti s (env.time (suc w.step)) (add_duration (env.time (suc w.step)) ttl)
        use_)

  signed-ClaimsBehind :
      (w v : World) (issued : Issued) (jti s : String) (t : Option String)
      → subject_of user (some svc) ≡ ok s
      → iss.sign (claims_at w jti s) ≡ t
      → (signed jti t v).0 ≡ ok issued
      → ClaimsBehind iss user svc ttl use_ nonce issued
  unfolding signed pure raise
  signed-ClaimsBehind w v issued jti s none f g e = cc
  signed-ClaimsBehind w v issued jti s (some text) f g e = record {
    claims = claims_at w jti s;
    signature = ground arith;
    jti = ground arith;
    issuer = refl;
    audience = refl;
    purpose = refl;
    nonce = refl;
    email = refl;
    issued_at = env.time (suc w.step);
    issued = refl;
    expiry = refl;
    by_id = subject-by_id s f;
    by_email = subject-by_email s f;
  }

  run-ClaimsBehind :
      (w : World) (issued : Issued) (jti : Option String) (s : Result String)
      → env.random w.step ≡ jti
      → subject_of user (some svc) ≡ s
      → (sign_claims env iss user (some svc) ttl use_ svc.id nonce w).0 ≡ ok issued
      → ClaimsBehind iss user svc ttl use_ nonce issued
  unfolding sign_claims build_claims sign random clock lift pure ◌>>=◌
  run-ClaimsBehind w issued none s d f e = ground arith
  run-ClaimsBehind w issued (some jti) (err x) d f e = ground arith
  run-ClaimsBehind w issued (some jti) (ok s) d f e =
      signed-ClaimsBehind w (next (next w)) issued jti s _ f refl (rw (d, f) at e)

-- An ID token that was issued carries a signature over claims that name the issuer, the service as
-- the only audience, the purpose "id", the nonce of the request and the user's address, that end
-- when the service's tokens do, and whose subject is the public ID, never empty, for a service with
-- sub_format "id", and the address for every other one.
pub id_token_claims :
    (env : Env) (iss : Issuer) (user : User) (svc : Service) (nonce : String) (w : World)
    (issued : Issued)
    → (issue_id_token_detailed env iss user svc nonce w).0 ≡ ok issued
    → ClaimsBehind iss user svc (service_ttl env iss svc) "id" nonce issued
unfolding issue_id_token_detailed
id_token_claims env iss user svc nonce w issued e =
    run-ClaimsBehind env iss user svc (service_ttl env iss svc) "id" nonce w issued _ _ refl refl e
