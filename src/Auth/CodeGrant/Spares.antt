-- ===== src/Auth/CodeGrant/Spares.antt =====
-- What an exchange that is refused leaves: the codes as they were.
use kauth_go.Prelude.{ℕ, ◌≡◌, inl, inr, refl, String, Bool, true, false, Option, none, some, List}
use kauth_go.Env.{Env}
use kauth_go.Db.{User, Service, AuthorizationCode}
use kauth_go.Exec.{Error, Result, ok, err, no_rows, World, Exec, pure, log, ◌>>=◌}
use kauth_go.Exec.Keeps.{Keeps, Keeps-execute, keeps_rules}
use kauth_go.Exec.Spares.{
  HasCodes, succeeded, Spares, Spares-bind, spares_rules, Spares-in_tx, Spares-bind_succeeding,
  Spares-bind_attempt,
}
use kauth_go.Token.Refresh.{
  CodeRedemption, new_root_token, root_token, redeem_authorization_code, revoke_family, revoke_in,
}
use kauth_go.Token.Issuer.{
  Issuer, Issued, build_claims, sign, signed, sign_claims, issue_access_detailed,
  issue_id_token_detailed,
}
use kauth_go.Auth.Http.{TokenRequest, Response, is_granted}
use kauth_go.Auth.CodeGrant.{
  Server, find_code, active_session_user, revoke_code_family, reject_used, log_mismatch,
  reject_unused, reject_code, log_invalid, unless_rejected, lost_race_found, lost_race, redeemed,
  redeem, issue_id, id_issued, access_issued, exchange_tokens, admit, exchange_user,
  exchange_service, exchange_found, authorization_code_grant,
}

module _ (env : Env) (c : List AuthorizationCode) where
  root_token-Keeps :
      (user : User) (svc : Service) (f : String) (now : ℕ)
      → Keeps 0 (HasCodes c) (new_root_token env user svc f now)
  unfolding new_root_token root_token
  root_token-Keeps user svc f now = search keeps_rules depth 8

  find_code-Keeps : (hash : String) → Keeps 0 (HasCodes c) (find_code env hash)
  unfolding find_code
  find_code-Keeps hash = search keeps_rules

  active_session_user-Keeps : (id : Option ℕ) → Keeps 0 (HasCodes c) (active_session_user env id)
  unfolding active_session_user
  active_session_user-Keeps none = search keeps_rules
  active_session_user-Keeps (some id) = search keeps_rules

  signed-Keeps : (jti : String) (o : Option String) → Keeps 0 (HasCodes c) (signed jti o)
  unfolding signed
  signed-Keeps jti none = search keeps_rules
  signed-Keeps jti (some t) = search keeps_rules

  sign_claims-Keeps :
      (iss : Issuer) (user : User) (svc : Option Service) (ttl : ℕ) (use_ aud nonce : String)
      → Keeps 0 (HasCodes c) (sign_claims env iss user svc ttl use_ aud nonce)
  unfolding sign_claims build_claims sign
  sign_claims-Keeps iss user svc ttl use_ aud nonce = search (keeps_rules, signed-Keeps) depth 8

  revoke_family-Keeps : (f reason : String) → Keeps 0 (HasCodes c) (revoke_family env f reason)
  unfolding revoke_family
  revoke_family-Keeps f reason = Keeps-execute env (revoke_in reason f) (λ db h. h)

  revoke_code-Keeps : (f : Option String) → Keeps 0 (HasCodes c) (revoke_code_family env f)
  unfolding revoke_code_family
  revoke_code-Keeps none = search keeps_rules
  revoke_code-Keeps (some f) = search (keeps_rules, revoke_family-Keeps)

  log_mismatch-Keeps :
      (row : AuthorizationCode) (o : Option (String × String))
      → Keeps 0 (HasCodes c) (log_mismatch row o)
  unfolding log_mismatch
  log_mismatch-Keeps row none = search keeps_rules
  log_mismatch-Keeps row (some (k, d)) = search keeps_rules

  reject_code-Keeps :
      (req : TokenRequest) (row : AuthorizationCode)
      → Keeps 0 (HasCodes c) (reject_code env req row)
  unfolding reject_code reject_used reject_unused
  reject_code-Keeps req row = search (keeps_rules, revoke_code-Keeps, log_mismatch-Keeps) depth 8

  log_invalid-Keeps : (id : String) → Keeps 0 (HasCodes c) (log_invalid id)
  unfolding log_invalid
  log_invalid-Keeps id = search keeps_rules

module _ (env : Env) where
  -- Either the code is redeemed and tokens are given, or the code stays.
  redemption-Spares :
      (p : CodeRedemption) (user : User) (svc : Service)
      → Spares (λ _. true) (redeem_authorization_code env p user svc)
  unfolding redeem_authorization_code log pure ◌>>=◌
  redemption-Spares p user svc =
      search (spares_rules, keeps_rules, root_token-Keeps env, Spares-in_tx, Spares-bind_succeeding)
        depth 8

module _ (env : Env) (srv : Server) (req : TokenRequest) where
  log_invalid-Spares : (id : String) → Spares is_granted (log_invalid id)
  unfolding log_invalid
  log_invalid-Spares id = search (spares_rules, keeps_rules)

  unless-Spares :
      (b : Bool) (m : Exec Response)
      → Spares is_granted m
      → Spares is_granted (unless_rejected env srv req b m)
  unfolding unless_rejected
  unless-Spares true m h = search spares_rules
  unless-Spares false m h = h

  lost_race_found-Spares :
      (row : AuthorizationCode) (r : Result AuthorizationCode)
      → Spares is_granted (lost_race_found env srv req row r)
  unfolding lost_race_found
  lost_race_found-Spares row (err no_rows) = log_invalid-Spares row.service_id
  lost_race_found-Spares row (err e) = search spares_rules
  lost_race_found-Spares row (ok fresh) =
      Spares-bind _ _ (λ c. reject_code-Keeps env c req fresh)
        (λ b. unless-Spares b _ (log_invalid-Spares row.service_id))

  lost_race-Spares : (row : AuthorizationCode) → Spares is_granted (lost_race env srv req row)
  unfolding lost_race
  lost_race-Spares row =
      search (spares_rules, keeps_rules, find_code-Keeps env, lost_race_found-Spares)

  redeemed-Spares :
      (row : AuthorizationCode) (user : User) (svc : Service) (a : Issued) (id : Option Issued)
      (e : Error)
      → Spares is_granted (redeemed env srv req row user svc a id (err e))
  unfolding redeemed
  redeemed-Spares row user svc a id no_rows = lost_race-Spares row
  redeemed-Spares row user svc a id e = search spares_rules

  redeemed-granted :
      (row : AuthorizationCode) (user : User) (svc : Service) (a : Issued) (id : Option Issued)
      (p : String × String) (w : World)
      → succeeded is_granted (redeemed env srv req row user svc a id (ok p) w).0 ≡ true
  unfolding redeemed log ◌>>=◌
  redeemed-granted row user svc a id (t, f) w = refl

  redeem-Spares :
      (row : AuthorizationCode) (user : User) (svc : Service) (a : Issued) (id : Option Issued)
      → Spares is_granted (redeem env srv req row user svc a id)
  unfolding redeem
  redeem-Spares row user svc a id =
      Spares-bind_attempt _ _ (redemption-Spares env _ user svc)
        (redeemed-granted row user svc a id) (redeemed-Spares row user svc a id)

  issue_id-Keeps :
      (c : List AuthorizationCode) (row : AuthorizationCode) (user : User) (svc : Service)
      → Keeps 0 (HasCodes c) (issue_id env srv req row user svc)
  unfolding issue_id issue_id_token_detailed
  issue_id-Keeps c row user svc = search (keeps_rules, sign_claims-Keeps env c)

  id_issued-Spares :
      (row : AuthorizationCode) (user : User) (svc : Service) (a : Issued)
      (r : Result (Option Issued))
      → Spares is_granted (id_issued env srv req row user svc a r)
  unfolding id_issued
  id_issued-Spares row user svc a (err e) = search spares_rules
  id_issued-Spares row user svc a (ok id) = redeem-Spares row user svc a id

  access_issued-Spares :
      (row : AuthorizationCode) (user : User) (svc : Service) (r : Result Issued)
      → Spares is_granted (access_issued env srv req row user svc r)
  unfolding access_issued
  access_issued-Spares row user svc (err e) = search spares_rules
  access_issued-Spares row user svc (ok a) =
      search (spares_rules, keeps_rules, issue_id-Keeps, id_issued-Spares)

  tokens-Spares :
      (row : AuthorizationCode) (user : User) (svc : Service)
      → Spares is_granted (exchange_tokens env srv req row user svc)
  unfolding exchange_tokens issue_access_detailed
  tokens-Spares row user svc =
      search (spares_rules, keeps_rules, sign_claims-Keeps env, access_issued-Spares)

  admit-Spares :
      (row : AuthorizationCode) (user : User) (svc : Service) (o : Option String)
      → Spares is_granted (admit env srv req row user svc o)
  unfolding admit
  admit-Spares row user svc none = tokens-Spares row user svc
  admit-Spares row user svc (some reason) = search (spares_rules, keeps_rules)

  user-Spares :
      (row : AuthorizationCode) (svc : Service) (r : Result User)
      → Spares is_granted (exchange_user env srv req row svc r)
  unfolding exchange_user
  user-Spares row svc (err no_rows) = search spares_rules
  user-Spares row svc (err e) = search spares_rules
  user-Spares row svc (ok user) = admit-Spares row user svc _

  service-Spares :
      (row : AuthorizationCode) (o : Option Service)
      → Spares is_granted (exchange_service env srv req row o)
  unfolding exchange_service
  service-Spares row none = search spares_rules
  service-Spares row (some svc) =
      search (spares_rules, keeps_rules, active_session_user-Keeps env, user-Spares)

  found-Spares : (r : Result AuthorizationCode) → Spares is_granted (exchange_found env srv req r)
  unfolding exchange_found
  found-Spares (err no_rows) = log_invalid-Spares _
  found-Spares (err e) = search spares_rules
  found-Spares (ok row) =
      Spares-bind _ _ (λ c. reject_code-Keeps env c req row)
        (λ b. unless-Spares b _ (service-Spares row _))

  grant-Spares : Spares is_granted (authorization_code_grant env srv req)
  unfolding authorization_code_grant
  grant-Spares = search (spares_rules, keeps_rules, find_code-Keeps env, found-Spares)

-- An exchange of an authorization code that is not answered with tokens has left every row of the
-- authorization codes as it was: no refusal, failure or lost race burns a code.
pub refused_exchange_unchanged :
    (env : Env) (srv : Server) (req : TokenRequest) (w : World)
    → succeeded is_granted (authorization_code_grant env srv req w).0 ≡ false
    → (authorization_code_grant env srv req w).1.db.authorization_codes ≡ w.db.authorization_codes
refused_exchange_unchanged env srv req w refused =
    elim ((grant-Spares env srv req).run w.db.authorization_codes w refl) [
      | inl granted ↦ cc
      | inr kept ↦ kept
    ]
