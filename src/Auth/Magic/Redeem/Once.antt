-- ===== src/Auth/Magic/Redeem/Once.antt =====
-- A magic link logs in once.
use kauth_go.Prelude.{
  ℕ, ◌≡◌, ◌≢◌, refl, String, true, false, Bool-cases, inl, inr, Option, none, some, List, [], ◌∷◌,
  All, arith, eq_iff, ◌∙◌,
}
use kauth_go.Env.{Env}
use kauth_go.Db.{Db, User, Service, MagicToken}
use kauth_go.Db.Table.{select_first, update_where, select_first-All, select_first-true}
use kauth_go.Db.Magic.{is_valid, mark_magic_used, consume_magic_token}
use kauth_go.Db.Refresh.{InsertRefreshTokenParams}
use kauth_go.Db.Users.{CreateUserParams}
use kauth_go.Exec.{
  Result, ok, err, unique_violation, World, next, pure, attempt, call, clock, execute, ◌>>=◌,
}
use kauth_go.Exec.Keeps.{Keeps, Keeps-call, Keeps-execute, keeps_rules}
use kauth_go.Token.Refresh.{issue, insert, new_root_token, root_token}
use kauth_go.Token.Issuer.{
  Issuer, issue_access, issue_access_detailed, sign_claims, build_claims, sign, signed,
}
use kauth_go.Auth.CodeGrant.{Server}
use kauth_go.Auth.FetchMeta.{FetchRequest, same_origin}
use kauth_go.Auth.Login.{
  Completion, policy_denied, issue_failed, completed, LoginMethod, complete, complete_admitted,
  access_given, refresh_issued, last_login_in,
}
use kauth_go.Auth.Magic.Redeem.{
  MagicAnswer, is_login, consume_magic, create, create_in, completion, finish_login, registered,
  register_as, link_user, link_service, link_bound, link_consumed, redeem_link,
}
use kauth_go.Auth.Magic.Redeem.Checks.{magic_login_checked}

abbrev HasLinks : List MagicToken → Db → Type 0
HasLinks t db = db.magic_tokens ≡ t

module _ (env : Env) (t : List MagicToken) where
  signed-Keeps : (jti : String) (o : Option String) → Keeps 0 (HasLinks t) (signed jti o)
  unfolding signed
  signed-Keeps jti none = search keeps_rules
  signed-Keeps jti (some x) = search keeps_rules

  access-Keeps :
      (iss : Issuer) (user : User) (svc : Service)
      → Keeps 0 (HasLinks t) (issue_access env iss user svc)
  unfolding issue_access issue_access_detailed sign_claims build_claims sign
  access-Keeps iss user svc = search (keeps_rules, signed-Keeps) depth 10

  insert-Keeps : (p : InsertRefreshTokenParams) → Keeps 0 (HasLinks t) (insert env p)
  unfolding insert
  insert-Keeps p = Keeps-call env _ (λ db h. ground arith)

  issue-Keeps : (user : User) (svc : Service) → Keeps 0 (HasLinks t) (issue env user svc)
  unfolding issue new_root_token root_token
  issue-Keeps user svc = search (keeps_rules, insert-Keeps) depth 10

  create-Keeps : (p : CreateUserParams) → Keeps 0 (HasLinks t) (create env p)
  unfolding create
  create-Keeps p = Keeps-call env (create_in env p) (λ db h. ground arith)

  last_login-Keeps :
      (time : String) (id : ℕ) → Keeps 0 (HasLinks t) (execute env (last_login_in time id))
  last_login-Keeps time id = Keeps-execute env (last_login_in time id) (λ db h. h)

  module _ (srv : Server) where
    refresh_issued-Keeps :
        (svc : Service) (user : User) (m : LoginMethod) (a : String) (r : Result String)
        → Keeps 0 (HasLinks t) (refresh_issued env srv svc user m a r)
    unfolding refresh_issued
    refresh_issued-Keeps svc user m a (err e) = search keeps_rules
    refresh_issued-Keeps svc user m a (ok r) = search (keeps_rules, last_login-Keeps) depth 8

    access_given-Keeps :
        (svc : Service) (user : User) (m : LoginMethod) (r : Result String)
        → Keeps 0 (HasLinks t) (access_given env srv svc user m r)
    unfolding access_given
    access_given-Keeps svc user m (err e) = search keeps_rules
    access_given-Keeps svc user m (ok a) = search (keeps_rules, issue-Keeps, refresh_issued-Keeps)

    admitted-Keeps :
        (svc : Service) (user : User) (m : LoginMethod) (o : Option String)
        → Keeps 0 (HasLinks t) (complete_admitted env srv svc user m o)
    unfolding complete_admitted
    admitted-Keeps svc user m (some x) = search keeps_rules
    admitted-Keeps svc user m none = search (keeps_rules, access-Keeps, access_given-Keeps)

    completion-Keeps :
        (svc : Service) (user : User) (r : Result Completion)
        → Keeps 0 (HasLinks t) (completion env srv svc user r)
    unfolding completion
    completion-Keeps svc user (err e) = search keeps_rules
    completion-Keeps svc user (ok issue_failed) = search keeps_rules
    completion-Keeps svc user (ok (completed a r)) = search keeps_rules
    completion-Keeps svc user (ok (policy_denied x)) = search keeps_rules

    finish-Keeps :
        (svc : Service) (user : User) → Keeps 0 (HasLinks t) (finish_login env srv svc user)
    unfolding finish_login complete
    finish-Keeps svc user = search (keeps_rules, admitted-Keeps, completion-Keeps)

    registered-Keeps :
        (row : MagicToken) (svc : Service) (r : Result User)
        → Keeps 0 (HasLinks t) (registered env srv row svc r)
    unfolding registered
    registered-Keeps row svc (err unique_violation) = search keeps_rules
    registered-Keeps row svc (err e) = search keeps_rules
    registered-Keeps row svc (ok user) = finish-Keeps svc user

    register-Keeps :
        (row : MagicToken) (svc : Service) (r : Result String)
        → Keeps 0 (HasLinks t) (register_as env srv row svc r)
    unfolding register_as
    register-Keeps row svc (err e) = search keeps_rules
    register-Keeps row svc (ok id) = search (keeps_rules, create-Keeps, registered-Keeps) depth 8

    user-Keeps :
        (row : MagicToken) (svc : Service) (r : Result User)
        → Keeps 0 (HasLinks t) (link_user env srv row svc r)
    unfolding link_user
    user-Keeps row svc (ok user) = finish-Keeps svc user
    user-Keeps row svc (err e) = search (keeps_rules, register-Keeps) depth 8

    service-Keeps :
        (row : MagicToken) (id : String) (o : Option Service)
        → Keeps 0 (HasLinks t) (link_service env srv row id o)
    unfolding link_service
    service-Keeps row id none = search keeps_rules
    service-Keeps row id (some svc) = search (keeps_rules, user-Keeps) depth 8

    bound-Keeps :
        (hint : String) (row : MagicToken) (o : Option String)
        → Keeps 0 (HasLinks t) (link_bound env srv hint row o)
    unfolding link_bound
    bound-Keeps hint row none = search keeps_rules
    bound-Keeps hint row (some id) = service-Keeps row id _

    consumed-Keeps :
        (hint : String) (r : Result MagicToken)
        → Keeps 0 (HasLinks t) (link_consumed env srv hint r)
    unfolding link_consumed
    consumed-Keeps hint (err e) = search keeps_rules
    consumed-Keeps hint (ok row) = bound-Keeps hint row row.service_id

-- The UNIQUE constraint, for one hash.
abbrev pub AtMostOneLink : String → List MagicToken → Type 0
AtMostOneLink h [] = Unit
AtMostOneLink h (r ∷ rs) = (r.token ≡ h → All (λ s. s.token ≢ h) rs) × AtMostOneLink h rs

-- A row with the hash has been used.
abbrev IsSpentLink : String → MagicToken → Type 0
IsSpentLink h r = r.token ≡ h → r.used ≢ 0

module _ (env : Env) (h now : String) where
  others-spent :
      (rs : List MagicToken)
      → All (λ s. s.token ≢ h) rs
      → All (IsSpentLink h) (update_where (is_valid env h "service" now) mark_magic_used rs)
  unfolding update_where
  others-spent [] n = tt
  others-spent (r ∷ rs) n = (ground (arith, n.0, eq_iff r.token h), others-spent rs n.1)

  not-found :
      (rs : List MagicToken)
      → All (λ s. s.token ≢ h) rs
      → select_first (is_valid env h "service" now) rs ≡ none
  unfolding select_first
  not-found [] n = refl
  not-found (r ∷ rs) n = ground (arith, n.0, eq_iff r.token h, not-found rs n.1)

  consumed-spent :
      (rs : List MagicToken) (c : MagicToken)
      → AtMostOneLink h rs
      → select_first (is_valid env h "service" now) rs ≡ some c
      → All (IsSpentLink h) (update_where (is_valid env h "service" now) mark_magic_used rs)
  unfolding update_where select_first
  consumed-spent [] c u f = cc
  consumed-spent (r ∷ rs) c u f = elim (Bool-cases (is_valid env h "service" now r)) [
    | inl hit ↦
        let same : r.token ≡ h = ground (arith, eq_iff r.token h) in
        rw hit (λ e. omega arith, others-spent rs (u.0 same))
    | inr miss ↦
        rw miss (λ e. ground (arith, not-found rs (u.0 e)), consumed-spent rs c u.1 (rw miss at f))
  ]

module _ (env : Env) (srv : Server) (req : FetchRequest) (hint plain : String) (w : World) where
  abbrev hash : String
  hash = env.sha256_hex plain

  abbrev now : String
  now = env.format_time (env.time w.step)

  abbrev run : Result MagicToken × World
  run = consume_magic env hash now (next w)

  run-links :
      (a : MagicAnswer)
      → (link_consumed env srv hint run.0 run.1).0 ≡ ok a
      → is_login a ≡ true
      → run.1.db.magic_tokens
        ≡ update_where (is_valid env hash "service" now) mark_magic_used w.db.magic_tokens
  unfolding link_consumed consume_magic consume_magic_token call pure
  run-links a e g = ground arith

  redeemed-links :
      (a : MagicAnswer)
      → same_origin req ≡ true
      → (redeem_link env srv req hint plain w).0 ≡ ok a
      → is_login a ≡ true
      → (redeem_link env srv req hint plain w).1.db.magic_tokens
        ≡ update_where (is_valid env hash "service" now) mark_magic_used w.db.magic_tokens
  unfolding redeem_link clock attempt ◌>>=◌
  redeemed-links a o e g =
      let kept =
        ((consumed-Keeps env run.1.db.magic_tokens srv hint run.0).run run.1
          (record { since = omega arith; holds = refl })).holds in
      rw o (kept ∙ run-links a (rw o at e) g)

-- A magic link that gave a login gives no other one in the next request, whatever that request's
-- headers are, provided that at most one row has the link's hash.
pub link_used_once :
    (env : Env) (srv : Server) (req req' : FetchRequest) (hint hint' plain : String) (w : World)
    (a b : MagicAnswer)
    → AtMostOneLink (env.sha256_hex plain) w.db.magic_tokens
    → (redeem_link env srv req hint plain w).0 ≡ ok a
    → is_login a ≡ true
    → (redeem_link env srv req' hint' plain (redeem_link env srv req hint plain w).1).0 ≡ ok b
    → is_login b ≡ false
link_used_once env srv req req' hint hint' plain w a b u e g again =
    elim (Bool-cases (is_login b)) [ inr miss ↦ miss | inl hit ↦ absurd (clash hit) ]
  where
    clash : is_login b ≡ true → ⊥
    clash hit =
        let h = env.sha256_hex plain in
        let first = magic_login_checked env srv req hint plain w a e g in
        let links = redeemed-links env srv req hint plain w a first.origin e g in
        let spent =
          consumed-spent env h (env.format_time (env.time w.step)) w.db.magic_tokens first.row u
            first.found in
        let second =
          magic_login_checked env srv req' hint' plain (redeem_link env srv req hint plain w).1 b
            again hit in
        let live = select_first-true _ _ second.row second.found in
        let used = select_first-All (IsSpentLink h) _ _ second.row second.found (rw links spent) in
        used (ground (arith, live, eq_iff second.row.token h)) (ground (arith, live))
