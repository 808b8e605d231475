-- ===== src/Auth/RefreshGrant/Checks.antt =====
-- What the refresh grant has checked before it answers with tokens.
use mathlib.Core.List.{Mem}
use mathlib.Core.Path.{subst}
use kauth_go.Prelude.{ℕ, ◌≡◌, refl, String, true, Option, none, some, List, arith}
use kauth_go.Env.{Env}
use kauth_go.Db.{User, Service}
use kauth_go.Db.Users.{is_active}
use kauth_go.Exec.{
  Result, ok, err, no_rows, token_reuse, token_revoked, World, pure, attempt, log, ◌>>=◌,
}
use kauth_go.Exec.Outcome.{Returns, Returns-pure, Returns-bind}
use kauth_go.Exec.Spares.{succeeded}
use kauth_go.Token.Refresh.{RotationResult, rotate}
use kauth_go.Auth.Policy.{check_policy}
use kauth_go.Auth.Http.{TokenRequest, Response, is_granted, token_error, CookieChange}
use kauth_go.Auth.CodeGrant.{Server, active_session_user}
use kauth_go.Auth.CodeGrant.Grants.{owner_found}
use kauth_go.Auth.RefreshGrant.{
  refused_origin, presented, reject_origin, deny, admit, with_service, stored_service, with_user,
  with_session, with_token, checked_origin, refresh_grant,
}

-- The session's service is known, and its user is one of `users`, active, and admitted by that
-- service's policy.
pub record Continued (env : Env) (srv : Server) (req : TokenRequest) (session : RotationResult)
    (users : List User) : Type 0 where
  pub svc : Service
  pub known : stored_service env srv req session ≡ some svc
  pub user : User
  pub owner : session.user_id ≡ some user.id
  pub stored : Mem user users
  pub active : is_active user ≡ true
  pub policy : check_policy user svc ≡ none

module _ (env : Env) (srv : Server) (req : TokenRequest) (users : List User) where
  abbrev Continues : RotationResult → Response → Type 0
  Continues session r = is_granted r ≡ true → Continued env srv req session users

  refusing :
      (session : RotationResult) (s : ℕ) (e : String)
      → (c : CookieChange) → Returns (Continues session) (pure (token_error s e c))
  refusing session s e c = Returns-pure _ (λ clash. cc)

  deny-Returns :
      (session : RotationResult) (k reason d : String)
      → Returns (Continues session) (deny env session k reason d)
  unfolding deny
  deny-Returns session k reason d =
      Returns-bind _ _ (λ _. Returns-bind _ _ (λ _. refusing session _ _ _))

  admit-Returns :
      (session : RotationResult) (user : User) (svc : Service) (o : Option String)
      → check_policy user svc ≡ o
      → stored_service env srv req session ≡ some svc
      → session.user_id ≡ some user.id
      → is_active user ≡ true
      → Mem user users
      → Returns (Continues session) (admit env srv req session user svc o)
  unfolding admit
  admit-Returns session user svc none p known owner active stored = record {
    value = λ w r e granted. record {
      svc = svc;
      known = known;
      user = user;
      owner = owner;
      active = active;
      stored = stored;
      policy = p;
    };
  }
  admit-Returns session user svc (some x) p known owner active stored = deny-Returns session _ _ _

  service-Returns :
      (session : RotationResult) (user : User) (o : Option Service)
      → stored_service env srv req session ≡ o
      → session.user_id ≡ some user.id
      → is_active user ≡ true
      → Mem user users
      → Returns (Continues session) (with_service env srv req session user o)
  unfolding with_service
  service-Returns session user none known owner active stored = deny-Returns session _ _ _
  service-Returns session user (some svc) known owner active stored =
      Returns-bind _ _ (λ _. admit-Returns session user svc _ refl known owner active stored)

  user-Returns :
      (session : RotationResult) (r : Result User)
      → ((u : User) → r ≡ ok u → (session.user_id ≡ some u.id) × (is_active u ≡ true) × Mem u users)
      → Returns (Continues session) (with_user env srv req session r)
  unfolding with_user
  user-Returns session (err no_rows) h =
      Returns-bind _ _ (λ _. Returns-bind _ _ (λ _. refusing session _ _ _))
  user-Returns session (err e) h = refusing session _ _ _
  user-Returns session (ok user) h =
      service-Returns session user _ refl (h user refl).0 (h user refl).1 (h user refl).2

module _ (env : Env) (srv : Server) (req : TokenRequest) where
  -- The user is looked up in the table that the rotation left.
  session-Continues :
      (session : RotationResult) (v : World) (a : Response)
      → (with_session env srv req (ok session) v).0 ≡ ok a
      → is_granted a ≡ true
      → Continued env srv req session v.db.users
  unfolding with_session attempt ◌>>=◌
  session-Continues session v a e g =
      let found = active_session_user env session.user_id v in
      (user-Returns env srv req v.db.users session found.0
          (λ u. owner_found env srv req session.user_id v u)).value
        found.1 a e g

-- What stands behind tokens that were given for a refresh token.
pub record Refreshed (env : Env) (srv : Server) (req : TokenRequest) (w : World) : Type 0 where
  pub origin : refused_origin srv.cors_origins req.origins ≡ none
  pub session : RotationResult
  pub rotated : (rotate env (presented req) w).0 ≡ ok session
  pub continued : Continued env srv req session (rotate env (presented req) w).1.db.users

module _ (env : Env) (srv : Server) (req : TokenRequest) (w : World) where
  session-Refreshed :
      (r : Result RotationResult) (v : World) (a : Response)
      → refused_origin srv.cors_origins req.origins ≡ none
      → (rotate env (presented req) w).0 ≡ r
      → v.db.users ≡ (rotate env (presented req) w).1.db.users
      → (with_session env srv req r v).0 ≡ ok a
      → is_granted a ≡ true
      → Refreshed env srv req w
  unfolding with_session pure
  session-Refreshed (err token_reuse) v a o t same e g = ground arith
  session-Refreshed (err token_revoked) v a o t same e g = ground arith
  session-Refreshed (err x) v a o t same e g = ground arith
  session-Refreshed (ok session) v a o t same e g = record {
    origin = o;
    session = session;
    rotated = t;
    continued =
        subst (Continued env srv req session) same (session-Continues env srv req session v a e g);
  }

  origin-Refreshed :
      (o : Option (List String)) (a : Response)
      → refused_origin srv.cors_origins req.origins ≡ o
      → (checked_origin env srv req o w).0 ≡ ok a
      → is_granted a ≡ true
      → Refreshed env srv req w
  unfolding checked_origin with_token reject_origin pure attempt log ◌>>=◌
  origin-Refreshed (some vals) a o e g = ground arith
  origin-Refreshed none a o e g =
      session-Refreshed (rotate env (presented req) w).0 (rotate env (presented req) w).1 a o refl
        refl (ground arith) g

  granted-Refreshed :
      (r : Result Response)
      → (refresh_grant env srv req w).0 ≡ r
      → succeeded is_granted r ≡ true
      → Refreshed env srv req w
  unfolding refresh_grant
  granted-Refreshed (err x) e g = cc
  granted-Refreshed (ok a) e g = origin-Refreshed _ a refl e g

-- If the refresh grant is answered with tokens, then the request has no Origin header or an allowed
-- one, the rotation of the presented token succeeded, the service that its row names is known, and its
-- user is one of the table that the rotation left, active, and admitted by that service's policy.
pub granted_refresh_checked :
    (env : Env) (srv : Server) (req : TokenRequest) (w : World)
    → succeeded is_granted (refresh_grant env srv req w).0 ≡ true
    → Refreshed env srv req w
granted_refresh_checked env srv req w granted = granted-Refreshed env srv req w _ refl granted
