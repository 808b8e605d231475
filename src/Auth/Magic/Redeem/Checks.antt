-- ===== src/Auth/Magic/Redeem/Checks.antt =====
-- What a magic login has checked.
use kauth_go.Prelude.{
  ◌≡◌, refl, String, Bool, true, false, Option, none, some, ◌==◌, ◌&&◌, eq_iff, arith,
}
use kauth_go.Env.{Env}
use kauth_go.Db.{User, Service, MagicToken}
use kauth_go.Db.Table.{select_first, select_first-true}
use kauth_go.Db.Users.{is_active, get_active_user_by_email, CreateUserParams, create_user}
use kauth_go.Db.Magic.{is_valid, mark_magic_used, consume_magic_token}
use kauth_go.Exec.{
  Result, ok, err, unique_violation, World, next, pure, attempt, call, query, clock, ◌>>=◌,
}
use kauth_go.Exec.Outcome.{
  Returns, Returns-pure, Returns-if, Returns-bind, Returns-bind_attempt, Returns-call,
  Returns-query,
}
use kauth_go.Auth.Policy.{check_policy}
use kauth_go.Auth.CodeGrant.{Server}
use kauth_go.Auth.Magic.{normalize_email}
use kauth_go.Auth.FetchMeta.{FetchRequest, same_origin}
use kauth_go.Auth.Login.{
  Completion, policy_denied, issue_failed, completed, login_magic, complete, complete_admitted,
}
use kauth_go.Auth.Magic.Redeem.{
  MagicAnswer, logged_in, create, create_in, sent_back, is_login, consume_magic,
  stored_magic_service, completion, finish_login, registered, register_as, link_user, link_service,
  link_bound, link_consumed, redeem_link,
}

abbrev is_completed : Completion → Bool
is_completed (completed access refresh) = true
is_completed _ = false

-- The answer logs in a user to the link's service. The service offers magic links, the user is active
-- and has the link's address, and the service's policy admits the user.
pub record Bound (env : Env) (srv : Server) (row : MagicToken) (a : MagicAnswer) : Type 0 where
  pub svc : Service
  pub bound : stored_magic_service env srv row ≡ some svc
  pub user : User
  pub access : String
  pub refresh : String
  pub answer : a ≡ logged_in svc user access refresh
  pub active : is_active user ≡ true
  pub address : user.email ≡ normalize_email env row.email
  pub policy : check_policy user svc ≡ none

module _ (env : Env) (srv : Server) where
  complete-Returns :
      (svc : Service) (user : User)
      → Returns
          (λ c. is_completed c ≡ true → check_policy user svc ≡ none)
          (complete env srv svc user login_magic)
  unfolding complete complete_admitted
  complete-Returns svc user = go (check_policy user svc) refl
    where
      go :
          (o : Option String)
          → check_policy user svc ≡ o
          → Returns
              (λ c. is_completed c ≡ true → check_policy user svc ≡ none)
              (complete_admitted env srv svc user login_magic o)
      go (some reason) p = Returns-pure _ (λ clash. cc)
      go none p = record { value = λ w a e done. p }

  module _ (row : MagicToken) where
    abbrev Checks : MagicAnswer → Type 0
    Checks a = is_login a ≡ true → Bound env srv row a

    -- Whom a link to the row's address may log in.
    abbrev IsAddressee : User → Type 0
    IsAddressee u = (is_active u ≡ true) × (u.email ≡ normalize_email env row.email)

    completion-Returns :
        (svc : Service) (user : User) (r : Result Completion)
        → stored_magic_service env srv row ≡ some svc
        → IsAddressee user
        → ((c : Completion) → r ≡ ok c → is_completed c ≡ true → check_policy user svc ≡ none)
        → Returns Checks (completion env srv svc user r)
    unfolding completion
    completion-Returns svc user (err e) b is h = Returns-pure _ (λ clash. cc)
    completion-Returns svc user (ok issue_failed) b is h = Returns-pure _ (λ clash. cc)
    completion-Returns svc user (ok (policy_denied x)) b is h =
        Returns-bind _ _ (λ _. Returns-pure _ (λ clash. cc))
    completion-Returns svc user (ok (completed access refresh)) b is h = Returns-pure _ (λ _.
        record {
          svc = svc;
          bound = b;
          user = user;
          access = access;
          refresh = refresh;
          answer = refl;
          active = is.0;
          address = is.1;
          policy = h _ refl refl;
        })

    finish-Returns :
        (svc : Service) (user : User)
        → stored_magic_service env srv row ≡ some svc
        → IsAddressee user
        → Returns Checks (finish_login env srv svc user)
    unfolding finish_login
    finish-Returns svc user b is =
        Returns-bind_attempt _ _ (complete-Returns svc user)
          (λ r h. completion-Returns svc user r b is h)

    registered-Returns :
        (svc : Service) (r : Result User)
        → stored_magic_service env srv row ≡ some svc
        → ((u : User) → r ≡ ok u → IsAddressee u)
        → Returns Checks (registered env srv row svc r)
    unfolding registered
    registered-Returns svc (err unique_violation) b is =
        Returns-bind _ _ (λ _. Returns-pure _ (λ clash. cc))
    registered-Returns svc (err e) b is = Returns-pure _ (λ clash. cc)
    registered-Returns svc (ok user) b is = finish-Returns svc user b (is user refl)

    -- A registered user is active, with the address that was given.
    create-Returns :
        (p : CreateUserParams)
        → Returns (λ u. (is_active u ≡ true) × (u.email ≡ p.email)) (create env p)
    unfolding create create_user
    create-Returns p = Returns-call env (create_in env p) (λ db u e. (ground arith, ground arith))

    register-Returns :
        (svc : Service) (r : Result String)
        → stored_magic_service env srv row ≡ some svc
        → Returns Checks (register_as env srv row svc r)
    unfolding register_as
    register-Returns svc (err e) b = Returns-pure _ (λ clash. cc)
    register-Returns svc (ok id) b =
        Returns-bind _ _
          (λ _. Returns-bind_attempt _ _ (create-Returns _) (λ r is. registered-Returns svc r b is))

    sent_back-Returns : (id error : String) → Returns Checks (pure (sent_back id error))
    sent_back-Returns id error = Returns-pure _ (λ clash. cc)

    user-Returns :
        (svc : Service) (r : Result User)
        → stored_magic_service env srv row ≡ some svc
        → ((u : User) → r ≡ ok u → IsAddressee u)
        → Returns Checks (link_user env srv row svc r)
    unfolding link_user
    user-Returns svc (ok user) b is = finish-Returns svc user b (is user refl)
    user-Returns svc (err e) b is =
        Returns-if _ _ _ (Returns-bind _ _ (λ r. register-Returns svc r b))
          (sent_back-Returns svc.id "no_account")

    found-Returns :
        Returns IsAddressee
          (query env (λ db. get_active_user_by_email (normalize_email env row.email) db.users))
    unfolding get_active_user_by_email
    found-Returns = Returns-query env _ (λ db u e.
        let hit =
          select_first-true (λ v. v.email == normalize_email env row.email && is_active v) db.users
            u e in
        (ground (arith, hit), ground (arith, hit, eq_iff u.email (normalize_email env row.email))))

    service-Returns :
        (id : String) (o : Option Service)
        → stored_magic_service env srv row ≡ o
        → Returns Checks (link_service env srv row id o)
    unfolding link_service
    service-Returns id none b = Returns-bind _ _ (λ _. Returns-pure _ (λ clash. cc))
    service-Returns id (some svc) b =
        Returns-bind_attempt _ _ found-Returns (λ r is. user-Returns svc r b is)

    bound-Returns :
        (hint : String) (o : Option String) → Returns Checks (link_bound env srv hint row o)
    unfolding link_bound
    bound-Returns hint none = Returns-bind _ _ (λ _. Returns-pure _ (λ clash. cc))
    bound-Returns hint (some id) = service-Returns id _ refl

-- What stands behind a login by magic link: the row that the link's hash found and used up.
pub record LinkRedeemed (env : Env) (srv : Server) (req : FetchRequest) (plain : String) (w : World)
    (a : MagicAnswer) : Type 0 where
  pub origin : same_origin req ≡ true
  pub row : MagicToken
  pub found :
      select_first
        (is_valid env (env.sha256_hex plain) "service" (env.format_time (env.time w.step)))
        w.db.magic_tokens
      ≡ some row
  pub bound : Bound env srv (mark_magic_used row) a

module _ (env : Env) (srv : Server) (req : FetchRequest) (hint plain : String) (w : World)
    (a : MagicAnswer) where
  row-LinkRedeemed :
      (row : MagicToken) (o : Option MagicToken)
      → select_first
          (is_valid env (env.sha256_hex plain) "service" (env.format_time (env.time w.step)))
          w.db.magic_tokens
        ≡ o
      → same_origin req ≡ true
      → (consume_magic env (env.sha256_hex plain) (env.format_time (env.time w.step)) (next w)).0
        ≡ ok row
      → Bound env srv row a
      → LinkRedeemed env srv req plain w a
  unfolding consume_magic consume_magic_token call
  row-LinkRedeemed row none f o t b = ground arith
  row-LinkRedeemed row (some r) f o t b =
      let same : mark_magic_used r ≡ row = ground arith in
      record { origin = o; row = r; found = f; bound = rw same b }

  consumed-LinkRedeemed :
      (r : Result MagicToken) (v : World)
      → same_origin req ≡ true
      → (consume_magic env (env.sha256_hex plain) (env.format_time (env.time w.step)) (next w)).0
        ≡ r
      → (link_consumed env srv hint r v).0 ≡ ok a
      → is_login a ≡ true
      → LinkRedeemed env srv req plain w a
  unfolding link_consumed pure
  consumed-LinkRedeemed (err x) v o t e g = ground arith
  consumed-LinkRedeemed (ok row) v o t e g =
      row-LinkRedeemed row _ refl o t
        ((bound-Returns env srv row hint row.service_id).value v a e g)

-- A login by magic link was asked for from kauth's own origin, with a link whose row is of the purpose
-- "service", was unused and unexpired; the service that the row names offers magic links, and the
-- user who is logged in to it is active, has the row's address, and is admitted by its policy.
pub magic_login_checked :
    (env : Env) (srv : Server) (req : FetchRequest) (hint plain : String) (w : World)
    (a : MagicAnswer)
    → (redeem_link env srv req hint plain w).0 ≡ ok a
    → is_login a ≡ true
    → LinkRedeemed env srv req plain w a
unfolding redeem_link clock attempt pure ◌>>=◌
magic_login_checked env srv req hint plain w a e g =
    let hash = env.sha256_hex plain in
    let now = env.format_time (env.time w.step) in
    let run = consume_magic env hash now (next w) in
    consumed-LinkRedeemed env srv req hint plain w a run.0 run.1 (ground arith) refl (ground arith)
      g
