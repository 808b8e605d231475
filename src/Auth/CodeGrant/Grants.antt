-- ===== src/Auth/CodeGrant/Grants.antt =====
-- What an exchange that is answered with tokens has checked.
use mathlib.Core.List.{Mem}
use mathlib.Core.Path.{subst}
use kauth_go.Prelude.{
  ℕ, suc, ap, ◌∙◌, ◌≡◌, ◌≢◌, ◌≤◌, refl, String, Bool, true, false, Option, none, some, List, eqb,
  eq_iff, arith, if◌then◌else◌, ◌&&◌,
}
use kauth_go.Text.{byte_length}
use kauth_go.Env.{Env}
use kauth_go.Db.{Db, User, Service, AuthorizationCode}
use kauth_go.Db.Table.{select_first, select_first-true, select_first-Mem}
use kauth_go.Db.Codes.{get_authorization_code_by_hash}
use kauth_go.Db.Users.{is_active, get_active_user_by_id}
use kauth_go.Exec.{
  Result, ok, err, continue, no_rows, World, pure, raise, attempt, call, query, clock, log, next,
  ◌>>=◌,
}
use kauth_go.Exec.Outcome.{Returns, Returns-if, Returns-pure, Returns-bind}
use kauth_go.Exec.Spares.{succeeded}
use kauth_go.Registry.{resolve}
use kauth_go.Auth.Policy.{check_policy}
use kauth_go.Auth.Http.{TokenRequest, Response, is_granted, verify_pkce, s256_challenge}
use kauth_go.Auth.CodeGrant.{
  Server, find_code, active_session_user, reject_used, mismatch, log_mismatch, reject_unused,
  reject_code, log_invalid, server_error, unless_rejected, admit, exchange_user, exchange_service,
  exchange_found, authorization_code_grant,
}

-- The code is the caller's: it was not used, had not expired at the time `now`, and belongs
-- to the client, the redirect URI and the verifier of the request.
pub record Accepted (env : Env) (req : TokenRequest) (row : AuthorizationCode) (now : ℕ)
    : Type 0 where
  pub unused : row.used ≢ 1
  pub unexpired : env.text_lt (env.format_time now) row.expires_at ≡ true
  pub client : row.service_id ≡ req.client_id
  pub redirect : row.redirect_uri ≡ req.redirect_uri
  pub challenge : env.sha256_base64 req.code_verifier ≡ row.code_challenge
  pub method : row.code_challenge_method ≡ "S256"

-- The code's service is known, and its user is one of `users`, active, and admitted by the service's
-- policy.
pub record Admitted (env : Env) (srv : Server) (row : AuthorizationCode) (users : List User)
    : Type 0 where
  pub svc : Service
  pub known : resolve env srv.cache "" row.service_id "" ≡ some svc
  pub user : User
  pub owner : row.user_id ≡ some user.id
  pub stored : Mem user users
  pub active : is_active user ≡ true
  pub policy : check_policy user svc ≡ none

module _ (env : Env) (req : TokenRequest) where
  pkce :
      (c m : String)
      → verify_pkce env req.code_verifier c m ≡ true
      → (env.sha256_base64 req.code_verifier ≡ c) × (m ≡ "S256")
  unfolding verify_pkce s256_challenge
  pkce c m h = ground (arith, eq_iff (env.sha256_base64 req.code_verifier) c, eq_iff m "S256")

  mismatch-Accepted :
      (row : AuthorizationCode) (now : ℕ)
      → row.used ≢ 1
      → mismatch env req row (env.format_time now) ≡ none
      → Accepted env req row now
  unfolding mismatch
  mismatch-Accepted row now unused e =
      let verified : verify_pkce env req.code_verifier row.code_challenge row.code_challenge_method
          ≡ true =
        ground arith in
      record {
        unused = unused;
        unexpired = ground arith;
        client = ground (arith, eq_iff row.service_id req.client_id);
        redirect = ground (arith, eq_iff row.redirect_uri req.redirect_uri);
        challenge = (pkce _ _ verified).0;
        method = (pkce _ _ verified).1;
      }

  rejecting : Returns (λ b. b ≡ true) (pure true)
  rejecting = Returns-pure true refl

  used-Returns : (row : AuthorizationCode) → Returns (λ b. b ≡ true) (reject_used env req row)
  unfolding reject_used
  used-Returns row = search (Returns-if, Returns-bind, rejecting) depth 8

  -- A code that is not rejected is accepted at the time that the clock shows, and the database is
  -- as it was.
  abbrev Passes : AuthorizationCode → World → World → Type 0
  Passes row v w = Accepted env req row (env.time v.step) × (w.db ≡ v.db)

  mismatch-Passes :
      (row : AuthorizationCode) (v : World)
      → row.used ≢ 1
      → (o : Option (String × String))
      → mismatch env req row (env.format_time (env.time v.step)) ≡ o
      → (log_mismatch row o (next v)).0 ≡ ok false
      → Passes row v (log_mismatch row o (next v)).1
  unfolding log_mismatch pure ◌>>=◌ log
  mismatch-Passes row v unused none e f = (mismatch-Accepted row (env.time v.step) unused e, refl)
  mismatch-Passes row v unused (some (k, d)) e f = cc

  unused-Passes :
      (row : AuthorizationCode) (v : World)
      → row.used ≢ 1
      → (reject_unused env req row v).0 ≡ ok false
      → Passes row v (reject_unused env req row v).1
  unfolding reject_unused clock ◌>>=◌
  unused-Passes row v unused f = mismatch-Passes row v unused _ refl f

  reject_code-Passes :
      (row : AuthorizationCode) (v : World)
      → (reject_code env req row v).0 ≡ ok false
      → Passes row v (reject_code env req row v).1
  unfolding reject_code
  reject_code-Passes row v = go (eqb row.used 1) refl
    where
      go :
          (b : Bool)
          → eqb row.used 1 ≡ b
          → ((if b then reject_used env req row else reject_unused env req row) v).0 ≡ ok false
          → Passes row v ((if b then reject_used env req row else reject_unused env req row) v).1
      go true e f = let clash = (used-Returns row).value v false f in cc
      go false e f = unused-Passes row v (ground arith) f

module _ (env : Env) (srv : Server) (req : TokenRequest) where
  -- The user that a session's lookup gives is stored under the session's id, and active.
  pub owner_found :
      (id : Option ℕ) (w : World) (u : User)
      → (active_session_user env id w).0 ≡ ok u
      → (id ≡ some u.id) × (is_active u ≡ true) × Mem u w.db.users
  unfolding active_session_user query call get_active_user_by_id raise
  owner_found none w u e = cc
  owner_found (some id) w u e =
      let found : select_first (λ v. eqb v.id id && is_active v) w.db.users ≡ some u =
        ground arith in
      let hit = select_first-true _ _ u found in
      (ground (arith, hit), ground (arith, hit), select_first-Mem _ _ u found)

  module _ (users : List User) where
    admit-Returns :
        (row : AuthorizationCode) (user : User) (svc : Service) (o : Option String)
        → check_policy user svc ≡ o
        → resolve env srv.cache "" row.service_id "" ≡ some svc
        → row.user_id ≡ some user.id
        → is_active user ≡ true
        → Mem user users
        → Returns
            (λ r. is_granted r ≡ true → Admitted env srv row users)
            (admit env srv req row user svc o)
    unfolding admit
    admit-Returns row user svc none p known owner active stored = record {
      value = λ w r e granted. record {
        svc = svc;
        known = known;
        user = user;
        owner = owner;
        active = active;
        stored = stored;
        policy = p;
      };
    }
    admit-Returns row user svc (some x) p known owner active stored =
        Returns-bind _ _ (λ _. Returns-pure _ (λ clash. cc))

    user-Returns :
        (row : AuthorizationCode) (svc : Service) (r : Result User)
        → resolve env srv.cache "" row.service_id "" ≡ some svc
        → ((u : User) → r ≡ ok u → (row.user_id ≡ some u.id) × (is_active u ≡ true) × Mem u users)
        → Returns
            (λ r. is_granted r ≡ true → Admitted env srv row users)
            (exchange_user env srv req row svc r)
    unfolding exchange_user
    user-Returns row svc (err no_rows) known h = Returns-pure _ (λ clash. cc)
    user-Returns row svc (err e) known h = Returns-pure _ (λ clash. cc)
    user-Returns row svc (ok user) known h =
        admit-Returns row user svc _ refl known (h user refl).0 (h user refl).1 (h user refl).2

  service-Admits :
      (row : AuthorizationCode) (o : Option Service) (v : World) (a : Response)
      → resolve env srv.cache "" row.service_id "" ≡ o
      → (exchange_service env srv req row o v).0 ≡ ok a
      → is_granted a ≡ true
      → Admitted env srv row v.db.users
  unfolding exchange_service pure attempt ◌>>=◌
  service-Admits row none v a known e g = cc
  service-Admits row (some svc) v a known e g =
      let found = active_session_user env row.user_id v in
      (user-Returns v.db.users row svc found.0 known (λ u. owner_found row.user_id v u)).value
        found.1 a e g

  unless-Admits :
      (row : AuthorizationCode) (b : Bool) (v : World) (a : Response)
      → (unless_rejected env srv req b
          (exchange_service env srv req row (resolve env srv.cache "" row.service_id ""))
          v).0
        ≡ ok a
      → is_granted a ≡ true
      → (b ≡ false) × Admitted env srv row v.db.users
  unfolding unless_rejected pure
  unless-Admits row true v a e g = cc
  unless-Admits row false v a e g =
      (refl, service-Admits row (resolve env srv.cache "" row.service_id "") v a refl e g)

  log_invalid-Returns :
      (id : String) (P : Type 0) → Returns (λ r. is_granted r ≡ true → P) (log_invalid id)
  unfolding log_invalid
  log_invalid-Returns id P = Returns-bind _ _ (λ _. Returns-pure _ (λ clash. cc))

  -- A row for which tokens are given is the caller's, and its user one that the table has now.
  row-Entitles :
      (row : AuthorizationCode) (v : World) (a : Response)
      → (exchange_found env srv req (ok row) v).0 ≡ ok a
      → is_granted a ≡ true
      → Accepted env req row (env.time v.step) × Admitted env srv row v.db.users
  unfolding exchange_found ◌>>=◌
  row-Entitles row v a = go (reject_code env req row v).0 refl
    where
      go :
          (r : Result Bool)
          → (reject_code env req row v).0 ≡ r
          → (continue r
              (λ b.
                unless_rejected env srv req b
                  (exchange_service env srv req row (resolve env srv.cache "" row.service_id "")))
              (reject_code env req row v).1).0
            ≡ ok a
          → is_granted a ≡ true
          → Accepted env req row (env.time v.step) × Admitted env srv row v.db.users
      go (err x) f e g = cc
      go (ok b) f e g =
          let w = (reject_code env req row v).1 in
          let (passed, admitted) = unless-Admits row b w a e g in
          let passes = reject_code-Passes env req row v (f ∙ ap ok passed) in
          (passes.0, subst (λ (db : Db). Admitted env srv row db.users) passes.1 admitted)

-- What stands behind tokens that were given for a code.
pub record Entitled (env : Env) (srv : Server) (req : TokenRequest) (w : World) : Type 0 where
  pub at_least : 43 ≤ byte_length req.code_verifier
  pub at_most : byte_length req.code_verifier ≤ 128
  pub row : AuthorizationCode
  pub found :
      get_authorization_code_by_hash (env.sha256_hex req.code) w.db.authorization_codes ≡ some row
  pub accepted : Accepted env req row (env.time (suc w.step))
  pub admitted : Admitted env srv row w.db.users

module _ (env : Env) (srv : Server) (req : TokenRequest) (w : World) where
  -- The lookup of the code is one interaction, and leaves the database.
  find_code-kept :
      (hash : String)
      → ((find_code env hash w).1.step ≡ suc w.step) × ((find_code env hash w).1.db ≡ w.db)
  unfolding find_code query call
  find_code-kept hash = (ground arith, ground arith)

  found-Entitled :
      (r : Result AuthorizationCode) (v : World) (a : Response)
      → 43 ≤ byte_length req.code_verifier
      → byte_length req.code_verifier ≤ 128
      → (find_code env (env.sha256_hex req.code) w).0 ≡ r
      → (v.step ≡ suc w.step) × (v.db ≡ w.db)
      → (exchange_found env srv req r v).0 ≡ ok a
      → is_granted a ≡ true
      → Entitled env srv req w
  unfolding find_code query call exchange_found
  found-Entitled (err no_rows) v a s l f kept e g =
      absurd ((log_invalid-Returns env srv req _ ⊥).value v a e g)
  found-Entitled (err x) v a s l f kept e g =
      absurd
        ((Returns-pure {Q = λ r. is_granted r ≡ true → ⊥} server_error (λ clash. cc)).value v a e g)
  found-Entitled (ok row) v a s l f kept e g =
      let both = row-Entitles env srv req row v a e g in
      record {
        at_least = s;
        at_most = l;
        row = row;
        found = ground arith;
        accepted = subst (λ n. Accepted env req row (env.time n)) kept.0 both.0;
        admitted = subst (λ (db : Db). Admitted env srv row db.users) kept.1 both.1;
      }

  -- Its result is an answer with tokens.
  granted-Entitled :
      (r : Result Response)
      → (authorization_code_grant env srv req w).0 ≡ r
      → succeeded is_granted r ≡ true
      → Entitled env srv req w
  unfolding authorization_code_grant pure attempt ◌>>=◌
  granted-Entitled (err x) e g = cc
  granted-Entitled (ok a) e g =
      found-Entitled (find_code env (env.sha256_hex req.code) w).0
        (find_code env (env.sha256_hex req.code) w).1 a (ground arith) (ground arith) refl
        (find_code-kept (env.sha256_hex req.code)) (ground arith) g

-- If the exchange of an authorization code is answered with tokens, the verifier has from 43 to
-- 128 bytes, and the code's row was unused, and unexpired when the clock was read after the lookup;
-- it belongs to the client, the redirect URI and the PKCE verifier of the request, and names a known
-- service and an active user of the table, whom that service's policy admits.
pub granted_exchange_checked :
    (env : Env) (srv : Server) (req : TokenRequest) (w : World)
    → succeeded is_granted (authorization_code_grant env srv req w).0 ≡ true
    → Entitled env srv req w
granted_exchange_checked env srv req w granted = granted-Entitled env srv req w _ refl granted
