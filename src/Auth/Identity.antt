-- ===== src/Auth/Identity.antt =====
-- The user behind a login at a provider (internal/auth/identity.go): by the identity, by a confirmed
-- e-mail address, or by a registration.
pub mod Keeping
pub mod Owner
pub mod Admitted
pub mod Untrusted
pub mod FirstLink
use Prim.Native.String.{◌++◌}
use kauth_go.Prelude.{
  ℕ, String, Bool, true, false, not, ◌&&◌, ◌||◌, Option, none, some, ◌==◌, eqb, is_some, text_is,
  text_or_empty, if◌then◌else◌,
}
use kauth_go.Env.{Env}
use kauth_go.Db.{Db, User, UserIdentity, Service}
use kauth_go.Db.Identities.{
  InsertIdentityParams, get_identity, has_identity, insert_identity, link_identity_if_first,
  update_identity_seen,
}
use kauth_go.Db.Users.{get_active_user_by_email, get_user_by_id, CreateUserParams}
use kauth_go.Exec.{
  Error, Result, ok, err, no_rows, unique_violation, retry_resolve, user_conflict, user_inactive,
  link_denied, no_account, Event, Exec, pure, raise, lift, attempt, call, query, execute, in_tx,
  log, clock, random, ◌>>=◌, ◌>>◌,
}
use kauth_go.Token.Refresh.{event}
use kauth_go.Auth.Magic.{normalize_email}
use kauth_go.Auth.Magic.Redeem.{create}

pub record ExternalIdentity : Type 0 where
  pub provider : String
  pub issuer : String
  pub subject : String
  pub email : String
  pub name : String

pub record LinkPolicy : Type 0 where
  pub auto_link : Bool
  pub auto_register : Bool
  pub email_untrusted : Bool
  pub default_role : String
  pub default_org : String

pub data ResolveOutcome : Type 0 where
  outcome_matched outcome_linked outcome_registered : ResolveOutcome

-- The row is that of the identity; a registration gives none.
pub record Resolved : Type 0 where
  pub user : User
  pub identity : Option UserIdentity
  pub outcome : ResolveOutcome

abbrev pub policy_for : Service → LinkPolicy
policy_for svc = record {
  auto_link = eqb svc.auto_link 1;
  auto_register = eqb svc.auto_register 1;
  email_untrusted = false;
  default_role = text_or_empty svc.default_role;
  default_org = text_or_empty svc.default_org;
}

unfoldable pub find_identity : Env → String → String → Exec UserIdentity
find_identity env issuer subject = query env (λ db. get_identity issuer subject db.user_identities)

abbrev pub insert_identity_in : InsertIdentityParams → Db → Result ℕ × Db
insert_identity_in p db =
    let (n, rows) = insert_identity p db.user_identities in
    (ok n, record db { user_identities = rows })

unfoldable pub insert : Env → InsertIdentityParams → Exec ℕ
insert env p = call env (insert_identity_in p)

abbrev pub link_first_in : InsertIdentityParams → Db → Result ℕ × Db
link_first_in p db =
    let (n, rows) = link_identity_if_first p db.user_identities in
    (ok n, record db { user_identities = rows })

unfoldable pub link_first : Env → InsertIdentityParams → Exec ℕ
link_first env p = call env (link_first_in p)

abbrev pub seen_in : Option String → Option String → ℕ → Db → Db
seen_in email time id db = record db {
  user_identities = update_identity_seen email time id db.user_identities;
}

module _ (env : Env) (service_id : String) (ext : ExternalIdentity) where
  -- Informs only: an error is passed over.
  unfoldable pub touch : ℕ → Exec (Unit {0})
  touch id = do
    now ← clock env
    done ← attempt (execute env (seen_in (some ext.email) (some (env.format_time now)) id))
    pure tt

  -- The provider's address is not the user's, and was another when last seen.
  unfoldable pub is_mismatch : User → UserIdentity → Bool
  is_mismatch user identity =
      not (ext.email == "")
      && not (ext.email == user.email)
      && not (text_is identity.email ext.email)

  unfoldable pub note_mismatch : User → UserIdentity → Exec (Unit {0})
  unfolding is_mismatch
  note_mismatch user identity =
      if is_mismatch user identity
      then log (
          event "identity_email_mismatch" user.email service_id true
            ("provider=" ++ ext.provider ++ " reason=provider_email_differs_from_user"))
      else pure tt

  unfoldable pub matched_user : UserIdentity → User → Exec Resolved
  unfolding note_mismatch touch
  matched_user identity user = if is_some user.deactivated_at then raise user_inactive else (do
    note_mismatch user identity
    touch identity.id
    pure (record { user = user; identity = some identity; outcome = outcome_matched }))

  unfoldable pub matched : UserIdentity → Exec Resolved
  unfolding matched_user
  matched identity = do
    user ← query env (λ db. get_user_by_id identity.user_id db.users)
    matched_user identity user

  unfoldable pub refuse_link : User → Exec Resolved
  refuse_link user = do
    log (event "identity_link_denied" user.email service_id false ("provider=" ++ ext.provider))
    raise link_denied

  unfoldable pub denied : User → Result UserIdentity → Exec Resolved
  unfolding matched refuse_link
  denied user (err e) = refuse_link user
  denied user (ok identity) =
      if eqb identity.user_id user.id then matched identity else refuse_link user

  unfoldable pub deny_link : User → Exec Resolved
  unfolding denied
  deny_link user = do found ← attempt (find_identity env ext.issuer ext.subject); denied user found

  abbrev pub identity_params : ℕ → String → InsertIdentityParams
  identity_params user_id now = record {
    user_id = user_id;
    provider = ext.provider;
    issuer = ext.issuer;
    subject = ext.subject;
    email = some ext.email;
    created_at = now;
    last_used_at = some now;
  }

  -- No row was inserted: the user has an identity already, or another login was first.
  unfoldable pub not_inserted : LinkPolicy → User → Result UserIdentity → Exec Resolved
  unfolding deny_link matched
  not_inserted pol user (err no_rows) = if pol.auto_link then raise no_rows else deny_link user
  not_inserted pol user (err e) = raise e
  not_inserted pol user (ok identity) =
      if not pol.auto_link && not (eqb identity.user_id user.id)
      then deny_link user
      else matched identity

  unfoldable pub after_insert : LinkPolicy → User → String → ℕ → Exec Resolved
  unfolding not_inserted
  after_insert pol user transition n =
      if eqb n 0
      then (do
        found ← attempt (find_identity env ext.issuer ext.subject)
        not_inserted pol user found)
      else (do
        identity ← find_identity env ext.issuer ext.subject
        log (
            event "identity_linked" user.email service_id true (
              "provider=" ++ ext.provider ++ " issuer=" ++ ext.issuer ++ " transition="
              ++ transition))
        pure (record { user = user; identity = some identity; outcome = outcome_linked }))

  abbrev pub transition_of : Bool → String
  transition_of has = if has then "0" else "1"

  unfoldable pub link : LinkPolicy → User → Exec Resolved
  unfolding after_insert
  link pol user = do
    now ← clock env
    if pol.auto_link
        then (do
          has ← query env (λ db. some (has_identity user.id db.user_identities))
          n ← insert env (identity_params user.id (env.format_time now))
          after_insert pol user (transition_of has) n)
        else (do
          n ← link_first env (identity_params user.id (env.format_time now))
          after_insert pol user "1" n)

  abbrev pub new_user : LinkPolicy → String → String → CreateUserParams
  new_user pol public_id now = record {
    public_id = public_id;
    email = ext.email;
    password_hash = none;
    name = some ext.name;
    roles = if pol.default_role == "" then "user" else pol.default_role;
    orgs = pol.default_org;
    created_at = now;
  }

  unfoldable pub user_created : String → Result User → Exec User
  user_created now (err unique_violation) = raise retry_resolve
  user_created now (err e) = raise e
  user_created now (ok user) = do
    n ← insert env (identity_params user.id now)
    if eqb n 0 then raise retry_resolve else pure user

  -- The user and the identity, or neither.
  unfoldable pub register_body : LinkPolicy → String → Exec User
  unfolding user_created
  register_body pol public_id = do
    now ← clock env
    created ← attempt (create env (new_user pol public_id (env.format_time now)))
    user_created (env.format_time now) created

  unfoldable pub register : LinkPolicy → Exec Resolved
  unfolding register_body
  register pol = do
    public_id ← random env
    user ← in_tx env (register_body pol public_id)
    pure (record { user = user; identity = none; outcome = outcome_registered })

  unfoldable pub with_account : LinkPolicy → Result User → Exec Resolved
  unfolding link register
  with_account pol (ok user) = link pol user
  with_account pol (err no_rows) = if pol.auto_register then register pol else raise no_account
  with_account pol (err e) = raise e

  unfoldable pub with_identity : LinkPolicy → Result UserIdentity → Exec Resolved
  unfolding matched with_account
  with_identity pol (ok identity) = matched identity
  with_identity pol (err no_rows) = if pol.email_untrusted then raise no_account else (do
    user ← attempt (query env (λ db. get_active_user_by_email ext.email db.users))
    with_account pol user)
  with_identity pol (err e) = raise e

  unfoldable pub resolve_once : LinkPolicy → Exec Resolved
  unfolding with_identity
  resolve_once pol = do
    found ← attempt (find_identity env ext.issuer ext.subject)
    with_identity pol found

  -- The loop runs at most twice.
  unfoldable pub second_try : Result Resolved → Exec Resolved
  second_try (err retry_resolve) = raise user_conflict
  second_try r = lift r

  unfoldable pub first_try : LinkPolicy → Result Resolved → Exec Resolved
  unfolding resolve_once second_try
  first_try pol (err retry_resolve) = do r ← attempt (resolve_once pol); second_try r
  first_try pol r = lift r

abbrev pub normalized : Env → ExternalIdentity → ExternalIdentity
normalized env ext = record ext { email = normalize_email env ext.email }

unfoldable pub resolve_identity : Env → String → ExternalIdentity → LinkPolicy → Exec Resolved
unfolding resolve_once first_try
resolve_identity env service_id ext pol = do
  r ← attempt (resolve_once env service_id (normalized env ext) pol)
  first_try env service_id (normalized env ext) pol r
