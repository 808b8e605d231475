-- ===== src/Auth/Identity/Admitted.antt =====
-- Who a resolution gives.
use kauth_go.Prelude.{
  ℕ, ◌≡◌, ◌≢◌, ◌==◌, refl, ap, eq_iff, String, Bool, true, false, ◌&&◌, none, some, eqb, is_some,
  arith, if◌then◌else◌,
}
use kauth_go.Env.{Env}
use kauth_go.Db.{User, UserIdentity}
use kauth_go.Db.Table.{select_first-true}
use kauth_go.Db.Identities.{has_key, get_identity}
use kauth_go.Db.Users.{get_active_user_by_email, get_user_by_id, create_user, is_active}
use kauth_go.Exec.{
  Result, ok, err, no_rows, unique_violation, retry_resolve, raise, attempt, query, pure,
  user_inactive, no_account, ◌>>=◌, ◌>>◌, World,
}
use kauth_go.Exec.Outcome.{
  Returns, Returns-pure, Returns-raise, Returns-if, Returns-bind, Returns-bind_with,
  Returns-bind_attempt, Returns-call, Returns-query, Returns-in_tx, Returns-lift, fails_rules,
}
use kauth_go.Auth.Magic.Redeem.{create}
use kauth_go.Auth.Identity.{
  ExternalIdentity, LinkPolicy, Resolved, ResolveOutcome, outcome_matched, outcome_linked,
  outcome_registered, find_identity, matched_user, matched, refuse_link, denied, deny_link,
  not_inserted, after_insert, link, user_created, register_body, register, with_account, new_user,
  touch, note_mismatch, with_identity, resolve_once, second_try, first_try, normalized,
  resolve_identity,
}

-- The user is active. One who is matched owns the account that logs in. A link or a registration
-- wants a trusted address, which is the user's, and a registration a service that registers.
pub record IsAllowed (pol : LinkPolicy) (ext : ExternalIdentity) (r : Resolved) : Type 0 where
  pub active : is_active r.user ≡ true
  pub owns :
      r.outcome ≡ outcome_matched
      → (row : UserIdentity) × (r.identity ≡ some row)
        × (row.user_id ≡ r.user.id)
        × (has_key ext.issuer ext.subject row ≡ true)
  pub trusted :
      r.outcome ≢ outcome_matched → (pol.email_untrusted ≡ false) × (r.user.email ≡ ext.email)
  pub registers : r.outcome ≡ outcome_registered → pol.auto_register ≡ true

is_matched : ResolveOutcome → Bool
is_matched outcome_matched = true
is_matched _ = false

is_registered : ResolveOutcome → Bool
is_registered outcome_registered = true
is_registered _ = false

module _ (env : Env) (sid : String) (ext : ExternalIdentity) (pol : LinkPolicy) where
  IsKnown : UserIdentity → Type 0
  IsKnown row = has_key ext.issuer ext.subject row ≡ true

  matched_user-Returns :
      (row : UserIdentity) (user : User)
      → has_key ext.issuer ext.subject row ≡ true
      → row.user_id ≡ user.id
      → Returns (IsAllowed pol ext) (matched_user env sid ext row user)
  unfolding matched_user is_registered
  matched_user-Returns row user known owns = go (is_some user.deactivated_at) refl
    where
      allowed :
          is_some user.deactivated_at ≡ false
          → IsAllowed pol ext
              (record { user = user; identity = some row; outcome = outcome_matched })
      allowed e = record {
        active = ground arith;
        owns = λ _. (row, refl, owns, known);
        trusted = λ other. absurd (other refl);
        registers = λ clash. let no_way = ap is_registered clash in cc;
      }

      go :
          (b : Bool)
          → is_some user.deactivated_at ≡ b
          → Returns (IsAllowed pol ext) (
              if b then raise user_inactive else (do
                note_mismatch env sid ext user row
                touch env sid ext row.id
                pure (record { user = user; identity = some row; outcome = outcome_matched })))
      go true e = Returns-raise _
      go false e = Returns-bind _ _ (λ _. Returns-bind _ _ (λ _. Returns-pure _ (allowed e)))

  matched-Returns :
      (row : UserIdentity)
      → has_key ext.issuer ext.subject row ≡ true
      → Returns (IsAllowed pol ext) (matched env sid ext row)
  unfolding matched get_user_by_id
  matched-Returns row known =
      Returns-bind_with (λ user. row.user_id ≡ user.id) _ _
        (Returns-query env _ (λ db user e.
          let hit = select_first-true (λ u. eqb u.id row.user_id) db.users user e in ground arith))
        (λ user owns. matched_user-Returns row user known owns)

  find-Returns :
      Returns
        (λ row. has_key ext.issuer ext.subject row ≡ true)
        (find_identity env ext.issuer ext.subject)
  unfolding find_identity get_identity
  find-Returns =
      Returns-query env _
        (λ db row e. select_first-true (has_key ext.issuer ext.subject) db.user_identities row e)

  refuse-Returns : (user : User) → Returns (IsAllowed pol ext) (refuse_link env sid ext user)
  unfolding refuse_link
  refuse-Returns user = search fails_rules

  denied-Returns :
      (user : User) (r : Result UserIdentity)
      → ((row : UserIdentity) → r ≡ ok row → has_key ext.issuer ext.subject row ≡ true)
      → Returns (IsAllowed pol ext) (denied env sid ext user r)
  unfolding denied
  denied-Returns user (err e) h = refuse-Returns user
  denied-Returns user (ok row) h =
      Returns-if _ _ _ (matched-Returns row (h row refl)) (refuse-Returns user)

  deny-Returns : (user : User) → Returns (IsAllowed pol ext) (deny_link env sid ext user)
  unfolding deny_link
  deny-Returns user = Returns-bind_attempt _ _ find-Returns (denied-Returns user)

  not_inserted-Returns :
      (user : User) (r : Result UserIdentity)
      → ((row : UserIdentity) → r ≡ ok row → has_key ext.issuer ext.subject row ≡ true)
      → Returns (IsAllowed pol ext) (not_inserted env sid ext pol user r)
  unfolding not_inserted
  not_inserted-Returns user (err no_rows) h = Returns-if _ _ _ (Returns-raise _) (deny-Returns user)
  not_inserted-Returns user (err e) h = Returns-raise _
  not_inserted-Returns user (ok row) h =
      Returns-if _ _ _ (deny-Returns user) (matched-Returns row (h row refl))

  -- A user who is found or made by the address of the login.
  record IsMine (user : User) : Type 0 where
    active : is_active user ≡ true
    same_email : user.email ≡ ext.email

  module _ (trusted : pol.email_untrusted ≡ false) where
    linked-IsAllowed :
        (user : User) (row : UserIdentity)
        → IsMine user
        → IsAllowed pol ext (record { user = user; identity = some row; outcome = outcome_linked })
    unfolding is_matched is_registered
    linked-IsAllowed user row mine = record {
      active = mine.active;
      owns = λ clash. let no_way : false ≡ true = ap is_matched clash in cc;
      trusted = λ _. (trusted, mine.same_email);
      registers = λ clash. let no_way : false ≡ true = ap is_registered clash in cc;
    }

    after-Returns :
        (user : User) (t : String) (n : ℕ)
        → IsMine user
        → Returns (IsAllowed pol ext) (after_insert env sid ext pol user t n)
    unfolding after_insert
    after-Returns user t n mine =
        Returns-if _ _ _ (Returns-bind_attempt _ _ find-Returns (not_inserted-Returns user)) (
          Returns-bind _ _
            (λ row. Returns-bind _ _ (λ _. Returns-pure _ (linked-IsAllowed user row mine))))

    link-Returns :
        (user : User) → IsMine user → Returns (IsAllowed pol ext) (link env sid ext pol user)
    unfolding link
    link-Returns user mine = Returns-bind _ _ (λ now.
        Returns-if _ _ _
          (Returns-bind _ _ (λ has. Returns-bind _ _ (λ n. after-Returns user _ n mine)))
          (Returns-bind _ _ (λ n. after-Returns user "1" n mine)))

    create-Returns :
        (public_id now : String)
        → Returns IsMine (create env (new_user env sid ext pol public_id now))
    unfolding create create_user
    create-Returns public_id now =
        Returns-call env _
          (λ db user e. record { active = ground arith; same_email = ground arith })

    user_created-Returns :
        (now : String) (r : Result User)
        → ((user : User) → r ≡ ok user → IsMine user)
        → Returns IsMine (user_created env sid ext now r)
    unfolding user_created
    user_created-Returns now (err unique_violation) h = Returns-raise _
    user_created-Returns now (err e) h = Returns-raise _
    user_created-Returns now (ok user) h =
        Returns-bind _ _ (λ n. Returns-if _ _ _ (Returns-raise _) (Returns-pure _ (h user refl)))

    body-Returns : (public_id : String) → Returns IsMine (register_body env sid ext pol public_id)
    unfolding register_body
    body-Returns public_id =
        Returns-bind _ _
          (λ now. Returns-bind_attempt _ _ (create-Returns public_id _) (user_created-Returns _))

    registered-IsAllowed :
        (user : User)
        → pol.auto_register ≡ true
        → IsMine user
        → IsAllowed pol ext (record { user = user; identity = none; outcome = outcome_registered })
    unfolding is_matched
    registered-IsAllowed user on mine = record {
      active = mine.active;
      owns = λ clash. let no_way : false ≡ true = ap is_matched clash in cc;
      trusted = λ _. (trusted, mine.same_email);
      registers = λ _. on;
    }

    register-Returns :
        pol.auto_register ≡ true → Returns (IsAllowed pol ext) (register env sid ext pol)
    unfolding register
    register-Returns on = Returns-bind _ _ (λ public_id.
        Returns-bind_with IsMine _ _ (Returns-in_tx env _ (body-Returns public_id))
          (λ user mine. Returns-pure _ (registered-IsAllowed user on mine)))

    account-Returns :
        (r : Result User)
        → ((user : User) → r ≡ ok user → IsMine user)
        → Returns (IsAllowed pol ext) (with_account env sid ext pol r)
    unfolding with_account
    account-Returns (ok user) h = link-Returns user (h user refl)
    account-Returns (err no_rows) h = go pol.auto_register refl
      where
        go :
            (b : Bool)
            → pol.auto_register ≡ b
            → Returns (IsAllowed pol ext) (if b then register env sid ext pol else raise no_account)
        go true on = register-Returns on
        go false off = Returns-raise _
    account-Returns (err e) h = Returns-raise _

    by_email-Returns :
        Returns IsMine (query env (λ db. get_active_user_by_email ext.email db.users))
    unfolding get_active_user_by_email
    by_email-Returns = Returns-query env _ (λ db user e.
        let hit = select_first-true (λ u. u.email == ext.email && is_active u) db.users user e in
        record { active = ground arith; same_email = ground (arith, eq_iff user.email ext.email) })

  identity-Returns :
      (r : Result UserIdentity)
      → ((row : UserIdentity) → r ≡ ok row → has_key ext.issuer ext.subject row ≡ true)
      → Returns (IsAllowed pol ext) (with_identity env sid ext pol r)
  unfolding with_identity
  identity-Returns (ok row) h = matched-Returns row (h row refl)
  identity-Returns (err no_rows) h = go pol.email_untrusted refl
    where
      go :
          (b : Bool)
          → pol.email_untrusted ≡ b
          → Returns (IsAllowed pol ext) (
              if b then raise no_account else (do
                user ← attempt (query env (λ db. get_active_user_by_email ext.email db.users))
                with_account env sid ext pol user))
      go true un = Returns-raise _
      go false trusted =
          Returns-bind_attempt _ _ (by_email-Returns trusted) (account-Returns trusted)
  identity-Returns (err e) h = Returns-raise _

  once-Returns : Returns (IsAllowed pol ext) (resolve_once env sid ext pol)
  unfolding resolve_once
  once-Returns = Returns-bind_attempt _ _ find-Returns identity-Returns

  second-Returns :
      (r : Result Resolved)
      → ((a : Resolved) → r ≡ ok a → IsAllowed pol ext a)
      → Returns (IsAllowed pol ext) (second_try env sid ext r)
  unfolding second_try
  second-Returns (err retry_resolve) h = Returns-raise _
  second-Returns (err e) h = Returns-lift _ h
  second-Returns (ok a) h = Returns-lift _ h

  first_try-Returns :
      (r : Result Resolved)
      → ((a : Resolved) → r ≡ ok a → IsAllowed pol ext a)
      → Returns (IsAllowed pol ext) (first_try env sid ext pol r)
  unfolding first_try
  first_try-Returns (err retry_resolve) h = Returns-bind_attempt _ _ once-Returns second-Returns
  first_try-Returns (err e) h = Returns-lift _ h
  first_try-Returns (ok a) h = Returns-lift _ h

-- A login that gives a user gives an active one, as `IsAllowed` says, for the address in lower case
-- and without white space around it.
pub resolve-IsAllowed :
    (env : Env) (service_id : String) (ext : ExternalIdentity) (pol : LinkPolicy) (w : World)
    (r : Resolved)
    → (resolve_identity env service_id ext pol w).0 ≡ ok r
    → IsAllowed pol (normalized env ext) r
unfolding resolve_identity
resolve-IsAllowed env service_id ext pol w r e =
    let at = normalized env ext in
    (Returns-bind_attempt _ _ (once-Returns env service_id at pol)
        (first_try-Returns env service_id at pol)).value
      w r e
