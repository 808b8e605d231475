-- ===== src/Auth/Identity/Keeping.antt =====
-- What a resolution leaves true of the database, given that its statements do.
use kauth_go.Prelude.{ℕ, ◌≡◌, refl, String, true, false, Option, arith, ◌∙◌}
use kauth_go.Env.{Env}
use kauth_go.Db.{Db, User, UserIdentity}
use kauth_go.Db.Identities.{InsertIdentityParams}
use kauth_go.Db.Users.{CreateUserParams}
use kauth_go.Exec.{
  Result, ok, err, no_rows, unique_violation, retry_resolve, attempt, call, execute, World,
}
use kauth_go.Exec.Keeps.{
  keeps_rules, Keeps, Keeps-bind, Keeps-if, Keeps-clock, Keeps-query, Keeps-call, Keeps-attempt,
  Keeps-raise, Keeps-execute, Keeps-bind_with, From,
}
use kauth_go.Auth.Magic.Redeem.{create, create_in}
use kauth_go.Auth.Identity.{
  ExternalIdentity, LinkPolicy, Resolved, find_identity, insert_identity_in, insert, link_first_in,
  link_first, seen_in, touch, note_mismatch, matched_user, matched, refuse_link, denied, deny_link,
  not_inserted, after_insert, link, user_created, register_body, register, with_account,
  with_identity, resolve_once, second_try, first_try, normalized, resolve_identity,
}

-- Each statement that a resolution under `pol` may run keeps `P`. What a registered user's id meets
-- is `N`.
pub record Safe (env : Env) (pol : LinkPolicy) (P : Db → Type 0) (N : ℕ → Type 0) : Type 0 where
  pub seen : (email time : Option String) (id : ℕ) (db : Db) → P db → P (seen_in email time id db)
  pub linked :
      pol.email_untrusted ≡ false
      → pol.auto_link ≡ true
      → (p : InsertIdentityParams) (db : Db) → P db
      → P (insert_identity_in p db).1
  pub first :
      pol.email_untrusted ≡ false
      → pol.auto_link ≡ false
      → (p : InsertIdentityParams) (db : Db) → P db
      → P (link_first_in p db).1
  pub created :
      pol.email_untrusted ≡ false
      → (p : CreateUserParams) (db : Db) → P db
      → P (create_in env p db).1
  pub fresh :
      (p : CreateUserParams) (db : Db) (user : User)
      → P db
      → (create_in env p db).0 ≡ ok user
      → N user.id
  pub registered :
      pol.email_untrusted ≡ false
      → (p : InsertIdentityParams) (db : Db) → N p.user_id
      → P db
      → P (insert_identity_in p db).1

module _ (env : Env) (pol : LinkPolicy) (P : Db → Type 0) (N : ℕ → Type 0)
    (safe : Safe env pol P N) where
  module _ (sid : String) (ext : ExternalIdentity) where
    seen-Keeps : (e t : Option String) (id : ℕ) → Keeps 0 P (execute env (seen_in e t id))
    seen-Keeps e t id = Keeps-execute env (seen_in e t id) (safe.seen e t id)

    touch-Keeps : (id : ℕ) → Keeps 0 P (touch env sid ext id)
    unfolding touch
    touch-Keeps id = search (keeps_rules, seen-Keeps) depth 8

    note-Keeps : (user : User) (row : UserIdentity) → Keeps 0 P (note_mismatch env sid ext user row)
    unfolding note_mismatch
    note-Keeps user row = search keeps_rules

    matched_user-Keeps :
        (row : UserIdentity) (user : User) → Keeps 0 P (matched_user env sid ext row user)
    unfolding matched_user
    matched_user-Keeps row user = search (keeps_rules, touch-Keeps, note-Keeps) depth 8

    matched-Keeps : (row : UserIdentity) → Keeps 0 P (matched env sid ext row)
    unfolding matched
    matched-Keeps row = search (keeps_rules, matched_user-Keeps) depth 8

    find-Keeps : Keeps 0 P (find_identity env ext.issuer ext.subject)
    unfolding find_identity
    find-Keeps = search keeps_rules

    refuse-Keeps : (user : User) → Keeps 0 P (refuse_link env sid ext user)
    unfolding refuse_link
    refuse-Keeps user = search keeps_rules

    denied-Keeps : (user : User) (r : Result UserIdentity) → Keeps 0 P (denied env sid ext user r)
    unfolding denied
    denied-Keeps user (err e) = refuse-Keeps user
    denied-Keeps user (ok row) = search (keeps_rules, matched-Keeps, refuse-Keeps)

    deny-Keeps : (user : User) → Keeps 0 P (deny_link env sid ext user)
    unfolding deny_link
    deny-Keeps user = search (keeps_rules, find-Keeps, denied-Keeps) depth 8

    not_inserted-Keeps :
        (user : User) (r : Result UserIdentity) → Keeps 0 P (not_inserted env sid ext pol user r)
    unfolding not_inserted
    not_inserted-Keeps user (err no_rows) = search (keeps_rules, deny-Keeps)
    not_inserted-Keeps user (err e) = search keeps_rules
    not_inserted-Keeps user (ok row) = search (keeps_rules, deny-Keeps, matched-Keeps)

    after-Keeps :
        (user : User) (t : String) (n : ℕ) → Keeps 0 P (after_insert env sid ext pol user t n)
    unfolding after_insert
    after-Keeps user t n = search (keeps_rules, find-Keeps, not_inserted-Keeps) depth 8

    insert-Keeps :
        pol.email_untrusted ≡ false
        → pol.auto_link ≡ true
        → (p : InsertIdentityParams) → Keeps 0 P (insert env p)
    unfolding insert
    insert-Keeps trusted on p = Keeps-call env _ (safe.linked trusted on p)

    first-Keeps :
        pol.email_untrusted ≡ false
        → pol.auto_link ≡ false
        → (p : InsertIdentityParams) → Keeps 0 P (link_first env p)
    unfolding link_first
    first-Keeps trusted off p = Keeps-call env _ (safe.first trusted off p)

    link-Keeps : pol.email_untrusted ≡ false → (user : User) → Keeps 0 P (link env sid ext pol user)
    unfolding link
    link-Keeps trusted user =
        search (keeps_rules, insert-Keeps trusted, first-Keeps trusted, after-Keeps) depth 9

    registered-Keeps :
        pol.email_untrusted ≡ false
        → (p : InsertIdentityParams) → N p.user_id
        → Keeps 0 P (insert env p)
    unfolding insert
    registered-Keeps trusted p n = Keeps-call env _ (λ db. safe.registered trusted p db n)

    created-Keeps : pol.email_untrusted ≡ false → (p : CreateUserParams) → Keeps 0 P (create env p)
    unfolding create
    created-Keeps trusted p = Keeps-call env _ (safe.created trusted p)

    user_created-Keeps :
        pol.email_untrusted ≡ false
        → (now : String) (r : Result User) → ((user : User) → r ≡ ok user → N user.id)
        → Keeps 0 P (user_created env sid ext now r)
    unfolding user_created
    user_created-Keeps trusted now (err unique_violation) n = search keeps_rules
    user_created-Keeps trusted now (err e) n = search keeps_rules
    user_created-Keeps trusted now (ok user) n =
        Keeps-bind _ _ (registered-Keeps trusted _ (n user refl)) (λ k. search keeps_rules)

    fresh-value :
        (p : CreateUserParams) (w : World) (user : User)
        → From 0 P w
        → (create env p w).0 ≡ ok user
        → N user.id
    unfolding create call
    fresh-value p w user f e = let made = safe.fresh p w.db user f.holds in ground (arith, made)

    attempted-value :
        (p : CreateUserParams) (w : World) (r : Result User)
        → From 0 P w
        → (attempt (create env p) w).0 ≡ ok r
        → (user : User) → r ≡ ok user
        → N user.id
    unfolding attempt
    attempted-value p w r f e user is =
        let same : (create env p w).0 ≡ r = cc in fresh-value p w user f (same ∙ is)

    body-Keeps :
        pol.email_untrusted ≡ false
        → (public_id : String) → Keeps 0 P (register_body env sid ext pol public_id)
    unfolding register_body
    body-Keeps trusted public_id = Keeps-bind _ _ (Keeps-clock env) (λ now.
        Keeps-bind_with (λ r. (user : User) → r ≡ ok user → N user.id) _ _
          (Keeps-attempt _ (created-Keeps trusted _)) (attempted-value _)
          (user_created-Keeps trusted _))

    register-Keeps : pol.email_untrusted ≡ false → Keeps 0 P (register env sid ext pol)
    unfolding register
    register-Keeps trusted = search (keeps_rules, body-Keeps trusted) depth 8

    account-Keeps :
        pol.email_untrusted ≡ false → (r : Result User) → Keeps 0 P (with_account env sid ext pol r)
    unfolding with_account
    account-Keeps trusted (ok user) = link-Keeps trusted user
    account-Keeps trusted (err no_rows) = search (keeps_rules, register-Keeps trusted)
    account-Keeps trusted (err e) = search keeps_rules

    identity-Keeps : (r : Result UserIdentity) → Keeps 0 P (with_identity env sid ext pol r)
    unfolding with_identity
    identity-Keeps (ok row) = matched-Keeps row
    identity-Keeps (err no_rows) =
        Keeps-if _ _ _ (λ _. Keeps-raise _)
          (λ trusted. Keeps-bind _ _ (Keeps-attempt _ (Keeps-query env _)) (account-Keeps trusted))
    identity-Keeps (err e) = search keeps_rules

    once-Keeps : Keeps 0 P (resolve_once env sid ext pol)
    unfolding resolve_once
    once-Keeps = search (keeps_rules, find-Keeps, identity-Keeps) depth 8

    second-Keeps : (r : Result Resolved) → Keeps 0 P (second_try env sid ext r)
    unfolding second_try
    second-Keeps (err retry_resolve) = search keeps_rules
    second-Keeps (err e) = search keeps_rules
    second-Keeps (ok a) = search keeps_rules

    first_try-Keeps : (r : Result Resolved) → Keeps 0 P (first_try env sid ext pol r)
    unfolding first_try
    first_try-Keeps (err retry_resolve) = search (keeps_rules, once-Keeps, second-Keeps) depth 8
    first_try-Keeps (err e) = search keeps_rules
    first_try-Keeps (ok a) = search keeps_rules

  pub resolve-Keeps :
      (sid : String) (ext : ExternalIdentity) → Keeps 0 P (resolve_identity env sid ext pol)
  unfolding resolve_identity
  resolve-Keeps sid ext =
      Keeps-bind _ _ (Keeps-attempt _ (once-Keeps sid (normalized env ext)))
        (first_try-Keeps sid (normalized env ext))
