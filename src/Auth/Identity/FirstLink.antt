-- ===== src/Auth/Identity/FirstLink.antt =====
-- Without auto_link, a user with an identity gets no other one by logging in.
use kauth_go.Prelude.{
  ℕ, ◌<◌, ◌≡◌, refl, sym, ◌∙◌, String, Bool, true, false, Option, List, [], ◌∷◌, eqb, arith,
  if◌then◌else◌, Bool-cases, inl, inr,
}
use kauth_go.Env.{Env}
use kauth_go.Db.{Db, User, UserIdentity}
use kauth_go.Db.Identities.{
  InsertIdentityParams, has_identity, identity_row, insert_identity, link_identity_if_first,
  update_identity_seen,
}
use kauth_go.Db.Table.{exists_where, update_where, insert_row, next_id}
use kauth_go.Db.Users.{CreateUserParams, create_user, created_user}
use kauth_go.Exec.{World, ok}
use kauth_go.Auth.Magic.Redeem.{create_in}
use kauth_go.Auth.Identity.{
  ExternalIdentity, LinkPolicy, insert_identity_in, link_first_in, resolve_identity,
}
use kauth_go.Auth.Identity.Keeping.{Safe, resolve-Keeps}

-- The issuers and subjects that log in the user.
unfoldable pub accounts : ℕ → List UserIdentity → List (String × String)
accounts v [] = []
accounts v (r ∷ rows) =
    let rest = accounts v rows in if eqb r.user_id v then (r.issuer, r.subject) ∷ rest else rest

abbrev pub is_user : ℕ → List User → Bool
is_user v = exists_where (λ u. eqb u.id v)

module _ (v : ℕ) where
  accounts-seen :
      (rows : List UserIdentity) (email time : Option String) (id : ℕ)
      → accounts v (update_identity_seen email time id rows) ≡ accounts v rows
  unfolding accounts update_identity_seen update_where
  accounts-seen [] email time id = refl
  accounts-seen (x ∷ rows) email time id = ground (arith, accounts-seen rows email time id)

  has-seen :
      (rows : List UserIdentity) (email time : Option String) (id : ℕ)
      → has_identity v (update_identity_seen email time id rows) ≡ has_identity v rows
  unfolding has_identity exists_where update_identity_seen update_where
  has-seen [] email time id = refl
  has-seen (x ∷ rows) email time id = ground (arith, has-seen rows email time id)

  accounts-insert_row :
      (rows : List UserIdentity) (r : UserIdentity)
      → eqb r.user_id v ≡ false
      → accounts v (insert_row r rows) ≡ accounts v rows
  unfolding accounts
  accounts-insert_row [] r h = ground arith
  accounts-insert_row (x ∷ rows) r h = ground (arith, accounts-insert_row rows r h)

  has-insert_row :
      (rows : List UserIdentity) (r : UserIdentity)
      → has_identity v rows ≡ true
      → has_identity v (insert_row r rows) ≡ true
  unfolding has_identity exists_where
  has-insert_row [] r h = cc
  has-insert_row (x ∷ rows) r h = ground (arith, has-insert_row rows r)

  is_user-insert_row :
      (users : List User) (u : User)
      → is_user v users ≡ true
      → is_user v (insert_row u users) ≡ true
  unfolding exists_where
  is_user-insert_row [] u h = cc
  is_user-insert_row (x ∷ users) u h = ground (arith, is_user-insert_row users u)

  is_user-next_id : (users : List User) → is_user v users ≡ true → v < next_id (λ u. u.id) users
  unfolding exists_where next_id
  is_user-next_id [] h = cc
  is_user-next_id (x ∷ users) h = ground (arith, is_user-next_id users)

  -- `v` is a user with the identities `l`, of which there is one.
  record HasAccounts (l : List (String × String)) (db : Db) : Type 0 where
    same : accounts v db.user_identities ≡ l
    some_identity : has_identity v db.user_identities ≡ true
    known : is_user v db.users ≡ true

  module _ (l : List (String × String)) where
    other_inserted :
        (p : InsertIdentityParams) (db : Db)
        → eqb p.user_id v ≡ false
        → HasAccounts l db
        → HasAccounts l (insert_identity_in p db).1
    unfolding insert_identity
    other_inserted p db other h =
        let rows = db.user_identities in
        let new = identity_row p (next_id (λ r. r.id) rows) in
        record {
          same = ground (arith, h.same, accounts-insert_row rows new other);
          some_identity = ground (arith, h.some_identity, has-insert_row rows new h.some_identity);
          known = h.known;
        }

    first_inserted :
        (p : InsertIdentityParams) (db : Db)
        → HasAccounts l db
        → HasAccounts l (link_first_in p db).1
    unfolding link_identity_if_first
    first_inserted p db h = elim (Bool-cases (eqb p.user_id v)) [
      | inl same_user ↦ let is : p.user_id ≡ v = ground arith in rw (is, h.some_identity) h
      | inr other ↦ elim (Bool-cases (has_identity p.user_id db.user_identities)) [
        | inl has ↦ rw has h
        | inr lacks ↦ rw lacks (other_inserted p db other h)
      ]
    ]

    created_user-HasAccounts :
        (env : Env) (p : CreateUserParams) (db : Db)
        → HasAccounts l db
        → HasAccounts l (create_in env p db).1
    unfolding create_user
    created_user-HasAccounts env p db h =
        let u = created_user p (next_id (λ u. u.id) db.users) in
        record {
          same = ground (arith, h.same);
          some_identity = ground (arith, h.some_identity);
          known = ground (arith, h.known, is_user-insert_row db.users u h.known);
        }

    created-fresh :
        (env : Env) (p : CreateUserParams) (db : Db) (user : User)
        → HasAccounts l db
        → (create_in env p db).0 ≡ ok user
        → eqb user.id v ≡ false
    unfolding create_user
    created-fresh env p db user h e =
        let above = is_user-next_id db.users h.known in
        let is : user.id ≡ next_id (λ u. u.id) db.users = ground arith in rw is (ground arith)

    accounts-Safe :
        (env : Env) (pol : LinkPolicy)
        → pol.auto_link ≡ false
        → Safe env pol (HasAccounts l) (λ id. eqb id v ≡ false)
    accounts-Safe env pol off = record {
      seen = λ email time id db h. record {
        same = accounts-seen db.user_identities email time id ∙ h.same;
        some_identity = has-seen db.user_identities email time id ∙ h.some_identity;
        known = h.known;
      };
      linked = λ _ on. let clash : false ≡ true = sym off ∙ on in cc;
      first = λ _ _. first_inserted;
      created = λ _. created_user-HasAccounts env;
      fresh = created-fresh env;
      registered = λ _ p db other. other_inserted p db other;
    }

-- Where a service has auto_link off, the identities of a user who has one are the same after every
-- login by whatever account, address and outcome.
pub resolve_first_link :
    (env : Env) (service_id : String) (ext : ExternalIdentity) (pol : LinkPolicy) (v : ℕ)
    (w : World)
    → pol.auto_link ≡ false
    → has_identity v w.db.user_identities ≡ true
    → is_user v w.db.users ≡ true
    → accounts v (resolve_identity env service_id ext pol w).1.db.user_identities
      ≡ accounts v w.db.user_identities
resolve_first_link env service_id ext pol v w off has known =
    let before = accounts v w.db.user_identities in
    (((resolve-Keeps env pol (HasAccounts v before) (λ id. eqb id v ≡ false)
        (accounts-Safe v before env pol off) service_id ext).run
      w
      (record {
        since = omega arith;
        holds = record { same = refl; some_identity = has; known = known };
      })).holds
    ).same
