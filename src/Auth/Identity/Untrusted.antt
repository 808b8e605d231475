-- ===== src/Auth/Identity/Untrusted.antt =====
-- A provider whose addresses are not trusted neither links nor registers.
use kauth_go.Prelude.{ℕ, ◌≡◌, refl, sym, ◌∙◌, String, true, false, Option, List, [], ◌∷◌, arith}
use kauth_go.Env.{Env}
use kauth_go.Db.{Db, User, UserIdentity}
use kauth_go.Db.Identities.{update_identity_seen}
use kauth_go.Db.Table.{update_where}
use kauth_go.Exec.{World}
use kauth_go.Auth.Identity.{ExternalIdentity, LinkPolicy, resolve_identity}
use kauth_go.Auth.Identity.Keeping.{Safe, resolve-Keeps}

pub record Binding : Type 0 where
  pub user_id : ℕ
  pub issuer : String
  pub subject : String

-- Which account logs in whom.
unfoldable pub bindings : List UserIdentity → List Binding
bindings [] = []
bindings (r ∷ rows) =
    record { user_id = r.user_id; issuer = r.issuer; subject = r.subject } ∷ bindings rows

bindings-seen :
    (rows : List UserIdentity) (email time : Option String) (id : ℕ)
    → bindings (update_identity_seen email time id rows) ≡ bindings rows
unfolding bindings update_identity_seen update_where
bindings-seen [] email time id = refl
bindings-seen (x ∷ rows) email time id = ground (arith, bindings-seen rows email time id)

record Same (users : List User) (all : List Binding) (db : Db) : Type 0 where
  same_users : db.users ≡ users
  same_bindings : bindings db.user_identities ≡ all

untrusted-Safe :
    (env : Env) (pol : LinkPolicy) (users : List User) (all : List Binding)
    → pol.email_untrusted ≡ true
    → Safe env pol (Same users all) (λ _. Unit)
untrusted-Safe env pol users all un = record {
  seen = λ email time id db h. record {
    same_users = h.same_users;
    same_bindings = bindings-seen db.user_identities email time id ∙ h.same_bindings;
  };
  linked = λ trusted. let clash : true ≡ false = sym un ∙ trusted in cc;
  first = λ trusted. let clash : true ≡ false = sym un ∙ trusted in cc;
  created = λ trusted. let clash : true ≡ false = sym un ∙ trusted in cc;
  fresh = λ _ _ _ _ _. tt;
  registered = λ trusted. let clash : true ≡ false = sym un ∙ trusted in cc;
}

-- A login of a provider whose addresses are not trusted leaves the users, and who logs in whom, as
-- they were.
pub untrusted_unchanged :
    (env : Env) (service_id : String) (ext : ExternalIdentity) (pol : LinkPolicy) (w : World)
    → pol.email_untrusted ≡ true
    → ((resolve_identity env service_id ext pol w).1.db.users ≡ w.db.users)
      × (bindings (resolve_identity env service_id ext pol w).1.db.user_identities
          ≡ bindings w.db.user_identities)
untrusted_unchanged env service_id ext pol w un =
    let all = bindings w.db.user_identities in
    let end =
      ((resolve-Keeps env pol (Same w.db.users all) (λ _. Unit)
          (untrusted-Safe env pol w.db.users all un) service_id ext).run
        w
        (record {
          since = omega arith;
          holds = record { same_users = refl; same_bindings = refl };
        })).holds in
    (end.same_users, end.same_bindings)
