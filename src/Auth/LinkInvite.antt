-- ===== src/Auth/LinkInvite.antt =====
-- Invitations to link an identity (internal/auth/link_invite.go): the lookup behind the page and the
-- end of the flow. Pages and the receipt are left out, and `LogSync` is taken for `Log`: its error is
-- only written to a log.
pub mod Linked
use Prim.Native.String.{[], ◌∷◌, ◌++◌}
use kauth_go.Prelude.{
  ℕ, ◌+◌, code, String, Bool, true, false, not, ◌&&◌, ◌||◌, Option, none, some, List, ◌==◌, eqb,
  leb, ltb, is_some, if◌then◌else◌,
}
use kauth_go.Env.{Env}
use kauth_go.Idp.{Provider, IdpRegistry, for_service}
use kauth_go.Db.{Db, User, UserIdentity, Service, IdentityLinkInvite}
use kauth_go.Db.Identities.{InsertIdentityParams, get_identity, insert_identity}
use kauth_go.Db.Invites.{consume_link_invite, get_valid_link_invite_by_hash}
use kauth_go.Db.Table.{select_first}
use kauth_go.Db.Users.{get_user_by_id}
use kauth_go.Exec.{
  Error, Result, ok, err, no_rows, db_error, link_rejected, Event, World, Exec, pure, raise,
  attempt, call, query, log, clock, next, or_no_rows, finish_transaction, ◌>>=◌, ◌>>◌,
}
use kauth_go.Registry.{resolve}
use kauth_go.Token.Refresh.{event}
use kauth_go.Auth.CodeGrant.{Server}
use kauth_go.Auth.Identity.{find_identity, insert}
use kauth_go.Auth.Magic.{normalize_email, valid_email}

abbrev is_link_code : ℕ → Bool
is_link_code c =
    (leb b'a' c && leb c b'z')
    || (leb b'A' c && leb c b'Z')
    || (leb b'0' c && leb c b'9')
    || eqb c b'-'
    || eqb c b'_'

all_link : String → Bool
all_link [] = true
all_link (c ∷ s) = is_link_code (code c) && all_link s

count : String → ℕ
count [] = 0
count (c ∷ s) = 1 + count s

-- 43 bytes, all of them ASCII.
unfoldable pub valid_link_token_format : String → Bool
unfolding all_link count
valid_link_token_format t = eqb (count t) 43 && all_link t

pub record LinkTarget : Type 0 where
  pub invite : IdentityLinkInvite
  pub user : User
  pub provider : Provider
  pub svc : Service

module _ (env : Env) (srv : Server) (idps : IdpRegistry) where
  unfoldable pub target_provider :
      IdentityLinkInvite → User → Service → Option Provider → Exec (Option LinkTarget)
  target_provider inv user svc none = pure none
  target_provider inv user svc (some p) =
      pure (some (record { invite = inv; user = user; provider = p; svc = svc }))

  unfoldable pub target_service :
      IdentityLinkInvite → User → Option Service → Exec (Option LinkTarget)
  unfolding target_provider
  target_service inv user none = pure none
  target_service inv user (some svc) =
      if not (eqb svc.active 1)
      then pure none
      else target_provider inv user svc
          (select_first (λ p. eqb p.id inv.provider_id) (for_service idps svc.id))

  unfoldable pub target_user : IdentityLinkInvite → Result User → Exec (Option LinkTarget)
  unfolding target_service
  target_user inv (err e) = pure none
  target_user inv (ok user) =
      if is_some user.deactivated_at || not (normalize_email env user.email == inv.email)
      then pure none
      else target_service inv user (resolve env srv.cache "" inv.service_id "")

  unfoldable pub target_invite : Result IdentityLinkInvite → Exec (Option LinkTarget)
  unfolding target_user
  target_invite (err e) = pure none
  target_invite (ok inv) = do
    user ← attempt (query env (λ db. get_user_by_id inv.user_id db.users))
    target_user inv user

  unfoldable pub lookup : String → Exec (Option LinkTarget)
  unfolding target_invite
  lookup raw = if not (valid_link_token_format raw) then pure none else (do
    now ← clock env
    inv ← attempt (
        query env (λ db.
          get_valid_link_invite_by_hash env (env.sha256_hex raw) (env.format_time now)
            db.identity_link_invites))
    target_invite inv)

pub data LinkOutcome : Type 0 where
  link_created link_already : LinkOutcome

-- The page: done, already linked, rejected (400), or rejected for an internal error (500).
pub data LinkAnswer : Type 0 where
  link_done was_linked rejected rejected_internal : LinkAnswer

-- What the transaction ended with, and the address of the user if one was found.
pub record LinkRun : Type 0 where
  pub email : String
  pub result : Result (LinkOutcome × ℕ)

is_plain : String → Bool
is_plain [] = true
is_plain (c ∷ s) = ltb 0x20 (code c) && ltb (code c) 0x7f && is_plain s

unfoldable pub raw_email_safe : String → Bool
unfolding is_plain
raw_email_safe raw = is_plain raw && valid_email raw

module _ (env : Env) (svc : Service) (p : Provider) (invite_id : ℕ) (sub raw_email : String)
    (now : ℕ) where
  abbrev pub consume_in : Db → Result IdentityLinkInvite × Db
  consume_in db =
      let (row, rows) =
        consume_link_invite env (env.format_time now) invite_id p.id svc.id
          db.identity_link_invites in
      (or_no_rows row, record db { identity_link_invites = rows })

  unfoldable pub consume : Exec IdentityLinkInvite
  consume = call env consume_in

  unfoldable pub or_invalid {ℓ} : {A : Type ℓ} → Result A → Exec A
  or_invalid (err no_rows) = raise (link_rejected "invite_invalid")
  or_invalid (err e) = raise e
  or_invalid (ok a) = pure a

  -- The user that the invitation is for.
  unfoldable pub invited : Exec (IdentityLinkInvite × User)
  unfolding consume or_invalid
  invited = do
    consumed ← attempt consume
    inv ← or_invalid consumed
    found ← attempt (query env (λ db. get_user_by_id inv.user_id db.users))
    user ← or_invalid found
    pure (inv, user)

  abbrev pub claimed : Option String
  claimed = if raw_email_safe raw_email then some (normalize_email env raw_email) else none

  abbrev pub link_params : User → InsertIdentityParams
  link_params user = record {
    user_id = user.id;
    provider = "oidc";
    issuer = p.issuer;
    subject = sub;
    email = claimed;
    created_at = env.format_time now;
    last_used_at = some (env.format_time now);
  }

  -- An identity that is there is the user's own or another's, and stays as it is.
  unfoldable pub decide : User → UserIdentity → Exec (LinkOutcome × ℕ)
  decide user identity =
      if eqb identity.user_id user.id
      then pure (link_already, identity.id)
      else raise (link_rejected "identity_taken")

  unfoldable pub link_inserted : User → ℕ → Exec (LinkOutcome × ℕ)
  unfolding decide
  link_inserted user n = do
    identity ← find_identity env p.issuer sub
    if eqb n 0 then decide user identity else pure (link_created, identity.id)

  unfoldable pub link_new : User → Result UserIdentity → Exec (LinkOutcome × ℕ)
  unfolding decide link_inserted
  link_new user (ok identity) = decide user identity
  link_new user (err no_rows) = do n ← insert env (link_params user); link_inserted user n
  link_new user (err e) = raise e

  unfoldable pub link_user : IdentityLinkInvite → User → Exec (LinkOutcome × ℕ)
  unfolding link_new
  link_user inv user =
      if is_some user.deactivated_at
      then raise (link_rejected "user_inactive")
      else if not (normalize_email env user.email == inv.email)
      then raise (link_rejected "email_changed")
      else (do found ← attempt (find_identity env p.issuer sub); link_new user found)

  unfoldable pub noted : String → Result (LinkOutcome × ℕ) × World → LinkRun × World
  noted email (r, w) = (record { email = email; result = r }, w)

  unfoldable pub run_link : Db → Result (IdentityLinkInvite × User) → World → LinkRun × World
  unfolding noted
  run_link before (err e) w = noted "" (finish_transaction env before (err e) w)
  run_link before (ok (inv, user)) w =
      let (r, w') = link_user inv user w in noted user.email (finish_transaction env before r w')

  -- The transaction of `finishLink`: `token.RunInTx`.
  unfoldable pub link_tx : World → LinkRun × World
  unfolding noted run_link invited link_user
  link_tx w =
      if env.fault w.step
      then noted "" (err db_error, next w)
      else (let (r, w') = invited (next w) in run_link w.db r w')

  unfoldable pub reject_event : String → String → Event
  reject_event reason email =
      record (event "identity_link_rejected" email svc.id false
        ("invite=" ++ env.decimal invite_id ++ " provider=" ++ p.slug ++ " reason=" ++ reason)) {
          auth_method = "oidc";
        }

  abbrev already_mark : LinkOutcome → String
  already_mark link_created = ""
  already_mark link_already = " already=1"

  unfoldable pub link_event : LinkOutcome → ℕ → String → Event
  link_event outcome id email =
      record (event "identity_linked" email svc.id true (
        "via=invite invite="
        ++ env.decimal invite_id
        ++ " provider="
        ++ p.slug
        ++ " issuer="
        ++ p.issuer
        ++ " identity_id="
        ++ env.decimal id
        ++ already_mark outcome)) { auth_method = "oidc" }

  abbrev pub answer_of : LinkOutcome → LinkAnswer
  answer_of link_created = link_done
  answer_of link_already = was_linked

  unfoldable pub concluded : String → Result (LinkOutcome × ℕ) → Exec LinkAnswer
  unfolding reject_event link_event
  concluded email (err (link_rejected reason)) = do log (reject_event reason email); pure rejected
  concluded email (err e) = do log (reject_event "internal" email); pure rejected_internal
  concluded email (ok (outcome, id)) = do
    log (link_event outcome id email)
    pure (answer_of outcome)

  unfoldable pub finish_link : Exec LinkAnswer
  unfolding link_tx concluded
  finish_link w = let (run, w') = link_tx w in concluded run.email run.result w'
