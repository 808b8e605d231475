-- ===== src/Tests/Magic.antt =====
-- Runs of magic links.
use kauth_go.Prelude.{◌≡◌, refl, true, false, some, none}
use kauth_go.Exec.{ok, World}
use kauth_go.Auth.FetchMeta.{FetchRequest}
use kauth_go.Auth.Magic.{store_token}
use kauth_go.Auth.Magic.Quota.{Stored, store_token_quota}
use kauth_go.Auth.Magic.Redeem.{MagicAnswer, logged_in, sent_back, is_login, redeem_link}
use kauth_go.Auth.Magic.Redeem.Checks.{LinkRedeemed, magic_login_checked}
use kauth_go.Auth.Magic.Redeem.Once.{link_used_once}
use kauth_go.Tests.Fixtures.{env, app, member, server, site}

abbrev own_page : FetchRequest
own_page = record {
  host = "auth.x.no";
  site = "same-origin";
  mode = "";
  dest = "";
  origin = "";
  insecure = false;
}

abbrev welcome : MagicAnswer
welcome = logged_in (app none) member "jwt" "riiiiiii"

abbrev after_login : World
after_login = (redeem_link env (server none) own_page "app" "link" site).1

abbrev expired : MagicAnswer
expired = sent_back "app" "expired"

-- A link is stored, and another one is redeemed.
links :
    ((store_token env (some (app none)) "a@x.no" "fresh" site).0 ≡ ok true)
    × ((redeem_link env (server none) own_page "app" "link" site).0 ≡ ok welcome)
    × ((redeem_link env (server none) own_page "app" "link" after_login).0 ≡ ok expired)
unfolding kauth_go.Text.trim_space kauth_go.Text.split kauth_go.Text.contains
    kauth_go.Text.has_suffix kauth_go.Text.byte_length kauth_go.Text.split_csv kauth_go.Exec.pure
    kauth_go.Exec.raise kauth_go.Exec.lift kauth_go.Exec.attempt kauth_go.Exec.◌>>=◌
    kauth_go.Exec.call kauth_go.Exec.finish_transaction kauth_go.Exec.in_tx kauth_go.Exec.query
    kauth_go.Exec.execute kauth_go.Exec.log kauth_go.Exec.clock kauth_go.Exec.random
    kauth_go.Db.Table.select_first kauth_go.Db.Table.exists_where kauth_go.Db.Table.update_where
    kauth_go.Db.Table.next_id kauth_go.Db.Magic.count_where
    kauth_go.Db.Magic.insert_magic_token_limited kauth_go.Db.Magic.get_valid_magic_token_by_hash
    kauth_go.Db.Magic.consume_magic_token kauth_go.Db.Magic.burn_magic_tokens_for_emails
    kauth_go.Db.Magic.delete_expired_magic_tokens kauth_go.Db.Users.get_active_user_by_id
    kauth_go.Db.Users.get_active_user_by_email kauth_go.Db.Users.get_active_user_by_public_id
    kauth_go.Db.Users.create_user kauth_go.Db.Users.update_user_last_login
    kauth_go.Db.Refresh.insert_refresh_token kauth_go.Registry.redirect_host
    kauth_go.Registry.by_domain kauth_go.Registry.by_host kauth_go.Registry.by_id
    kauth_go.Registry.by_suffix kauth_go.Registry.resolve kauth_go.Auth.Policy.csv_has_exact
    kauth_go.Auth.Policy.check_policy kauth_go.Auth.Magic.normalize_email
    kauth_go.Auth.Magic.valid_email kauth_go.Auth.Magic.check_magic_purpose
    kauth_go.Auth.Magic.insert_magic kauth_go.Auth.Magic.store_link kauth_go.Auth.Magic.store_token
    kauth_go.Auth.Magic.Redeem.consume_magic kauth_go.Auth.Magic.Redeem.find_magic
    kauth_go.Auth.Magic.Redeem.stored_magic_service kauth_go.Auth.Magic.Redeem.create
    kauth_go.Auth.Magic.Redeem.finish_login kauth_go.Auth.Magic.Redeem.redeem_link
    kauth_go.Auth.Login.complete_admitted kauth_go.Auth.Login.complete
    kauth_go.Auth.FetchMeta.same_origin kauth_go.Auth.FetchMeta.passes
    kauth_go.Auth.FetchMeta.logout_allowed kauth_go.Token.Refresh.insert
    kauth_go.Token.Refresh.compute_expires_at kauth_go.Token.Refresh.family_end
    kauth_go.Token.Refresh.root_token kauth_go.Token.Refresh.new_root_token
    kauth_go.Token.Refresh.issue kauth_go.Token.Issuer.subject_of kauth_go.Token.Issuer.build_claims
    kauth_go.Token.Issuer.signed kauth_go.Token.Issuer.sign kauth_go.Token.Issuer.sign_claims
    kauth_go.Token.Issuer.service_ttl kauth_go.Token.Issuer.issue_access_detailed
    kauth_go.Token.Issuer.issue_access kauth_go.Token.Issuer.issue_id_token_detailed
    kauth_go.Token.Issuer.issue_admin kauth_go.Token.Duration.parse_iso8601_duration
    kauth_go.Token.Duration.add_duration kauth_go.Tests.Fixtures.ticks kauth_go.Tests.Fixtures.count
links = (refl, refl, refl)

store_token_quota_example :
    Stored env
      (some (app none))
      "a@x.no"
      "fresh"
      site
      (store_token env (some (app none)) "a@x.no" "fresh" site).1
store_token_quota_example = store_token_quota env (some (app none)) "a@x.no" "fresh" site links.0

magic_login_checked_example : LinkRedeemed env (server none) own_page "link" site welcome
magic_login_checked_example =
    magic_login_checked env (server none) own_page "app" "link" site welcome links.1 refl

link_used_once_example : is_login expired ≡ false
link_used_once_example =
    link_used_once env (server none) own_page own_page "app" "app" "link" site welcome expired
      ((λ _. tt), tt) links.1 refl links.2
