-- ===== src/Tests/Identity.antt =====
-- Runs of the resolver of identities and of a link invitation.
use kauth_go.Prelude.{◌≡◌, refl, true, false, none, some, [], ◌∷◌}
use kauth_go.Db.{Db, UserIdentity, IdentityLinkInvite}
use kauth_go.Exec.{ok, err, World}
use kauth_go.Idp.{Provider}
use kauth_go.Auth.Identity.{
  ExternalIdentity, LinkPolicy, Resolved, outcome_matched, policy_for, normalized, resolve_identity,
}
use kauth_go.Auth.Identity.Owner.{IsOwned, resolve-IsOwned}
use kauth_go.Auth.Identity.Admitted.{IsAllowed, resolve-IsAllowed}
use kauth_go.Auth.Identity.FirstLink.{accounts, resolve_first_link}
use kauth_go.Auth.Identity.Untrusted.{bindings, untrusted_unchanged}
use kauth_go.Auth.LinkInvite.{finish_link, rejected}
use kauth_go.Auth.LinkInvite.Linked.{rejected_unchanged}
use kauth_go.Tests.Fixtures.{env, member, app, site, ticks}

abbrev google : ExternalIdentity
google = record {
  provider = "google";
  issuer = "https://g";
  subject = "s1";
  email = "a@x.no";
  name = "A";
}

abbrev google_row : UserIdentity
google_row = record {
  id = 1;
  user_id = 1;
  provider = "google";
  issuer = "https://g";
  subject = "s1";
  email = some "a@x.no";
  created_at = ticks 0;
  last_used_at = none;
  admin_ok = 0;
}

abbrev known : World
known = record site { db = record site.db { user_identities = google_row ∷ [] } }

abbrev careful : LinkPolicy
careful = record (policy_for (app none)) { auto_link = false }

abbrev distrusting : LinkPolicy
distrusting = record careful { email_untrusted = true }

abbrev matched_member : Resolved
matched_member = record { user = member; identity = some google_row; outcome = outcome_matched }

abbrev partner : Provider
partner = record { id = 1; slug = "acme"; display_name = "Acme"; issuer = "https://acme" }

runs :
    ((resolve_identity env "app" google careful known).0 ≡ ok matched_member)
    × IsOwned "https://g" "s1" 1 known.db
    × (kauth_go.Db.Identities.has_identity 1 known.db.user_identities ≡ true)
    × (kauth_go.Auth.Identity.FirstLink.is_user 1 known.db.users ≡ true)
    × ((finish_link env (app none) partner 1 "sub" "a@x.no" 2 known).0 ≡ ok rejected)
unfolding kauth_go.Text.trim_space kauth_go.Text.extend_first kauth_go.Text.split
    kauth_go.Text.contains kauth_go.Text.fields kauth_go.Text.has_suffix kauth_go.Text.byte_length
    kauth_go.Text.split_csv kauth_go.Text.Cut.extend_cut kauth_go.Text.Cut.cut_last
    kauth_go.Text.Cut.cut_prefix kauth_go.Text.Cut.put_before kauth_go.Text.Cut.cut_suffix
    kauth_go.Text.Cut.count_char kauth_go.Text.Cut.is_digits kauth_go.Text.Cut.is_free_of
    kauth_go.Exec.pure kauth_go.Exec.raise kauth_go.Exec.lift kauth_go.Exec.attempt
    kauth_go.Exec.◌>>=◌ kauth_go.Exec.call kauth_go.Exec.finish_transaction kauth_go.Exec.in_tx
    kauth_go.Exec.query kauth_go.Exec.execute kauth_go.Exec.log kauth_go.Exec.clock
    kauth_go.Exec.random kauth_go.Db.Table.select_first kauth_go.Db.Table.exists_where
    kauth_go.Db.Table.update_where kauth_go.Db.Table.delete_where kauth_go.Db.Table.next_id
    kauth_go.Db.Identities.get_identity kauth_go.Db.Identities.has_identity
    kauth_go.Db.Identities.insert_identity kauth_go.Db.Identities.link_identity_if_first
    kauth_go.Db.Identities.update_identity_seen kauth_go.Db.Users.get_active_user_by_id
    kauth_go.Db.Users.get_active_user_by_email kauth_go.Db.Users.get_active_user_by_public_id
    kauth_go.Db.Users.create_user kauth_go.Db.Users.update_user_last_login
    kauth_go.Db.Users.get_user_by_id kauth_go.Db.Users.get_user_by_email
    kauth_go.Db.Invites.consume_link_invite kauth_go.Db.Invites.get_valid_link_invite_by_hash
    kauth_go.Db.Invites.get_link_invite_by_id kauth_go.Db.Invites.burn_link_invites
    kauth_go.Db.Invites.burn_link_invites_for_user kauth_go.Db.Invites.revoke_link_invite
    kauth_go.Db.Invites.delete_expired_link_invites
    kauth_go.Db.Invites.list_active_link_invites_by_user kauth_go.Db.Invites.count_invites
    kauth_go.Db.Invites.insert_link_invite_limited kauth_go.Db.Codes.insert_authorization_code
    kauth_go.Db.Codes.consume_authorization_code_checked
    kauth_go.Db.Codes.get_authorization_code_by_hash
    kauth_go.Db.Codes.delete_expired_authorization_codes kauth_go.Registry.redirect_host
    kauth_go.Registry.by_domain kauth_go.Registry.by_host kauth_go.Registry.by_id
    kauth_go.Registry.longest kauth_go.Registry.by_suffix kauth_go.Registry.resolve
    kauth_go.Registry.default_service kauth_go.Registry.resolve_or_default
    kauth_go.Registry.callback_urls kauth_go.Registry.primary_callback
    kauth_go.Registry.is_allowed_callback kauth_go.Registry.link_base_url
    kauth_go.Auth.Magic.normalize_email kauth_go.Auth.Magic.valid_email
    kauth_go.Auth.Magic.check_magic_purpose kauth_go.Auth.Magic.insert_magic
    kauth_go.Auth.Magic.store_link kauth_go.Auth.Magic.store_token
    kauth_go.Auth.Magic.Redeem.consume_magic kauth_go.Auth.Magic.Redeem.find_magic
    kauth_go.Auth.Magic.Redeem.stored_magic_service kauth_go.Auth.Magic.Redeem.create
    kauth_go.Auth.Magic.Redeem.finish_login kauth_go.Auth.Magic.Redeem.redeem_link
    kauth_go.Auth.Identity.find_identity kauth_go.Auth.Identity.insert
    kauth_go.Auth.Identity.link_first kauth_go.Auth.Identity.touch
    kauth_go.Auth.Identity.is_mismatch kauth_go.Auth.Identity.note_mismatch
    kauth_go.Auth.Identity.matched_user kauth_go.Auth.Identity.matched
    kauth_go.Auth.Identity.refuse_link kauth_go.Auth.Identity.denied
    kauth_go.Auth.Identity.deny_link kauth_go.Auth.Identity.not_inserted
    kauth_go.Auth.Identity.after_insert kauth_go.Auth.Identity.link
    kauth_go.Auth.Identity.user_created kauth_go.Auth.Identity.register_body
    kauth_go.Auth.Identity.register kauth_go.Auth.Identity.with_account
    kauth_go.Auth.Identity.with_identity kauth_go.Auth.Identity.resolve_once
    kauth_go.Auth.Identity.second_try kauth_go.Auth.Identity.first_try
    kauth_go.Auth.Identity.resolve_identity kauth_go.Auth.LinkInvite.valid_link_token_format
    kauth_go.Auth.LinkInvite.target_provider kauth_go.Auth.LinkInvite.target_service
    kauth_go.Auth.LinkInvite.target_user kauth_go.Auth.LinkInvite.target_invite
    kauth_go.Auth.LinkInvite.lookup kauth_go.Auth.LinkInvite.raw_email_safe
    kauth_go.Auth.LinkInvite.consume kauth_go.Auth.LinkInvite.or_invalid
    kauth_go.Auth.LinkInvite.invited kauth_go.Auth.LinkInvite.decide
    kauth_go.Auth.LinkInvite.link_inserted kauth_go.Auth.LinkInvite.link_new
    kauth_go.Auth.LinkInvite.link_user kauth_go.Auth.LinkInvite.noted
    kauth_go.Auth.LinkInvite.run_link kauth_go.Auth.LinkInvite.link_tx
    kauth_go.Auth.LinkInvite.reject_event kauth_go.Auth.LinkInvite.link_event
    kauth_go.Auth.LinkInvite.concluded kauth_go.Auth.LinkInvite.finish_link
    kauth_go.Auth.OidcRequest.get kauth_go.Auth.OidcRequest.is_oidc_authorize_request
    kauth_go.Auth.OidcRequest.parse_oidc_authorize_request kauth_go.Auth.OidcRequest.oidc_cookie
    kauth_go.Auth.OidcRequest.check_request kauth_go.Auth.OidcRequest.read_values
    kauth_go.Auth.OidcRequest.read_raw kauth_go.Auth.OidcRequest.read_oidc_cookie
    kauth_go.Auth.OidcRequest.redirect_with_oidc_error
    kauth_go.Auth.OidcRequest.build_redirect_with_code kauth_go.Auth.Dispatch.token_age
    kauth_go.Auth.Dispatch.aud_detail kauth_go.Auth.Dispatch.read_redirect_cookie
    kauth_go.Auth.Dispatch.append_token_and_rt kauth_go.Auth.Dispatch.audience_allows
    kauth_go.Auth.Dispatch.insert_code kauth_go.Auth.Dispatch.level2 kauth_go.Auth.Dispatch.level3
    kauth_go.Auth.Dispatch.level4 kauth_go.Auth.Dispatch.level5 kauth_go.Auth.Dispatch.choose_route
    kauth_go.Auth.Dispatch.aud_event kauth_go.Auth.Dispatch.audit_aud_mismatch
    kauth_go.Auth.Dispatch.log_service_mismatch kauth_go.Auth.Dispatch.code_target
    kauth_go.Auth.Dispatch.code_inserted kauth_go.Auth.Dispatch.code_drawn
    kauth_go.Auth.Dispatch.is_subject kauth_go.Auth.Dispatch.with_user
    kauth_go.Auth.Dispatch.token_user kauth_go.Auth.Dispatch.for_client
    kauth_go.Auth.Dispatch.level0 kauth_go.Auth.Dispatch.Forward.is_own_subject
    kauth_go.Auth.Dispatch.Forward.user_reject_reason kauth_go.Auth.Dispatch.Forward.looked_up
    kauth_go.Auth.Dispatch.Forward.forward_reject_reason kauth_go.Auth.Dispatch.Forward.routed
    kauth_go.Auth.Dispatch.Forward.note_service kauth_go.Auth.Dispatch.Forward.note_audience
    kauth_go.Auth.Dispatch.Forward.level1 kauth_go.Auth.Dispatch.Forward.note_age
    kauth_go.Auth.Dispatch.Forward.send_on kauth_go.Auth.Dispatch.Forward.levels
    kauth_go.Auth.Dispatch.Forward.dispatch_verified kauth_go.Auth.Dispatch.Forward.serve_dispatch
    kauth_go.Auth.Dispatch.Logout.logout_target kauth_go.Auth.Dispatch.Logout.log_logout
    kauth_go.Auth.Dispatch.Logout.revoke_refresh_family kauth_go.Auth.Dispatch.Logout.serve_logout
    kauth_go.Auth.FetchMeta.same_origin kauth_go.Auth.FetchMeta.passes
    kauth_go.Auth.FetchMeta.logout_allowed kauth_go.Auth.Http.s256_challenge
    kauth_go.Auth.Http.verify_pkce kauth_go.Auth.Http.scope_contains
    kauth_go.Auth.Http.origin_allowed kauth_go.Auth.Http.sanitize_log_value
    kauth_go.Token.KeyRing.valid_kid kauth_go.Token.KeyRing.check_pub
    kauth_go.Token.KeyRing.same_modulus kauth_go.Token.KeyRing.same_key
    kauth_go.Token.KeyRing.check_entry kauth_go.Token.KeyRing.public_of
    kauth_go.Token.KeyRing.validate_current kauth_go.Token.KeyRing.validate
    kauth_go.Token.Issuer.subject_of kauth_go.Token.Issuer.build_claims kauth_go.Token.Issuer.signed
    kauth_go.Token.Issuer.sign kauth_go.Token.Issuer.sign_claims kauth_go.Token.Issuer.service_ttl
    kauth_go.Token.Issuer.issue_access_detailed kauth_go.Token.Issuer.issue_access
    kauth_go.Token.Issuer.issue_id_token_detailed kauth_go.Token.Issuer.issue_admin
    kauth_go.Token.Issuer.Verify.previous_named kauth_go.Token.Issuer.Verify.select_key
    kauth_go.Token.Issuer.Verify.check_under kauth_go.Token.Issuer.Verify.fallback
    kauth_go.Token.Issuer.Verify.parse_kid kauth_go.Token.Issuer.Verify.parse
    kauth_go.Token.Issuer.Verify.is_expected kauth_go.Token.Issuer.Verify.accept
    kauth_go.Token.Issuer.Verify.verify kauth_go.Token.Epoch.parse_epoch
    kauth_go.Token.Epoch.email_epoch kauth_go.Token.Epoch.reached
    kauth_go.Token.Epoch.issued_after_email_epoch kauth_go.Token.Refresh.issue
    kauth_go.Token.Refresh.redeem_body kauth_go.Token.Refresh.redeem_authorization_code
    kauth_go.Token.Refresh.rotate_body kauth_go.Token.Refresh.gap_label
    kauth_go.Token.Refresh.reuse_gap kauth_go.Token.Refresh.handle_reuse
    kauth_go.Token.Refresh.classify_existing kauth_go.Token.Refresh.classify_rejected
    kauth_go.Token.Refresh.finish_rotate kauth_go.Token.Refresh.rotate
    kauth_go.Token.Refresh.revoke_family kauth_go.Token.Refresh.revoke_family_of_token
    kauth_go.Token.Refresh.Steps.insert kauth_go.Token.Refresh.Steps.consume
    kauth_go.Token.Refresh.Steps.consume_code kauth_go.Token.Refresh.Steps.find_by_hash
    kauth_go.Token.Refresh.Steps.compute_expires_at kauth_go.Token.Refresh.Steps.family_end
    kauth_go.Token.Refresh.Steps.root_token kauth_go.Token.Refresh.Steps.new_root_token
    kauth_go.Tests.Fixtures.ticks kauth_go.Tests.Fixtures.digits kauth_go.Tests.Fixtures.count
    kauth_go.Auth.Identity.Owner.owner kauth_go.Auth.Identity.FirstLink.accounts
runs = (refl, refl, refl, refl, refl)

resolve-IsOwned_example :
    IsOwned "https://g" "s1" 1 (resolve_identity env "app" google careful known).1.db
resolve-IsOwned_example = resolve-IsOwned env "app" google careful "https://g" "s1" 1 known runs.1

resolve-IsAllowed_example : IsAllowed careful (normalized env google) matched_member
resolve-IsAllowed_example = resolve-IsAllowed env "app" google careful known matched_member runs.0

resolve_first_link_example :
    accounts 1
      (resolve_identity env "app"
        (record google { subject = "s2" })
        careful
        known).1.db.user_identities
    ≡ accounts 1 known.db.user_identities
resolve_first_link_example =
    resolve_first_link env "app" (record google { subject = "s2" }) careful 1 known refl runs.2
      runs.3

untrusted_unchanged_example :
    ((resolve_identity env "app" (record google { subject = "s2" }) distrusting known).1.db.users
      ≡ known.db.users)
    × (bindings
          (resolve_identity env "app"
            (record google { subject = "s2" })
            distrusting
            known).1.db.user_identities
        ≡ bindings known.db.user_identities)
untrusted_unchanged_example =
    untrusted_unchanged env "app" (record google { subject = "s2" }) distrusting known refl

rejected_unchanged_example :
    (finish_link env (app none) partner 1 "sub" "a@x.no" 2 known).1.db ≡ known.db
rejected_unchanged_example =
    rejected_unchanged env (app none) partner 1 "sub" "a@x.no" 2 known rejected runs.4 refl
