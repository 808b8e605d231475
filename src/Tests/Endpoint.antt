-- ===== src/Tests/Endpoint.antt =====
-- Runs of the token endpoint and of what it asks the registry and the policy.
use kauth_go.Prelude.{
  ◌≡◌, refl, true, false, ◌↔◌, map, some, none, List, [], ◌∷◌, All, arith, eq_iff,
}
use kauth_go.Db.{Service}
use kauth_go.Exec.{ok, random, clock, lift, ◌>>=◌}
use kauth_go.Token.Issuer.{
  issue_id_token_detailed, sign_claims, build_claims, subject_of, sign, signed, service_ttl,
}
use kauth_go.Token.Issuer.Signed.{ClaimsBehind, id_token_claims}
use kauth_go.Exec.Spares.{succeeded}
use kauth_go.Registry.{by_suffix, is_sub_domain}
use kauth_go.Registry.Suffix.{IsBound, by_suffix_longest}
use kauth_go.Token.Refresh.{RotationResult, rotate}
use kauth_go.Token.Refresh.Reuse.{IsRevokedRow}
use kauth_go.Token.Refresh.RowInvariant.{AllRows}
use kauth_go.Auth.Http.{is_granted}
use kauth_go.Auth.Policy.{csv_has_exact}
use kauth_go.Auth.Policy.Csv.{has_no_comma, join_commas, csv_has_exact-Mem}
use kauth_go.Auth.CodeGrant.{authorization_code_grant, is_verified, invalid_grant}
use kauth_go.Auth.CodeGrant.Reuse.{code_reuse_revokes}
use kauth_go.Auth.Http.{verify_pkce, s256_challenge}
use mathlib.Core.List.{Mem}
use kauth_go.Text.{byte_length, trim_space}
use kauth_go.Db.Codes.{get_authorization_code_by_hash}
use kauth_go.Db.Table.{select_first}
use kauth_go.Auth.CodeGrant.Spares.{refused_exchange_unchanged}
use kauth_go.Auth.CodeGrant.Grants.{Entitled, granted_exchange_checked}
use kauth_go.Auth.RefreshGrant.{refresh_grant}
use kauth_go.Auth.RefreshGrant.Checks.{Refreshed, granted_refresh_checked}
use kauth_go.Auth.RefreshGrant.Refusals.{ungranted_refresh_revokes}
use kauth_go.Tests.Fixtures.{
  ticks, member, env, app, server, site, code_request, refresh_request, verifier, redeemed_row,
  redeemed_site,
}

abbrev session : RotationResult
session = record {
  new_token = "riii";
  email = "a@x.no";
  family_id = "fam";
  service_id = "app";
  user_id = some 1;
}

-- A wrong client, the right one, a refresh, one that the policy denies, and the rotation in it.
runs :
    (succeeded is_granted (authorization_code_grant env (server none) (code_request "other") site).0
      ≡ false)
    × (succeeded is_granted (authorization_code_grant env (server none) (code_request "app") site).0
        ≡ true)
    × (succeeded is_granted (refresh_grant env (server none) refresh_request site).0 ≡ true)
    × (succeeded is_granted (refresh_grant env (server (some "admin")) refresh_request site).0
        ≡ false)
    × ((rotate env "tok" site).0 ≡ ok session)
unfolding kauth_go.Text.trim_space kauth_go.Text.split kauth_go.Text.contains kauth_go.Text.fields
    kauth_go.Text.byte_length kauth_go.Text.split_csv kauth_go.Exec.pure kauth_go.Exec.raise
    kauth_go.Exec.lift kauth_go.Exec.attempt kauth_go.Exec.◌>>=◌ kauth_go.Exec.call
    kauth_go.Exec.finish_transaction kauth_go.Exec.in_tx kauth_go.Exec.query kauth_go.Exec.execute
    kauth_go.Exec.log kauth_go.Exec.clock kauth_go.Exec.random kauth_go.Db.Table.select_first
    kauth_go.Db.Table.exists_where kauth_go.Db.Table.update_where kauth_go.Db.Table.next_id
    kauth_go.Db.Codes.consume_authorization_code_checked
    kauth_go.Db.Codes.get_authorization_code_by_hash kauth_go.Db.Users.get_active_user_by_id
    kauth_go.Db.Refresh.insert_refresh_token kauth_go.Db.Refresh.consume_refresh_token
    kauth_go.Db.Refresh.get_refresh_token_by_hash kauth_go.Db.Refresh.revoke_family_tokens
    kauth_go.Registry.redirect_host kauth_go.Registry.by_domain kauth_go.Registry.by_host
    kauth_go.Registry.by_id kauth_go.Registry.by_suffix kauth_go.Registry.resolve
    kauth_go.Auth.Policy.csv_has_exact kauth_go.Auth.Policy.check_policy
    kauth_go.Auth.Http.s256_challenge kauth_go.Auth.Http.verify_pkce
    kauth_go.Auth.Http.scope_contains kauth_go.Auth.Http.origin_allowed
    kauth_go.Auth.Http.sanitize_log_value kauth_go.Auth.CodeGrant.find_code
    kauth_go.Auth.CodeGrant.active_session_user kauth_go.Auth.CodeGrant.revoke_code_family
    kauth_go.Auth.CodeGrant.reject_used kauth_go.Auth.CodeGrant.mismatch
    kauth_go.Auth.CodeGrant.reject_unused kauth_go.Auth.CodeGrant.reject_code
    kauth_go.Auth.CodeGrant.log_invalid kauth_go.Auth.CodeGrant.unless_rejected
    kauth_go.Auth.CodeGrant.lost_race kauth_go.Auth.CodeGrant.redeemed
    kauth_go.Auth.CodeGrant.redeem kauth_go.Auth.CodeGrant.issue_id
    kauth_go.Auth.CodeGrant.exchange_tokens kauth_go.Auth.CodeGrant.authorization_code_grant
    kauth_go.Auth.RefreshGrant.refused_origin kauth_go.Auth.RefreshGrant.presented
    kauth_go.Auth.RefreshGrant.reject_origin kauth_go.Auth.RefreshGrant.deny
    kauth_go.Auth.RefreshGrant.note_service kauth_go.Auth.RefreshGrant.stored_service
    kauth_go.Auth.RefreshGrant.refresh_grant kauth_go.Auth.RefreshGrant.token
    kauth_go.Token.Refresh.insert kauth_go.Token.Refresh.consume kauth_go.Token.Refresh.consume_code
    kauth_go.Token.Refresh.find_by_hash kauth_go.Token.Refresh.compute_expires_at
    kauth_go.Token.Refresh.family_end kauth_go.Token.Refresh.root_token
    kauth_go.Token.Refresh.new_root_token kauth_go.Token.Refresh.issue
    kauth_go.Token.Refresh.redeem_body kauth_go.Token.Refresh.redeem_authorization_code
    kauth_go.Token.Refresh.rotate_body kauth_go.Token.Refresh.gap_label
    kauth_go.Token.Refresh.reuse_gap kauth_go.Token.Refresh.handle_reuse
    kauth_go.Token.Refresh.classify_existing kauth_go.Token.Refresh.classify_rejected
    kauth_go.Token.Refresh.finish_rotate kauth_go.Token.Refresh.rotate
    kauth_go.Token.Refresh.revoke_family kauth_go.Token.Refresh.revoke_family_of_token
    kauth_go.Token.Issuer.subject_of kauth_go.Token.Issuer.build_claims kauth_go.Token.Issuer.signed
    kauth_go.Token.Issuer.sign kauth_go.Token.Issuer.sign_claims kauth_go.Token.Issuer.service_ttl
    kauth_go.Token.Issuer.issue_access_detailed kauth_go.Token.Issuer.issue_access
    kauth_go.Token.Issuer.issue_id_token_detailed kauth_go.Token.Issuer.issue_admin
    kauth_go.Token.Duration.parse_iso8601_duration kauth_go.Token.Duration.add_duration
    kauth_go.Tests.Fixtures.ticks kauth_go.Tests.Fixtures.count
runs = (refl, refl, refl, refl, refl)

refused_exchange_unchanged_example :
    (authorization_code_grant env
      (server none)
      (code_request "other")
      site).1.db.authorization_codes
    ≡ site.db.authorization_codes
refused_exchange_unchanged_example =
    refused_exchange_unchanged env (server none) (code_request "other") site runs.0

granted_exchange_checked_example : Entitled env (server none) (code_request "app") site
granted_exchange_checked_example =
    granted_exchange_checked env (server none) (code_request "app") site runs.1

granted_refresh_checked_example : Refreshed env (server none) refresh_request site
granted_refresh_checked_example =
    granted_refresh_checked env (server none) refresh_request site runs.2

ungranted_refresh_revokes_example :
    AllRows
      (IsRevokedRow "fam")
      (refresh_grant env (server (some "admin")) refresh_request site).1.db
unfolding kauth_go.Auth.RefreshGrant.refused_origin kauth_go.Auth.RefreshGrant.presented
ungranted_refresh_revokes_example =
    ungranted_refresh_revokes env (server (some "admin")) refresh_request site session (λ n. refl)
      refl (λ e. ground (arith, eq_iff "tok" "")) runs.4 runs.3

redeemed-found :
    get_authorization_code_by_hash "code" redeemed_site.db.authorization_codes ≡ some redeemed_row
unfolding get_authorization_code_by_hash select_first
redeemed-found = refl

redeemed-verified : is_verified env (code_request "app") redeemed_row ≡ true
unfolding verify_pkce s256_challenge
redeemed-verified = refl

verifier_length : byte_length verifier ≡ 43
unfolding byte_length
verifier_length = refl

code_reuse_revokes_example :
    ((authorization_code_grant env (server none) (code_request "app") redeemed_site).0
      ≡ ok invalid_grant)
    × AllRows
        (IsRevokedRow "fam")
        (authorization_code_grant env (server none) (code_request "app") redeemed_site).1.db
code_reuse_revokes_example =
    code_reuse_revokes env (server none) (code_request "app") redeemed_site redeemed_row "fam"
      (λ n. refl) (λ e. ground (arith, eq_iff "code" "")) (omega (arith, verifier_length))
      (omega (arith, verifier_length)) redeemed-found refl redeemed-verified refl

signed-id :
    (issue_id_token_detailed env (server none).issuer member (app none) "n" site).0
    ≡ ok (record { token = "jwt"; jti = "r" })
unfolding issue_id_token_detailed sign_claims build_claims subject_of sign signed random clock lift
    ◌>>=◌ ticks
signed-id = refl

id_token_claims_example :
    ClaimsBehind
      (server none).issuer
      member
      (app none)
      (service_ttl env (server none).issuer (app none))
      "id"
      "n"
      (record { token = "jwt"; jti = "r" })
id_token_claims_example =
    id_token_claims env (server none).issuer member (app none) "n" site
      (record { token = "jwt"; jti = "r" }) signed-id

abbrev wide : List Service
wide = record (app none) { id = "wide"; domain = "no" } ∷ app none ∷ []

sub_domain : by_suffix env (some "a.x.no") wide ≡ some (app none)
unfolding by_suffix kauth_go.Registry.longest kauth_go.Text.has_suffix kauth_go.Text.byte_length
sub_domain = refl

by_suffix_longest_example :
    (is_sub_domain env "a.x.no" (app none) ≡ true) × All (IsBound env "a.x.no" (app none)) wide
by_suffix_longest_example = by_suffix_longest env "a.x.no" wide (app none) sub_domain

csv_has_exact-Mem_example :
    (csv_has_exact (join_commas "user" (" editor" ∷ [])) "editor" ≡ true)
    ↔ Mem "editor" (map trim_space ("user" ∷ " editor" ∷ []))
unfolding has_no_comma
csv_has_exact-Mem_example = csv_has_exact-Mem "editor" "user" (" editor" ∷ []) refl (refl, tt)
