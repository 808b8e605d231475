-- ===== src/Auth/State/RoundTrip.antt =====
-- Round trips of the signed states: reading is the inverse of signing, for each purpose.
use Prim.Native.String.{◌++◌}
use kauth_go.Prelude.{ℕ, ◌<◌, ◌^◌, ◌≡◌, refl, String, true, false, none, some, eqb}
use kauth_go.Env.{Env, CodecLaws}
use kauth_go.Text.Cut.{cut_prefix, joined, is_free_of}
use kauth_go.Auth.State.{
  is_slug, plain_service, base, sign_state, sign_admin_state, sign_idp_state, sign_link_state,
  sign_github_state, no_purpose, admin_purpose, github_purpose, idp_purpose, claims_of, with_link,
  with_purpose, parse_state, verify_state,
}
use kauth_go.Auth.State.Read.{
  IsFresh, read_base-fresh, base_count, read_purpose-base, read_purpose-admin, read_purpose-github,
  idp_free, idp_no_link, slug_named, read_purpose-idp, read_link-joined, parse_state-signed,
  read_link-base, read_link-invite,
}

-- What is read in the five kinds of state.
pub record IsReadBack (env : Env) (secret : String) (issued now : ℕ)
    (nonce service_id slug : String) (invite : ℕ) : Type 0 where
  pub plain :
      parse_state env secret now (sign_state env secret issued service_id nonce)
      ≡ some (claims_of service_id nonce no_purpose 0)
  pub admin :
      parse_state env secret now (sign_admin_state env secret issued service_id nonce)
      ≡ some (claims_of service_id nonce admin_purpose 0)
  pub github :
      parse_state env secret now (sign_github_state env secret issued service_id nonce)
      ≡ some (claims_of service_id nonce github_purpose 0)
  pub idp :
      parse_state env secret now (sign_idp_state env secret issued service_id nonce slug)
      ≡ some (claims_of service_id nonce (idp_purpose slug) 0)
  pub link :
      parse_state env secret now (sign_link_state env secret issued service_id nonce slug invite)
      ≡ some (claims_of service_id nonce (idp_purpose slug) invite)

-- What `VerifyState` answers to them.
pub record IsSeparated (env : Env) (secret : String) (issued now : ℕ)
    (nonce service_id slug : String) (invite : ℕ) : Type 0 where
  pub plain :
      verify_state env secret now (sign_state env secret issued service_id nonce) ≡ some service_id
  pub admin :
      verify_state env secret now (sign_admin_state env secret issued service_id nonce) ≡ none
  pub github :
      verify_state env secret now (sign_github_state env secret issued service_id nonce) ≡ none
  pub idp :
      verify_state env secret now (sign_idp_state env secret issued service_id nonce slug) ≡ none
  pub link :
      verify_state env secret now (sign_link_state env secret issued service_id nonce slug invite)
      ≡ none

module _ (env : Env) (laws : CodecLaws env) (secret : String) where
  module _ {issued now : ℕ} {nonce : String} (service_id : String) where
    -- What `parse_state` reads in a fresh state is the service, the nonce and the purpose that it
    -- was signed for: none, admin, github, a provider's slug, or a slug with a link invitation's id.
    -- A slug is 1 to 32 of the characters a-z, 0-9 and -, and the id is positive and below 2^63.
    pub parse_state-sign :
        IsFresh issued now nonce
        → (slug : String) (invite : ℕ) → is_slug slug ≡ true
        → eqb invite 0 ≡ false
        → invite < 2 ^ 63
        → IsReadBack env secret issued now nonce service_id slug invite
    unfolding with_link with_purpose sign_state sign_admin_state sign_github_state sign_idp_state
        sign_link_state is_free_of cut_prefix
    parse_state-sign fresh slug invite h n small =
        let text = base env issued service_id nonce in
        let read = read_base-fresh env laws service_id fresh in
        let counted = base_count env laws issued service_id nonce in
        let signed = parse_state-signed env secret laws now in
        record {
          plain =
              rw
                (
                  signed text,
                  read_link-base env laws secret issued service_id nonce,
                  read_purpose-base env laws issued service_id nonce,
                )
                (read 0 no_purpose);
          admin =
              rw
                (
                  signed (joined text "admin"),
                  read_link-joined env secret text "admin" refl refl,
                  read_purpose-admin text counted,
                )
                (read 0 admin_purpose);
          github =
              rw
                (
                  signed (joined text "github"),
                  read_link-joined env secret text "github" refl refl,
                  read_purpose-github text counted,
                )
                (read 0 github_purpose);
          idp =
              rw
                (
                  signed (joined text ("idp=" ++ slug)),
                  read_link-joined env secret text ("idp=" ++ slug) (idp_free slug h)
                      (idp_no_link slug),
                  read_purpose-idp text slug h,
                )
                (read 0 (idp_purpose slug));
          link =
              rw
                (
                  signed (joined (joined text ("idp=" ++ slug)) ("link=" ++ env.decimal invite)),
                  read_link-invite env laws secret text slug invite h n small,
                  read_purpose-idp text slug h,
                )
                (read invite (idp_purpose slug));
        }

    -- `VerifyState` accepts a fresh state that was signed for a plain login, with its service, and
    -- refuses those that were signed for the admin, the GitHub, a provider's and a link flow.
    pub verify_state-sign :
        IsFresh issued now nonce
        → (slug : String) (invite : ℕ) → is_slug slug ≡ true
        → eqb invite 0 ≡ false
        → invite < 2 ^ 63
        → IsSeparated env secret issued now nonce service_id slug invite
    unfolding verify_state plain_service
    verify_state-sign fresh slug invite h n small =
        let read = parse_state-sign fresh slug invite h n small in
        let named = slug_named slug h in
        record {
          plain = rw read.plain refl;
          admin = rw read.admin refl;
          github = rw read.github refl;
          idp = rw (read.idp, named) refl;
          link = rw (read.link, named) refl;
        }
