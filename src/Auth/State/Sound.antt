-- ===== src/Auth/State/Sound.antt =====
-- What an accepted state was signed over.
use Prim.Native.String.{◌++◌}
use kauth_go.Prelude.{
  ℕ, ◌≡◌, refl, ◌⊎◌, inl, inr, true, ap, ℤ, String, false, Option, none, some, ◌==◌, arith, eq_iff,
  unless-some, when-some,
}
use kauth_go.Env.{Env}
use kauth_go.Text.Cut.{cut_last, joined, cut_last-whole}
use kauth_go.Auth.State.{
  StateClaims, compute_hmac, read_link, read_purpose, Purpose, claims_of, is_outside, with_link,
  with_purpose, follows_idp, read_base, read_issued, read_nonce, parse_state, parse_decoded,
  check_mac,
}
use kauth_go.Auth.State.Parts.{
  purposed, linked, printed, purpose_of, read_link_sound, read_purpose_sound,
}
use kauth_go.Auth.State.Forms.{
  IsIdp, IsPurpose, read_purpose-IsPurpose, follows-IsIdp, read_link-Leads,
}

-- The state is the encoding of a payload with its own MAC under the secret, and the payload is
-- that of the claims, with some text that is read as a time of issue that the clock allows. The
-- claims have at most one purpose, and a link only with a provider's slug.
pub record IsSigned (env : Env) (secret state : String) (now : ℕ) (c : StateClaims) : Type 0 where
  pub iat : String
  pub issued : ℤ
  pub read : env.parse_int64 iat ≡ some issued
  pub timely : is_outside now issued ≡ false
  pub purpose : IsPurpose (purpose_of c)
  pub link : (c.link ≡ 0) ⊎ IsIdp (purpose_of c)
  pub signed :
      env.base64url_decode state
      ≡ some (printed env c iat ++ "." ++ compute_hmac env secret (printed env c iat))

module _ (env : Env) (now link : ℕ) (p : Purpose) (c : StateClaims) where
  record IsBase (text : String) : Type 0 where
    iat : String
    issued : ℤ
    read : env.parse_int64 iat ≡ some issued
    timely : is_outside now issued ≡ false
    whole : text ≡ joined (joined c.service_id c.nonce) iat
    claims : c ≡ claims_of c.service_id c.nonce p link

  read_nonce-IsBase :
      (front iat : String) (issued : ℤ) (o : Option (String × String))
      → env.parse_int64 iat ≡ some issued
      → ((a b : String) → o ≡ some (a, b) → front ≡ joined a b)
      → read_nonce env now link p issued o ≡ some c
      → IsBase (joined front iat)
  unfolding read_nonce
  read_nonce-IsBase front iat issued none read back e = cc
  read_nonce-IsBase front iat issued (some (a, b)) read back e =
      let (timely, taken) = unless-some (is_outside now issued) (some (claims_of a b p link)) c e in
      let is : c ≡ claims_of a b p link = cc in
      record {
        iat = iat;
        issued = issued;
        read = read;
        timely = timely;
        whole = rw (is, back a b refl) refl;
        claims = rw is refl;
      }

  read_issued-IsBase :
      (front iat : String) (o : Option ℤ)
      → env.parse_int64 iat ≡ o
      → read_issued env now link p front o ≡ some c
      → IsBase (joined front iat)
  unfolding read_issued
  read_issued-IsBase front iat none f e = cc
  read_issued-IsBase front iat (some issued) f e =
      read_nonce-IsBase front iat issued (cut_last ":" front) f (cut_last-whole ":" front) e

  read_base-IsBase :
      (text : String) (o : Option (String × String))
      → ((a b : String) → o ≡ some (a, b) → text ≡ joined a b)
      → read_base env now link p o ≡ some c
      → IsBase text
  unfolding read_base
  read_base-IsBase text none back e = cc
  read_base-IsBase text (some (front, iat)) back e =
      rw (back front iat refl) (read_issued-IsBase front iat (env.parse_int64 iat) refl e)

module _ (env : Env) (secret : String) (now : ℕ) (c : StateClaims) where
  -- The payload of accepted claims, less the form of the state.
  record IsPrinted (payload : String) : Type 0 where
    iat : String
    issued : ℤ
    read : env.parse_int64 iat ≡ some issued
    timely : is_outside now issued ≡ false
    whole : payload ≡ printed env c iat
    purpose : IsPurpose (purpose_of c)
    link : (c.link ≡ 0) ⊎ IsIdp (purpose_of c)

  with_purpose-IsPrinted :
      (payload text : String) (link : ℕ) (o : Option (String × Purpose))
      → payload ≡ linked env link text
      → ((r : String) (p : Purpose) → o ≡ some (r, p) → text ≡ purposed p r)
      → ((r : String) (p : Purpose) → o ≡ some (r, p) → IsPurpose p × ((link ≡ 0) ⊎ IsIdp p))
      → with_purpose env secret now link o ≡ some c
      → IsPrinted payload
  unfolding with_purpose
  with_purpose-IsPrinted payload text link none whole back kind e = cc
  with_purpose-IsPrinted payload text link (some (r, p)) whole back kind e =
      let at_base = read_base-IsBase env now link p c r (cut_last ":" r) (cut_last-whole ":" r) e in
      let same_link : c.link ≡ link = ap (λ (x : StateClaims). x.link) at_base.claims in
      let same_purpose : Path Purpose (record { admin = c.admin; idp = c.idp; github = c.github })
          p =
        ap (λ (x : StateClaims). record { admin = x.admin; idp = x.idp; github = x.github })
          at_base.claims in
      record {
        iat = at_base.iat;
        issued = at_base.issued;
        read = at_base.read;
        timely = at_base.timely;
        whole = rw (same_link, same_purpose, ← at_base.whole, ← back r p refl) whole;
        purpose = rw same_purpose (kind r p refl).0;
        link = rw (same_link, same_purpose) (kind r p refl).1;
      }

  idp_of :
      (text : String) (link : ℕ) (r : String) (p : Purpose)
      → (link ≡ 0) ⊎ (follows_idp env secret (cut_last ":" text) ≡ true)
      → read_purpose text ≡ some (r, p)
      → (link ≡ 0) ⊎ IsIdp p
  idp_of text link r p (inl none_given) e = inl none_given
  idp_of text link r p (inr follows) e =
      inr (follows-IsIdp env secret text (cut_last ":" text) r p follows e)

  with_link-IsPrinted :
      (payload : String) (o : Option (String × ℕ))
      → ((r : String) (link : ℕ) → o ≡ some (r, link) → payload ≡ linked env link r)
      → ((r : String) (link : ℕ)
          → o ≡ some (r, link)
          → (link ≡ 0) ⊎ (follows_idp env secret (cut_last ":" r) ≡ true))
      → with_link env secret now o ≡ some c
      → IsPrinted payload
  unfolding with_link
  with_link-IsPrinted payload none back leads e = cc
  with_link-IsPrinted payload (some (text, link)) back leads e =
      with_purpose-IsPrinted payload text link (read_purpose text) (back text link refl)
        (λ r p. read_purpose_sound text (cut_last ":" text) r p (cut_last-whole ":" text))
        (λ r p read. (
          read_purpose-IsPurpose text (cut_last ":" text) r p read,
          idp_of text link r p (leads text link refl) read,
        ))
        e

  check_mac-IsSigned :
      (state raw : String) (o : Option (String × String))
      → env.base64url_decode state ≡ some raw
      → ((a b : String) → o ≡ some (a, b) → raw ≡ a ++ "." ++ b)
      → check_mac env secret now o ≡ some c
      → IsSigned env secret state now c
  unfolding check_mac
  check_mac-IsSigned state raw none f back e = cc
  check_mac-IsSigned state raw (some (payload, mac)) f back e =
      let (passed, taken) = when-some (mac == compute_hmac env secret payload) _ c e in
      let is : mac ≡ compute_hmac env secret payload =
        ground (arith, eq_iff mac (compute_hmac env secret payload)) in
      let got =
        with_link-IsPrinted payload (read_link env secret payload)
          (λ r link.
            read_link_sound env secret payload (cut_last ":" payload) r link
              (cut_last-whole ":" payload))
          (λ r link. read_link-Leads env secret payload (cut_last ":" payload) r link) taken in
      record {
        iat = got.iat;
        issued = got.issued;
        read = got.read;
        timely = got.timely;
        purpose = got.purpose;
        link = got.link;
        signed = rw (f, back payload mac refl, is, got.whole) refl;
      }

  parse_decoded-IsSigned :
      (state : String) (o : Option String)
      → env.base64url_decode state ≡ o
      → parse_decoded env secret now o ≡ some c
      → IsSigned env secret state now c
  unfolding parse_decoded
  parse_decoded-IsSigned state none f e = cc
  parse_decoded-IsSigned state (some raw) f e =
      check_mac-IsSigned state raw (cut_last "." raw) f (cut_last-whole "." raw) e

-- An accepted state is the base64 form of a payload with the payload's own MAC under the secret.
-- The payload is the service, the nonce, a text that is read as a time of issue at most 10 minutes past
-- and at most one minute ahead, and the segments of the claims that are read: none, `admin`, `github`,
-- or `idp=` with a slug, and behind the last of these only perhaps `link=` with an invitation's id.
pub parse_state-IsSigned :
    (env : Env) (secret : String) (now : ℕ) (c : StateClaims) (state : String)
    → parse_state env secret now state ≡ some c
    → IsSigned env secret state now c
unfolding parse_state
parse_state-IsSigned env secret now c state e =
    parse_decoded-IsSigned env secret now c state (env.base64url_decode state) refl e
