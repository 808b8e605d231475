-- ===== src/Auth/State/Forms.antt =====
-- Which purposes `parse_state` reads, and which of them comes with a link.
use kauth_go.Prelude.{
  ℕ, ◌≡◌, ◌⊎◌, inl, inr, ℤ, pos, negsuc, String, Bool, true, false, Option, none, some, leb,
  if◌then◌else◌, is_some, arith, unless-some, when-some,
}
use kauth_go.Env.{Env}
use kauth_go.Text.Cut.{cut_last, cut_prefix, cut_suffix, count_char}
use kauth_go.Auth.State.{
  is_slug, read_link_cut, read_link_segment, read_link_id, follows_idp, read_purpose_cut, read_idp,
  read_word, try_admin, try_github, Purpose, no_purpose, admin_purpose, github_purpose, idp_purpose,
}

-- A provider's slug.
abbrev pub IsIdp : Purpose → Type 0
IsIdp p = (slug : String) × (is_slug slug ≡ true) × (p ≡ idp_purpose slug)

-- At most one purpose, and an identity provider only by its slug.
abbrev pub IsPurpose : Purpose → Type 0
IsPurpose p = (p ≡ no_purpose) ⊎ ((p ≡ admin_purpose) ⊎ ((p ≡ github_purpose) ⊎ IsIdp p))

try_github-IsPurpose :
    (payload : String) (o : Option String) (r : String) (p : Purpose)
    → try_github payload o ≡ some (r, p)
    → IsPurpose p
unfolding try_github
try_github-IsPurpose payload none r p e = inl cc
try_github-IsPurpose payload (some rest) r p e = go (leb 2 (count_char ":" rest)) e
  where
    go :
        (b : Bool)
        → Path
            (Option (String × Purpose))
            (if b then some (rest, github_purpose) else some (payload, no_purpose))
            (some (r, p))
        → IsPurpose p
    go true h = inr (inr (inl cc))
    go false h = inl cc

try_admin-IsPurpose :
    (payload : String) (o : Option String) (r : String) (p : Purpose)
    → try_admin payload o ≡ some (r, p)
    → IsPurpose p
unfolding try_admin
try_admin-IsPurpose payload none r p e = try_github-IsPurpose payload _ r p e
try_admin-IsPurpose payload (some rest) r p e = go (leb 2 (count_char ":" rest)) e
  where
    go :
        (b : Bool)
        → Path
            (Option (String × Purpose))
            (if b
              then some (rest, admin_purpose)
              else try_github payload (cut_suffix payload ":github"))
            (some (r, p))
        → IsPurpose p
    go true h = inr (inl cc)
    go false h = try_github-IsPurpose payload _ r p h

idp-IsIdp :
    (payload rest slug r : String) (p : Purpose)
    → read_idp payload rest (some slug) ≡ some (r, p)
    → IsIdp p
unfolding read_idp
idp-IsIdp payload rest slug r p e =
    let (slugged, taken) = when-some (is_slug slug) (some (rest, idp_purpose slug)) (r, p) e in
    (slug, slugged, cc)

idp-IsPurpose :
    (payload rest : String) (o : Option String) (r : String) (p : Purpose)
    → read_idp payload rest o ≡ some (r, p)
    → IsPurpose p
unfolding read_idp read_word
idp-IsPurpose payload rest none r p e = try_admin-IsPurpose payload _ r p e
idp-IsPurpose payload rest (some slug) r p e = inr (inr (inr (idp-IsIdp payload rest slug r p e)))

pub read_purpose-IsPurpose :
    (payload : String) (o : Option (String × String)) (r : String) (p : Purpose)
    → read_purpose_cut payload o ≡ some (r, p)
    → IsPurpose p
unfolding read_purpose_cut read_word
read_purpose-IsPurpose payload none r p e = try_admin-IsPurpose payload _ r p e
read_purpose-IsPurpose payload (some (rest, last)) r p e = idp-IsPurpose payload rest _ r p e

module _ (env : Env) (secret : String) where
  -- Where the last segment starts with `idp=`, the purpose is a provider.
  pub follows-IsIdp :
      (payload : String) (o : Option (String × String)) (r : String) (p : Purpose)
      → follows_idp env secret o ≡ true
      → read_purpose_cut payload o ≡ some (r, p)
      → IsIdp p
  unfolding follows_idp read_purpose_cut
  follows-IsIdp payload none r p h e = cc
  follows-IsIdp payload (some (rest, last)) r p h e = go (cut_prefix "idp=" last) h e
    where
      go : (o : Option String) → is_some o ≡ true → read_idp payload rest o ≡ some (r, p) → IsIdp p
      go none h' e' = cc
      go (some slug) h' e' = idp-IsIdp payload rest slug r p e'

  -- What is left of a payload with a link ends with a provider's segment.
  abbrev Leads : String → ℕ → Type 0
  Leads text link = (link ≡ 0) ⊎ (follows_idp env secret (cut_last ":" text) ≡ true)

  link_id-Leads :
      (rest digits : String) (o : Option ℤ) (r : String) (link : ℕ)
      → read_link_id env secret rest digits o ≡ some (r, link)
      → Leads r link
  unfolding read_link_id
  link_id-Leads rest digits none r link e = cc
  link_id-Leads rest digits (some (negsuc n)) r link e = cc
  link_id-Leads rest digits (some (pos id)) r link e =
      let (passed, taken) = unless-some _ (some (rest, id)) (r, link) e in
      let front : r ≡ rest = cc in inr (rw front (ground arith))

  link_segment-Leads :
      (payload rest : String) (o : Option String) (r : String) (link : ℕ)
      → read_link_segment env secret payload rest o ≡ some (r, link)
      → Leads r link
  unfolding read_link_segment
  link_segment-Leads payload rest none r link e = inl cc
  link_segment-Leads payload rest (some digits) r link e =
      link_id-Leads rest digits (env.parse_int64 digits) r link e

  pub read_link-Leads :
      (payload : String) (o : Option (String × String)) (r : String) (link : ℕ)
      → read_link_cut env secret payload o ≡ some (r, link)
      → Leads r link
  unfolding read_link_cut
  read_link-Leads payload none r link e = inl cc
  read_link-Leads payload (some (rest, last)) r link e =
      link_segment-Leads payload rest (cut_prefix "link=" last) r link e
