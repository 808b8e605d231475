-- ===== src/Auth/State/Parts.antt =====
-- The parts of a payload that `parse_state` reads, put together again.
use Prim.Native.String.{◌++◌}
use kauth_go.Prelude.{
  ℕ, ◌≡◌, refl, ℤ, pos, negsuc, String, Bool, true, false, Option, none, some, ◌==◌, eqb, leb,
  if◌then◌else◌, arith, eq_iff, unless-some, when-some,
}
use kauth_go.Env.{Env}
use kauth_go.Text.Cut.{
  cut_prefix, cut_suffix, count_char, joined, cut_prefix_sound, cut_suffix_sound,
}
use kauth_go.Auth.State.Read.{slug_named}
use kauth_go.Auth.State.{
  StateClaims, is_slug, read_link_cut, read_link_segment, read_link_id, read_purpose_cut, read_idp,
  read_word, try_admin, try_github, Purpose, no_purpose, admin_purpose, github_purpose, idp_purpose,
}

-- The payload that the claims are read from, with `text` where the purpose is not yet.
unfoldable pub purposed : Purpose → String → String
purposed p text =
    if p.admin
    then joined text "admin"
    else if p.github
    then joined text "github"
    else if p.idp == ""
    then text
    else joined text ("idp=" ++ p.idp)

unfoldable pub linked : Env → ℕ → String → String
linked env link text = if eqb link 0 then text else joined text ("link=" ++ env.decimal link)

module _ (env : Env) (secret : String) where
  record IsLink (rest digits r : String) (link : ℕ) : Type 0 where
    same_rest : r ≡ rest
    positive : eqb link 0 ≡ false
    canonical : env.decimal link ≡ digits

  read_link_id_sound :
      (rest digits : String) (o : Option ℤ) (r : String) (link : ℕ)
      → read_link_id env secret rest digits o ≡ some (r, link)
      → IsLink rest digits r link
  unfolding read_link_id
  read_link_id_sound rest digits none r link e = cc
  read_link_id_sound rest digits (some (negsuc n)) r link e = cc
  read_link_id_sound rest digits (some (pos id)) r link e =
      let (passed, taken) = unless-some _ (some (rest, id)) (r, link) e in
      let same_id : link ≡ id = cc in
      rw same_id (record {
        same_rest = cc;
        positive = ground arith;
        canonical = ground (arith, eq_iff (env.decimal id) digits);
      })

  read_link_segment_sound :
      (payload rest last : String) (o : Option String) (r : String) (link : ℕ)
      → payload ≡ joined rest last
      → ((d : String) → o ≡ some d → last ≡ "link=" ++ d)
      → read_link_segment env secret payload rest o ≡ some (r, link)
      → payload ≡ linked env link r
  unfolding read_link_segment linked
  read_link_segment_sound payload rest last none r link whole back e =
      let zeroed : link ≡ 0 = cc in rw zeroed cc
  read_link_segment_sound payload rest last (some digits) r link whole back e =
      let is = read_link_id_sound rest digits (env.parse_int64 digits) r link e in
      rw (is.positive, whole, back digits refl, is.canonical, is.same_rest) refl

  pub read_link_sound :
      (payload : String) (o : Option (String × String)) (r : String) (link : ℕ)
      → ((a b : String) → o ≡ some (a, b) → payload ≡ joined a b)
      → read_link_cut env secret payload o ≡ some (r, link)
      → payload ≡ linked env link r
  unfolding read_link_cut linked
  read_link_sound payload none r link back e = let zeroed : link ≡ 0 = cc in rw zeroed cc
  read_link_sound payload (some (rest, last)) r link back e =
      read_link_segment_sound payload rest last (cut_prefix "link=" last) r link
        (back rest last refl) (cut_prefix_sound "link=" last) e

no_purpose-purposed :
    (payload r : String) (p : Purpose)
    → Path (Option (String × Purpose)) (some (payload, no_purpose)) (some (r, p))
    → payload ≡ purposed p r
unfolding purposed
no_purpose-purposed payload r p e = let is : p ≡ no_purpose = cc in rw is cc

try_github_sound :
    (payload : String) (o : Option String) (r : String) (p : Purpose)
    → ((a : String) → o ≡ some a → payload ≡ joined a "github")
    → try_github payload o ≡ some (r, p)
    → payload ≡ purposed p r
unfolding try_github purposed
try_github_sound payload none r p back e = no_purpose-purposed payload r p e
try_github_sound payload (some rest) r p back e = go (leb 2 (count_char ":" rest)) e
  where
    found :
        Path (Option (String × Purpose)) (some (rest, github_purpose)) (some (r, p))
        → payload ≡ purposed p r
    found h =
        let is : p ≡ github_purpose = cc in
        let front : r ≡ rest = cc in rw (is, front) (back rest refl)

    go :
        (b : Bool)
        → Path
            (Option (String × Purpose))
            (if b then some (rest, github_purpose) else some (payload, no_purpose))
            (some (r, p))
        → payload ≡ purposed p r
    go true h = found h
    go false h = no_purpose-purposed payload r p h

read_github :
    (payload r : String) (p : Purpose)
    → try_github payload (cut_suffix payload ":github") ≡ some (r, p)
    → payload ≡ purposed p r
read_github payload r p =
    try_github_sound payload (cut_suffix payload ":github") r p (cut_suffix_sound payload ":github")

read_word_sound :
    (payload : String) (o : Option String) (r : String) (p : Purpose)
    → ((a : String) → o ≡ some a → payload ≡ joined a "admin")
    → try_admin payload o ≡ some (r, p)
    → payload ≡ purposed p r
unfolding try_admin purposed
read_word_sound payload none r p back e = read_github payload r p e
read_word_sound payload (some rest) r p back e = go (leb 2 (count_char ":" rest)) e
  where
    found :
        Path (Option (String × Purpose)) (some (rest, admin_purpose)) (some (r, p))
        → payload ≡ purposed p r
    found h =
        let is : p ≡ admin_purpose = cc in
        let front : r ≡ rest = cc in rw (is, front) (back rest refl)

    go :
        (b : Bool)
        → Path
            (Option (String × Purpose))
            (if b
              then some (rest, admin_purpose)
              else try_github payload (cut_suffix payload ":github"))
            (some (r, p))
        → payload ≡ purposed p r
    go true h = found h
    go false h = read_github payload r p h

read_idp_sound :
    (payload rest last : String) (o : Option String) (r : String) (p : Purpose)
    → payload ≡ joined rest last
    → ((d : String) → o ≡ some d → last ≡ "idp=" ++ d)
    → read_idp payload rest o ≡ some (r, p)
    → payload ≡ purposed p r
unfolding read_idp read_word purposed
read_idp_sound payload rest last none r p whole back e =
    read_word_sound payload (cut_suffix payload ":admin") r p (cut_suffix_sound payload ":admin") e
read_idp_sound payload rest last (some slug) r p whole back e =
    let (slugged, taken) = when-some (is_slug slug) (some (rest, idp_purpose slug)) (r, p) e in
    let is : p ≡ idp_purpose slug = cc in
    let front : r ≡ rest = cc in rw (is, front, slug_named slug slugged, whole, back slug refl) refl

pub read_purpose_sound :
    (payload : String) (o : Option (String × String)) (r : String) (p : Purpose)
    → ((a b : String) → o ≡ some (a, b) → payload ≡ joined a b)
    → read_purpose_cut payload o ≡ some (r, p)
    → payload ≡ purposed p r
unfolding read_purpose_cut read_word
read_purpose_sound payload none r p back e =
    read_word_sound payload (cut_suffix payload ":admin") r p (cut_suffix_sound payload ":admin") e
read_purpose_sound payload (some (rest, last)) r p back e =
    read_idp_sound payload rest last (cut_prefix "idp=" last) r p (back rest last refl)
      (cut_prefix_sound "idp=" last) e

-- A state's payload, with the text of the time of issue: `service:nonce:iat` and the purpose.
abbrev pub printed : Env → StateClaims → String → String
printed env c iat = linked env c.link (
    purposed (record { admin = c.admin; idp = c.idp; github = c.github })
      (joined (joined c.service_id c.nonce) iat))

abbrev pub purpose_of : StateClaims → Purpose
purpose_of c = record { admin = c.admin; idp = c.idp; github = c.github }
