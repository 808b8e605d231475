-- ===== src/Auth/State.antt =====
-- The signed `state` of the login flows (internal/auth/state.go). What is signed is
-- `service:nonce:iat` and the flow's purpose; HMAC, base64 and the decimal forms are the
-- environment's.
pub mod Read
pub mod Parts
pub mod Forms
pub mod RoundTrip
pub mod Sound
use Prim.Native.String.{[], ◌∷◌, ◌++◌}
use kauth_go.Prelude.{
  ℕ, ◌+◌, ◌-◌, ℤ, pos, negsuc, Char, code, String, Bool, true, false, not, ◌&&◌, ◌||◌, Option, none,
  some, ◌==◌, eqb, leb, ltb, if◌then◌else◌, is_some,
}
use kauth_go.Env.{Env}
use kauth_go.Text.Cut.{cut_last, cut_prefix, cut_suffix, count_char, joined}

pub record StateClaims : Type 0 where
  pub service_id : String
  pub nonce : String
  pub admin : Bool
  pub idp : String
  pub link : ℕ
  pub github : Bool

abbrev pub state_max_age : ℕ
state_max_age = 600

abbrev pub state_max_skew : ℕ
state_max_skew = 60

-- ^[a-z0-9-]{1,32}$
abbrev is_slug_code : ℕ → Bool
is_slug_code c = (leb b'a' c && leb c b'z') || (leb b'0' c && leb c b'9') || eqb c b'-'

unfoldable pub all_slug : String → Bool
all_slug [] = true
all_slug (c ∷ s) = is_slug_code (code c) && all_slug s

count : String → ℕ
count [] = 0
count (c ∷ s) = 1 + count s

unfoldable pub is_slug : String → Bool
unfolding all_slug count
is_slug s = leb 1 (count s) && leb (count s) 32 && all_slug s

-- What every payload starts with, of a state that is issued at `now`.
abbrev pub base : Env → ℕ → String → String → String
base env now service_id nonce = joined (joined service_id nonce) (env.decimal now)

module _ (env : Env) (secret : String) where
  abbrev pub compute_hmac : String → String
  compute_hmac payload = env.hmac_hex secret payload

  unfoldable pub sign_state_payload : String → String
  sign_state_payload payload = env.base64url (payload ++ "." ++ compute_hmac payload)

  module _ (now : ℕ) (service_id nonce : String) where
    unfoldable pub sign_state : String
    sign_state = sign_state_payload (base env now service_id nonce)

    unfoldable pub sign_admin_state : String
    sign_admin_state = sign_state_payload (joined (base env now service_id nonce) "admin")

    unfoldable pub sign_idp_state : String → String
    sign_idp_state slug =
        sign_state_payload (joined (base env now service_id nonce) ("idp=" ++ slug))

    unfoldable pub sign_link_state : String → ℕ → String
    sign_link_state slug invite = sign_state_payload (
        joined (joined (base env now service_id nonce) ("idp=" ++ slug))
          ("link=" ++ env.decimal invite))

    unfoldable pub sign_github_state : String
    sign_github_state = sign_state_payload (joined (base env now service_id nonce) "github")

  -- A link suffix wants `idp=` in the segment before it.
  unfoldable pub follows_idp : Option (String × String) → Bool
  follows_idp none = false
  follows_idp (some (before, last)) = is_some (cut_prefix "idp=" last)

  unfoldable pub read_link_id : String → String → Option ℤ → Option (String × ℕ)
  unfolding follows_idp
  read_link_id rest digits none = none
  read_link_id rest digits (some (negsuc n)) = none
  read_link_id rest digits (some (pos id)) =
      if eqb id 0 || not (env.decimal id == digits) || not (follows_idp (cut_last ":" rest))
      then none
      else some (rest, id)

  -- `payload` less its link suffix, and the invitation's id; `none` refuses the state.
  unfoldable pub read_link_segment : String → String → Option String → Option (String × ℕ)
  unfolding read_link_id
  read_link_segment payload rest none = some (payload, 0)
  read_link_segment payload rest (some digits) = read_link_id rest digits (env.parse_int64 digits)

  unfoldable pub read_link_cut : String → Option (String × String) → Option (String × ℕ)
  unfolding read_link_segment
  read_link_cut payload none = some (payload, 0)
  read_link_cut payload (some (rest, last)) =
      read_link_segment payload rest (cut_prefix "link=" last)

  abbrev pub read_link : String → Option (String × ℕ)
  read_link payload = read_link_cut payload (cut_last ":" payload)

pub record Purpose : Type 0 where
  pub admin : Bool
  pub idp : String
  pub github : Bool

abbrev pub no_purpose : Purpose
no_purpose = record { admin = false; idp = ""; github = false }

abbrev pub admin_purpose : Purpose
admin_purpose = record no_purpose { admin = true }

abbrev pub github_purpose : Purpose
github_purpose = record no_purpose { github = true }

abbrev pub idp_purpose : String → Purpose
idp_purpose slug = record no_purpose { idp = slug }

-- A word at the end counts after three segments only.
unfoldable pub try_github : String → Option String → Option (String × Purpose)
try_github payload none = some (payload, no_purpose)
try_github payload (some rest) =
    if leb 2 (count_char ":" rest) then some (rest, github_purpose) else some (payload, no_purpose)

unfoldable pub try_admin : String → Option String → Option (String × Purpose)
unfolding try_github
try_admin payload none = try_github payload (cut_suffix payload ":github")
try_admin payload (some rest) =
    if leb 2 (count_char ":" rest)
    then some (rest, admin_purpose)
    else try_github payload (cut_suffix payload ":github")

unfoldable pub read_word : String → Option (String × Purpose)
unfolding try_admin
read_word payload = try_admin payload (cut_suffix payload ":admin")

unfoldable pub read_idp : String → String → Option String → Option (String × Purpose)
unfolding read_word
read_idp payload rest none = read_word payload
read_idp payload rest (some slug) = if is_slug slug then some (rest, idp_purpose slug) else none

unfoldable pub read_purpose_cut : String → Option (String × String) → Option (String × Purpose)
unfolding read_word read_idp
read_purpose_cut payload none = read_word payload
read_purpose_cut payload (some (rest, last)) = read_idp payload rest (cut_prefix "idp=" last)

abbrev pub read_purpose : String → Option (String × Purpose)
read_purpose payload = read_purpose_cut payload (cut_last ":" payload)

-- t.Sub(issued) > stateMaxAge || issued.Sub(t) > stateMaxSkew
unfoldable pub is_outside : ℕ → ℤ → Bool
is_outside now (pos issued) = ltb (issued + state_max_age) now || ltb (now + state_max_skew) issued
is_outside now (negsuc n) = ltb state_max_age (now + (n + 1))

abbrev pub claims_of : String → String → Purpose → ℕ → StateClaims
claims_of service_id nonce purpose link = record {
  service_id = service_id;
  nonce = nonce;
  admin = purpose.admin;
  idp = purpose.idp;
  link = link;
  github = purpose.github;
}

module _ (env : Env) (now : ℕ) (link : ℕ) (purpose : Purpose) where
  unfoldable pub read_nonce : ℤ → Option (String × String) → Option StateClaims
  read_nonce issued none = none
  read_nonce issued (some (service_id, nonce)) =
      if is_outside now issued then none else some (claims_of service_id nonce purpose link)

  unfoldable pub read_issued : String → Option ℤ → Option StateClaims
  unfolding read_nonce
  read_issued payload none = none
  read_issued payload (some issued) = read_nonce issued (cut_last ":" payload)

  unfoldable pub read_base : Option (String × String) → Option StateClaims
  unfolding read_issued
  read_base none = none
  read_base (some (payload, iat)) = read_issued payload (env.parse_int64 iat)

module _ (env : Env) (secret : String) (now : ℕ) where
  unfoldable pub with_purpose : ℕ → Option (String × Purpose) → Option StateClaims
  unfolding read_base
  with_purpose link none = none
  with_purpose link (some (payload, purpose)) =
      read_base env now link purpose (cut_last ":" payload)

  unfoldable pub with_link : Option (String × ℕ) → Option StateClaims
  unfolding with_purpose
  with_link none = none
  with_link (some (payload, link)) = with_purpose link (read_purpose payload)

  unfoldable pub check_mac : Option (String × String) → Option StateClaims
  unfolding with_link
  check_mac none = none
  check_mac (some (payload, mac)) =
      if mac == compute_hmac env secret payload
      then with_link (read_link env secret payload)
      else none

  unfoldable pub parse_decoded : Option String → Option StateClaims
  unfolding check_mac
  parse_decoded none = none
  parse_decoded (some raw) = check_mac (cut_last "." raw)

  unfoldable pub parse_state : String → Option StateClaims
  unfolding parse_decoded
  parse_state state = parse_decoded (env.base64url_decode state)

  unfoldable pub plain_service : Option StateClaims → Option String
  plain_service none = none
  plain_service (some c) =
      if c.admin || c.github || not (c.idp == "") || not (eqb c.link 0)
      then none
      else some c.service_id

  unfoldable pub verify_state : String → Option String
  unfolding plain_service
  verify_state state = plain_service (parse_state state)
