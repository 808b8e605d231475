-- ===== src/Token/KeyRing.antt =====
-- The ring of signing keys (internal/token/keyring.go). A pointer that may be nil is an `Option`; of
-- a private key the model keeps its public part.
pub mod Distinct
use Prim.Native.String.{[], ◌∷◌, ◌++◌}
use kauth_go.Prelude.{
  ℕ, ◌+◌, ◌^◌, code, String, Bool, true, false, not, ◌&&◌, ◌||◌, Option, none, some, List, ◌==◌,
  eqb, leb, ltb, nat_is, if◌then◌else◌,
}
use kauth_go.Text.{contains}

pub record RsaKey : Type 0 where
  pub modulus : Option ℕ
  pub exponent : ℕ

pub record SigningKey : Type 0 where
  pub kid : String
  pub private : Option RsaKey
  pub public : Option RsaKey

pub record PublicKey : Type 0 where
  pub kid : String
  pub public : Option RsaKey

pub record KeyRing : Type 0 where
  pub current : SigningKey
  pub next_key : Option PublicKey
  pub previous : Option PublicKey

abbrev is_kid_code : ℕ → Bool
is_kid_code c =
    (leb b'A' c && leb c b'Z')
    || (leb b'a' c && leb c b'z')
    || (leb b'0' c && leb c b'9')
    || eqb c b'.'
    || eqb c b'_'
    || eqb c b'-'

all_kid : String → Bool
all_kid [] = true
all_kid (c ∷ s) = is_kid_code (code c) && all_kid s

count : String → ℕ
count [] = 0
count (c ∷ s) = 1 + count s

-- ^[A-Za-z0-9._-]{1,64}$
unfoldable pub valid_kid : String → Bool
unfolding all_kid count
valid_kid kid = leb 1 (count kid) && leb (count kid) 64 && all_kid kid

-- BitLen() < 2048
abbrev pub is_weak : ℕ → Bool
is_weak n = ltb n (2 ^ 2047)

-- What is wrong with the key; `none` is nothing.
unfoldable pub check_pub : String → Option RsaKey → Option String
check_pub kid none = some "offentlig nøkkel mangler"
check_pub kid (some key) = elim key.modulus [
  | none ↦ some "offentlig nøkkel mangler"
  | some n ↦
      if not (valid_kid kid)
      then some "ugyldig kid"
      else if is_weak n
      then some "RSA-nøkkelen er under 2048 bit"
      else none
]

unfoldable pub same_modulus : Option ℕ → Option ℕ → Bool
same_modulus (some m) o = nat_is o m
same_modulus none o = false

-- Of keys with a modulus: `sameKey` is called after checkPub.
unfoldable pub same_key : Option RsaKey → Option RsaKey → Bool
unfolding same_modulus
same_key (some a) (some b) = eqb a.exponent b.exponent && same_modulus a.modulus b.modulus
same_key none _ = false
same_key (some a) none = false

-- The checks of `next` and `previous`, given the kids before it; then `rest`.
unfoldable pub check_entry :
    RsaKey → List String → Option PublicKey → (List String → Option String) → Option String
check_entry current seen none rest = rest seen
check_entry current seen (some k) rest = elim (check_pub k.kid k.public) [
  | some reason ↦ some reason
  | none ↦
      let after = rest (List.◌∷◌ k.kid seen) in
      if contains seen k.kid
      then some "kid er ikke unik"
      else if same_key k.public (some current)
      then some "samme nøkkelmateriale som current"
      else after
]

unfoldable pub public_of : Option PublicKey → Option RsaKey
public_of none = none
public_of (some k) = k.public

unfoldable pub validate_current : KeyRing → Option RsaKey → Option RsaKey → Option String
unfolding check_entry check_pub same_key public_of
validate_current ring none public = some "current: privat nøkkel mangler"
validate_current ring (some private) none = some "offentlig nøkkel mangler"
validate_current ring (some private) (some public) =
    elim (check_pub ring.current.kid (some public)) [
      | some reason ↦ some reason
      | none ↦
          if not (same_key (some private) (some public))
          then some "current: offentlig nøkkel hører ikke til den private"
          else check_entry public (List.◌∷◌ ring.current.kid List.[]) ring.next_key (λ seen.
            check_entry public seen ring.previous (λ _.
              if same_key (public_of ring.next_key) (public_of ring.previous)
              then some "next og previous: samme nøkkelmateriale"
              else none))
    ]

-- Validate; `none` is no error.
unfoldable pub validate : KeyRing → Option String
unfolding validate_current
validate ring = validate_current ring ring.current.private ring.current.public
