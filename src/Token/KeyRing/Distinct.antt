-- ===== src/Token/KeyRing/Distinct.antt =====
-- The next key of a valid ring is none of the keys that tokens are checked under.
use kauth_go.Prelude.{
  ◌≡◌, refl, String, Bool, true, false, Option, none, some, List, [], ◌∷◌, if◌then◌else◌, arith,
}
use kauth_go.Text.{contains}
use kauth_go.Token.KeyRing.{
  RsaKey, PublicKey, KeyRing, check_pub, same_key, check_entry, public_of, validate_current,
  validate,
}

-- What a passed check of an entry says.
entry_passed :
    (current : RsaKey) (seen : List String) (k : PublicKey) (rest : List String → Option String)
    → check_entry current seen (some k) rest ≡ none
    → (same_key k.public (some current) ≡ false) × (rest (k.kid ∷ seen) ≡ none)
unfolding check_entry
entry_passed current seen k rest e =
    go (check_pub k.kid k.public) (contains seen k.kid) (same_key k.public (some current)) e
  where
    go :
        (o : Option String) (twice same : Bool)
        → (elim o [
          | some reason ↦ some reason
          | none ↦
              if twice
              then some "kid er ikke unik"
              else if same
              then some "samme nøkkelmateriale som current"
              else rest (k.kid ∷ seen)
        ])
          ≡ none
        → (same ≡ false) × (rest (k.kid ∷ seen) ≡ none)
    go (some reason) twice same h = cc
    go none true same h = cc
    go none false true h = cc
    go none false false h = (refl, h)

rest_passed :
    (current : RsaKey) (seen : List String) (o : Option PublicKey) (b : Bool) (reason : String)
    → check_entry current seen o (λ _. if b then some reason else none) ≡ none
    → b ≡ false
unfolding check_entry
rest_passed current seen none true reason e = cc
rest_passed current seen none false reason e = refl
rest_passed current seen (some k) b reason e =
    let passed = entry_passed current seen k (λ _. if b then some reason else none) e in
    ground (arith, passed.1)

entries_passed :
    (o : Option String) (b : Bool) (reason : String) (rest : Option String)
    → (elim o [ some r ↦ some r | none ↦ if b then some reason else rest ]) ≡ none
    → rest ≡ none
entries_passed (some r) b reason rest e = cc
entries_passed none true reason rest e = cc
entries_passed none false reason rest e = e

-- A ring that `Validate` accepts has a next key apart from its current and its previous key.
pub next_key_apart :
    (ring : KeyRing) (k : PublicKey)
    → validate ring ≡ none
    → ring.next_key ≡ some k
    → (same_key k.public ring.current.public ≡ false)
      × (same_key k.public (public_of ring.previous) ≡ false)
unfolding validate validate_current public_of
next_key_apart ring k e f = go ring.current.private ring.current.public e
  where
    Apart : PublicKey → Option RsaKey → Type 0
    Apart n public =
        (same_key n.public public ≡ false) × (same_key n.public (public_of ring.previous) ≡ false)

    last : Option PublicKey → RsaKey → List String → Option String
    last nk public seen = check_entry public seen ring.previous (λ _.
        if same_key (public_of nk) (public_of ring.previous)
        then some "next og previous: samme nøkkelmateriale"
        else none)

    entries : Option PublicKey → RsaKey → Option String
    entries nk public = check_entry public (ring.current.kid ∷ []) nk (last nk public)

    apart :
        (nk : Option PublicKey) (public : RsaKey)
        → nk ≡ some k
        → entries nk public ≡ none
        → Apart k (some public)
    apart none public g h = cc
    apart (some n) public g h =
        let same : n ≡ k = cc in
        let (current, more) =
          entry_passed public (ring.current.kid ∷ []) n (last (some n) public) h in
        rw (← same) (
          current,
          rest_passed public (n.kid ∷ ring.current.kid ∷ []) ring.previous
              (same_key n.public (public_of ring.previous))
              "next og previous: samme nøkkelmateriale" more,
        )

    go :
        (private public : Option RsaKey)
        → validate_current ring private public ≡ none
        → Apart k public
    go none public h = cc
    go (some private) none h = cc
    go (some private) (some public) h =
        apart ring.next_key public f (entries_passed _ _ _ (entries ring.next_key public) h)
