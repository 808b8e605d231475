-- ===== src/Token/Issuer/Verify/Keys.antt =====
-- Which key vouches for an accepted token.
use kauth_go.Prelude.{
  ◌≡◌, ◌≢◌, ◌⊎◌, inl, inr, refl, String, Bool, true, false, Option, none, some, ◌==◌, if◌then◌else◌,
  arith, eq_iff, when-some, unless-some,
}
use kauth_go.Text.{contains}
use kauth_go.Token.KeyRing.{RsaKey, KeyRing, PublicKey, public_of, same_key, validate}
use kauth_go.Token.KeyRing.Distinct.{next_key_apart}
use kauth_go.Token.Issuer.{
  Claims, Kid, absent, no_string, named, Parsed, valid, bad_signature, bad_token, Issuer,
}
use kauth_go.Token.Issuer.Verify.{
  Expect, previous_named, select_key, check_under, fallback, parse_kid, parse, is_expected, accept,
  verify,
}

-- The key has the name: it is the current one, or the previous one.
abbrev pub IsNamed : KeyRing → String → RsaKey → Type 0
IsNamed ring name key =
    ((name ≡ ring.current.kid) × (ring.current.public ≡ some key))
    ⊎ ((k : PublicKey) × (ring.previous ≡ some k) × (name ≡ k.kid) × (k.public ≡ some key))

-- The key is the current or the previous one, and the one that the kid names if there is a kid.
pub record IsKeyOf (ring : KeyRing) (kid : Kid) (key : RsaKey) : Type 0 where
  pub one : (ring.current.public ≡ some key) ⊎ (public_of ring.previous ≡ some key)
  pub by_kid : (name : String) → kid ≡ named name → select_key ring (named name) ≡ some key
  pub named_key : (name : String) → kid ≡ named name → IsNamed ring name key

module _ (iss : Issuer) (token : String) where
  pub record IsVouched (claims : Claims) : Type 0 where
    pub kid : Kid
    pub header : iss.kid_of token ≡ some kid
    pub key : RsaKey
    pub of_ring : IsKeyOf iss.ring kid key
    pub checked : iss.check key token ≡ valid claims

  check_under-valid :
      (o : Option RsaKey) (claims : Claims)
      → check_under iss token o ≡ valid claims
      → (key : RsaKey) × (o ≡ some key) × (iss.check key token ≡ valid claims)
  unfolding check_under
  check_under-valid none claims e = cc
  check_under-valid (some key) claims e = (key, refl, e)

  previous_named-one :
      (o : Option PublicKey) (name : String) (key : RsaKey)
      → previous_named o name ≡ some key
      → public_of o ≡ some key
  unfolding previous_named public_of
  previous_named-one none name key e = cc
  previous_named-one (some k) name key e = (when-some (name == k.kid) k.public key e).1

  previous_named_by :
      (o : Option PublicKey) (name : String) (key : RsaKey)
      → previous_named o name ≡ some key
      → (k : PublicKey) × (o ≡ some k) × (name ≡ k.kid) × (k.public ≡ some key)
  unfolding previous_named
  previous_named_by none name key e = cc
  previous_named_by (some k) name key e =
      let (hit, taken) = when-some (name == k.kid) k.public key e in
      (k, refl, ground (arith, eq_iff name k.kid), taken)

  select_key-IsKeyOf :
      (kid : Kid) (key : RsaKey) → select_key iss.ring kid ≡ some key → IsKeyOf iss.ring kid key
  unfolding select_key
  select_key-IsKeyOf absent key e = record {
    one = inl e;
    by_kid = λ name clash. cc;
    named_key = λ name clash. cc;
  }
  select_key-IsKeyOf no_string key e = cc
  select_key-IsKeyOf (named name) key e = record {
    one = go (name == iss.ring.current.kid) e;
    by_kid = λ other same. let is : name ≡ other = cc in rw (← is) e;
    named_key = λ other same.
        let is : name ≡ other = cc in rw (← is) (names (name == iss.ring.current.kid) refl e);
  }
    where
      names :
          (b : Bool)
          → (name == iss.ring.current.kid) ≡ b
          → (if b then iss.ring.current.public else previous_named iss.ring.previous name)
            ≡ some key
          → IsNamed iss.ring name key
      names true f h = inl (ground (arith, eq_iff name iss.ring.current.kid), h)
      names false f h = inr (previous_named_by iss.ring.previous name key h)

      go :
          (b : Bool)
          → (if b then iss.ring.current.public else previous_named iss.ring.previous name)
            ≡ some key
          → (iss.ring.current.public ≡ some key) ⊎ (public_of iss.ring.previous ≡ some key)
      go true h = inl h
      go false h = inr (previous_named-one iss.ring.previous name key h)

  first_check :
      (kid : Kid) (claims : Claims)
      → iss.kid_of token ≡ some kid
      → check_under iss token (select_key iss.ring kid) ≡ valid claims
      → IsVouched claims
  first_check kid claims f e =
      let (key, chosen, checked) = check_under-valid (select_key iss.ring kid) claims e in
      record {
        kid = kid;
        header = f;
        key = key;
        of_ring = select_key-IsKeyOf kid key chosen;
        checked = checked;
      }

  second_check :
      (k : PublicKey) (claims : Claims)
      → iss.kid_of token ≡ some absent
      → iss.ring.previous ≡ some k
      → check_under iss token k.public ≡ valid claims
      → IsVouched claims
  unfolding public_of
  second_check k claims f g e =
      let (key, chosen, checked) = check_under-valid k.public claims e in
      record {
        kid = absent;
        header = f;
        key = key;
        of_ring = record {
          one = inr (rw g chosen);
          by_kid = λ name clash. cc;
          named_key = λ name clash. cc;
        };
        checked = checked;
      }

  fallback-IsVouched :
      (previous : Option PublicKey) (kid : Kid) (p : Parsed) (claims : Claims)
      → iss.ring.previous ≡ previous
      → iss.kid_of token ≡ some kid
      → check_under iss token (select_key iss.ring kid) ≡ p
      → fallback iss token previous kid p ≡ some claims
      → IsVouched claims
  unfolding fallback
  fallback-IsVouched previous kid (valid c) claims g f h e =
      let same : c ≡ claims = cc in first_check kid claims f (rw same at h)
  fallback-IsVouched previous kid bad_token claims g f h e = cc
  fallback-IsVouched none kid bad_signature claims g f h e = cc
  fallback-IsVouched (some k) no_string bad_signature claims g f h e = cc
  fallback-IsVouched (some k) (named name) bad_signature claims g f h e = cc
  fallback-IsVouched (some k) absent bad_signature claims g f h e =
      go (check_under iss token k.public) refl e
    where
      go :
          (p : Parsed)
          → check_under iss token k.public ≡ p
          → Path
              (Option Claims)
              (elim p [ valid c ↦ some c | bad_signature ↦ none | bad_token ↦ none ])
              (some claims)
          → IsVouched claims
      go (valid c) t u = let same : c ≡ claims = cc in second_check k claims f g (rw same at t)
      go bad_signature t u = cc
      go bad_token t u = cc

  parse-IsVouched :
      (o : Option Kid) (claims : Claims)
      → iss.kid_of token ≡ o
      → parse_kid iss token o ≡ some claims
      → IsVouched claims
  unfolding parse_kid
  parse-IsVouched none claims f e = cc
  parse-IsVouched (some kid) claims f e =
      fallback-IsVouched iss.ring.previous kid _ claims refl f refl e

  -- An accepted token is checked under the current or the previous key, under the one that its kid
  -- names if it has a kid, and has the purpose and, if one is asked for, the audience.
  pub record IsAccepted (expect : Expect) (claims : Claims) : Type 0 where
    pub vouched : IsVouched claims
    pub purpose : claims.token_use ≡ expect.token_use
    pub named_purpose : claims.token_use ≢ ""
    pub audience : expect.audience ≢ "" → contains claims.audience expect.audience ≡ true

  accept-IsAccepted :
      (expect : Expect) (o : Option Claims) (claims : Claims)
      → parse iss token ≡ o
      → (expect.token_use == "") ≡ false
      → accept iss token expect o ≡ some claims
      → IsAccepted expect claims
  unfolding accept is_expected parse
  accept-IsAccepted expect none claims f g e = cc
  accept-IsAccepted expect (some c) claims f g e =
      let (fits, taken) = when-some _ (some c) claims e in
      let same : c ≡ claims = cc in
      let purpose : claims.token_use ≡ expect.token_use =
        rw (← same) (ground (arith, eq_iff c.token_use expect.token_use)) in
      record {
        vouched = parse-IsVouched (iss.kid_of token) claims refl (rw same at f);
        purpose = purpose;
        named_purpose = λ empty. ground (arith, eq_iff expect.token_use "");
        audience = λ ne. rw (← same) (ground (arith, eq_iff expect.audience ""));
      }

-- Every token that `Verify` accepts is vouched for by a key as `IsAccepted` says.
pub verify-IsAccepted :
    (iss : Issuer) (token : String) (expect : Expect) (claims : Claims)
    → verify iss token expect ≡ some claims
    → IsAccepted iss token expect claims
unfolding verify
verify-IsAccepted iss token expect claims e =
    let (named_use, taken) =
      unless-some (expect.token_use == "") (accept iss token expect (parse iss token)) claims e in
    accept-IsAccepted iss token expect (parse iss token) claims refl named_use taken

-- With a ring that `Validate` accepts, no token is accepted because of the next key: the key that
-- it was checked under is another one.
pub verify_not_next :
    (iss : Issuer) (token : String) (expect : Expect) (claims : Claims) (k : PublicKey)
    → validate iss.ring ≡ none
    → iss.ring.next_key ≡ some k
    → verify iss token expect ≡ some claims
    → (key : RsaKey) × (iss.check key token ≡ valid claims) × (same_key k.public (some key) ≡ false)
verify_not_next iss token expect claims k ok_ring f e =
    let got = (verify-IsAccepted iss token expect claims e).vouched in
    let apart = next_key_apart iss.ring k ok_ring f in
    (
      got.key,
      got.checked,
      elim got.of_ring.one [
        | inl current ↦ rw (← current) apart.0
        | inr previous ↦ rw (← previous) apart.1
      ],
    )
