-- ===== src/Auth/State/Read.antt =====
-- How `parse_state` reads the parts of a signed payload.
use Prim.Native.String.{[], ◌∷◌, ◌++◌}
use Prim.Native.String.append.{nil, cons}
use text.Mathlib.TextLemmas.{append_cancel_right}
use kauth_go.Prelude.{
  ℕ, ◌+◌, ◌≤◌, ◌<◌, ◌^◌, ◌≡◌, ◌≢◌, refl, ap, sym, ◌∙◌, Char, code, String, Bool, true, false, ◌&&◌,
  ◌||◌, Option, none, some, ◌==◌, eqb, leb, ltb, arith, eq_iff, eq_refl, Bool-cases, inl, inr,
  Option-cases,
}
use kauth_go.Env.{Env, CodecLaws}
use kauth_go.Text.Cut.{
  cut_last, cut_prefix, cut_suffix, count_char, joined, is_free_of, is_digits, is_digits-is_free_of,
  cut_last-append, cut_last-joined, one-append, count_char-append, cut_prefix-append,
  cut_suffix_sound, same, same-eq, put_before,
}
use kauth_go.Auth.State.{
  is_slug, read_link_id, follows_idp, base, compute_hmac, sign_state_payload, read_link,
  read_purpose, Purpose, no_purpose, admin_purpose, github_purpose, idp_purpose, claims_of,
  is_outside, with_link, read_base, read_issued, read_nonce, parse_decoded, check_mac,
  read_purpose_cut, read_idp, read_word, all_slug, parse_state, try_admin, try_github,
  read_link_cut, read_link_segment,
}

-- What does not start with "link=" or "idp=", and has no colon.
record IsPlain (s : String) : Type 0 where
  free : is_free_of ":" s ≡ true
  no_link : cut_prefix "link=" s ≡ none
  no_idp : cut_prefix "idp=" s ≡ none

digits-cut_prefix :
    (p : Char) (ps s : String)
    → (leb b'0' (code p) && leb (code p) b'9') ≡ false
    → is_digits s ≡ true
    → cut_prefix (p ∷ ps) s ≡ none
unfolding cut_prefix is_digits
digits-cut_prefix p ps [] e h = refl
digits-cut_prefix p ps (c ∷ s) e h = elim (Bool-cases (same p c)) [
  | inl hit ↦
      let is = same-eq p c hit in
      let no : (leb b'0' (code c) && leb (code c) b'9') ≡ false = rw (← is) e in ground arith
  | inr miss ↦ rw miss refl
]

digits-IsPlain : (s : String) → is_digits s ≡ true → IsPlain s
digits-IsPlain s h = record {
  free = is_digits-is_free_of s h;
  no_link = digits-cut_prefix "l" "ink=" s refl h;
  no_idp = digits-cut_prefix "i" "dp=" s refl h;
}

cut_suffix-joined :
    (a b word : String)
    → is_free_of ":" b ≡ true
    → is_free_of ":" word ≡ true
    → b ≢ word
    → cut_suffix (joined a b) (":" ∷ word) ≡ none
cut_suffix-joined a b word f g ne = elim (Option-cases (cut_suffix (joined a b) (":" ∷ word))) [
  | inl e ↦ e
  | inr (r, e) ↦
      let whole = cut_suffix_sound (joined a b) (":" ∷ word) r e in
      let here = cut_last-joined a b f in
      let there = cut_last-append ":" r word g in
      let same_cut : Path (Option (String × String)) (some (a, b)) (some (r, word)) =
        sym here ∙ ap (cut_last ":") whole ∙ there in
      let words : b ≡ word = cc in absurd (ne words)
]

cut_suffix-word : (a word : String) → cut_suffix (a ++ (":" ∷ word)) (":" ∷ word) ≡ some a
unfolding cut_suffix put_before
cut_suffix-word [] word = rw (nil (":" ∷ word), eq_refl (":" ∷ word)) refl
cut_suffix-word (c ∷ a) word = rw (cons c a (":" ∷ word), longer, cut_suffix-word a word) refl
  where
    longer : (c ∷ (a ++ (":" ∷ word)) == ":" ∷ word) ≡ false
    longer = elim (Bool-cases (c ∷ (a ++ (":" ∷ word)) == ":" ∷ word)) [
      | inr e ↦ e
      | inl e ↦
          let whole : c ∷ (a ++ (":" ∷ word)) ≡ ":" ∷ word =
            ground (arith, eq_iff (c ∷ (a ++ (":" ∷ word))) (":" ∷ word)) in
          let short =
            append_cancel_right (c ∷ a) [] (":" ∷ word)
              (cons c a (":" ∷ word) ∙ whole ∙ sym (nil (":" ∷ word))) in
          absurd (cc)
    ]

pub read_link-joined :
    (env : Env) (secret a last : String)
    → is_free_of ":" last ≡ true
    → cut_prefix "link=" last ≡ none
    → read_link env secret (joined a last) ≡ some (joined a last, 0)
unfolding read_link_cut read_link_segment
read_link-joined env secret a last free h = rw (cut_last-joined a last free, h) refl

count_char-joined :
    (a b : String) → count_char ":" (joined a b) ≡ count_char ":" a + (1 + count_char ":" b)
unfolding count_char
count_char-joined a b = rw (count_char-append ":" a (":" ++ b), one-append ":" b) (refl)

module _ (env : Env) (secret : String) (laws : CodecLaws env) where
  pub parse_state-signed :
      (now : ℕ) (payload : String)
      → parse_state env secret now (sign_state_payload env secret payload)
        ≡ with_link env secret now (read_link env secret payload)
  unfolding parse_state sign_state_payload parse_decoded check_mac
  parse_state-signed now payload =
      let mac = compute_hmac env secret payload in
      let cut = cut_last-append "." payload mac (laws.hmac-no_dot secret payload) in
      rw (laws.decode-encode (payload ++ "." ++ mac), one-append "." mac, cut, eq_refl mac) refl

-- A state that is 10 minutes old at most and not issued more than a minute ahead. A nonce is
-- hexadecimal.
pub record IsFresh (issued now : ℕ) (nonce : String) : Type 0 where
  pub free : is_free_of ":" nonce ≡ true
  pub small : issued < 2 ^ 63
  pub old : now ≤ issued + 600
  pub ahead : issued ≤ now + 60

module _ (env : Env) (laws : CodecLaws env) where
  pub read_base-fresh :
      {issued now : ℕ} {nonce : String}
      → (service_id : String) → IsFresh issued now nonce
      → (link : ℕ) (purpose : Purpose)
      → read_base env now link purpose (cut_last ":" (base env issued service_id nonce))
        ≡ some (claims_of service_id nonce purpose link)
  unfolding read_base read_issued read_nonce is_outside
  read_base-fresh {issued} {now} {nonce} service_id fresh link purpose =
      let digits = is_digits-is_free_of (env.decimal issued) (laws.decimal-digits issued) in
      let inside : (ltb (issued + 600) now || ltb (now + 60) issued) ≡ false =
        ground (arith, fresh.old, fresh.ahead) in
      rw
        (
          cut_last-joined (joined service_id nonce) (env.decimal issued) digits,
          laws.parse-decimal issued fresh.small,
          cut_last-joined service_id nonce fresh.free,
          inside,
        )
        refl

  pub base_count :
      (issued : ℕ) (service_id nonce : String)
      → leb 2 (count_char ":" (base env issued service_id nonce)) ≡ true
  base_count issued service_id nonce =
      rw
        (
          count_char-joined (joined service_id nonce) (env.decimal issued),
          count_char-joined service_id nonce,
        )
        (ground arith)

  decimal_no_word : (n : ℕ) (word : String) → is_digits word ≡ false → env.decimal n ≢ word
  decimal_no_word n word h e =
      let digits = laws.decimal-digits n in let clash = rw e at digits in cc

  pub read_purpose-base :
      (issued : ℕ) (service_id nonce : String)
      → read_purpose (base env issued service_id nonce)
        ≡ some (base env issued service_id nonce, no_purpose)
  unfolding read_purpose_cut read_idp read_word try_admin try_github is_free_of is_digits
  read_purpose-base issued service_id nonce =
      let iat = env.decimal issued in
      let plain = digits-IsPlain iat (laws.decimal-digits issued) in
      let front = joined service_id nonce in
      rw
        (
          cut_last-joined front iat plain.free,
          plain.no_idp,
          cut_suffix-joined front iat "admin" plain.free refl (decimal_no_word issued "admin" refl),
          cut_suffix-joined front iat "github" plain.free refl
              (decimal_no_word issued "github" refl),
        )
        refl

pub read_purpose-admin :
    (a : String)
    → leb 2 (count_char ":" a) ≡ true
    → read_purpose (joined a "admin") ≡ some (a, admin_purpose)
unfolding read_purpose_cut read_idp read_word try_admin is_free_of cut_prefix
read_purpose-admin a h = rw (cut_last-joined a "admin" refl, cut_suffix-word a "admin", h) refl

is_admin_word : String → Bool
is_admin_word t = t == "admin"

github-ne-admin : Path String "github" "admin" → ⊥
unfolding is_admin_word
github-ne-admin e = let clash : false ≡ true = ap is_admin_word e in cc

pub read_purpose-github :
    (a : String)
    → leb 2 (count_char ":" a) ≡ true
    → read_purpose (joined a "github") ≡ some (a, github_purpose)
unfolding read_purpose_cut read_idp read_word try_admin try_github is_free_of cut_prefix
read_purpose-github a h =
    rw
      (
        cut_last-joined a "github" refl,
        cut_suffix-joined a "github" "admin" refl refl github-ne-admin,
        cut_suffix-word a "github",
        h,
      )
      refl

all_slug-free : (slug : String) → all_slug slug ≡ true → is_free_of ":" slug ≡ true
unfolding all_slug is_free_of
all_slug-free [] h = refl
all_slug-free (c ∷ s) h = elim (Bool-cases (same c ":")) [
  | inl hit ↦ let is = same-eq c ":" hit in let clash = rw is at h in cc
  | inr miss ↦ ground (arith, all_slug-free s)
]

slug-free : (slug : String) → is_slug slug ≡ true → is_free_of ":" slug ≡ true
unfolding is_slug
slug-free slug h = all_slug-free slug (ground arith)

pub idp_free : (slug : String) → is_slug slug ≡ true → is_free_of ":" ("idp=" ++ slug) ≡ true
unfolding is_free_of
idp_free slug h =
    rw (cons "i" "dp=" slug, cons "d" "p=" slug, cons "p" "=" slug, one-append "=" slug)
      (slug-free slug h)

link_free : (s : String) → is_digits s ≡ true → is_free_of ":" ("link=" ++ s) ≡ true
unfolding is_free_of
link_free s h =
    rw (cons "l" "ink=" s, cons "i" "nk=" s, cons "n" "k=" s, cons "k" "=" s, one-append "=" s)
      (is_digits-is_free_of s h)

pub idp_no_link : (slug : String) → cut_prefix "link=" ("idp=" ++ slug) ≡ none
unfolding cut_prefix
idp_no_link slug = rw (cons "i" "dp=" slug) refl

pub slug_named : (slug : String) → is_slug slug ≡ true → (slug == "") ≡ false
unfolding is_slug
slug_named [] h = cc
slug_named (c ∷ s) h = elim (Bool-cases (c ∷ s == "")) [
  | inl hit ↦ let empty : c ∷ s ≡ [] = ground (arith, eq_iff (c ∷ s) "") in cc
  | inr miss ↦ miss
]

pub read_purpose-idp :
    (a slug : String)
    → is_slug slug ≡ true
    → read_purpose (joined a ("idp=" ++ slug)) ≡ some (a, idp_purpose slug)
unfolding read_purpose_cut read_idp
read_purpose-idp a slug h =
    rw (cut_last-joined a ("idp=" ++ slug) (idp_free slug h), cut_prefix-append "idp=" slug, h) refl

module _ (env : Env) (laws : CodecLaws env) (secret : String) where
  pub read_link-base :
      (issued : ℕ) (service_id nonce : String)
      → read_link env secret (base env issued service_id nonce)
        ≡ some (base env issued service_id nonce, 0)
  read_link-base issued service_id nonce =
      let plain = digits-IsPlain (env.decimal issued) (laws.decimal-digits issued) in
      read_link-joined env secret (joined service_id nonce) _ plain.free plain.no_link

  pub read_link-invite :
      (a slug : String) (invite : ℕ)
      → is_slug slug ≡ true
      → eqb invite 0 ≡ false
      → invite < 2 ^ 63
      → read_link env secret (joined (joined a ("idp=" ++ slug)) ("link=" ++ env.decimal invite))
        ≡ some (joined a ("idp=" ++ slug), invite)
  unfolding read_link_cut read_link_segment read_link_id follows_idp
  read_link-invite a slug invite h n small =
      rw
        (
          cut_last-joined (joined a ("idp=" ++ slug)) ("link=" ++ env.decimal invite)
              (link_free (env.decimal invite) (laws.decimal-digits invite)),
          cut_prefix-append "link=" (env.decimal invite),
          laws.parse-decimal invite small,
          cut_last-joined a ("idp=" ++ slug) (idp_free slug h),
          cut_prefix-append "idp=" slug,
          n,
          eq_refl (env.decimal invite),
        )
        refl
