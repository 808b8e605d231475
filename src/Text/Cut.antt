-- ===== src/Text/Cut.antt =====
-- Texts that are cut at a separator (`LastIndex`, `CutSuffix`, `HasPrefix` and `Count` of Go's
-- `strings` package), and how they are put together again.
use Prim.Native.String.{[], ◌∷◌, ◌++◌}
use Prim.Native.String.append.{nil, cons}
use kauth_go.Prelude.{
  ℕ, ◌+◌, ◌≡◌, ◌≢◌, refl, ap, ◌∙◌, Char, code, String, Bool, true, false, not, ◌&&◌, Option, none,
  some, ◌==◌, leb, if◌then◌else◌, Bool-cases, inl, inr, arith, eq_iff, eq_refl,
}

-- Are the characters the same?
abbrev pub same : Char → Char → Bool
same a b = a ∷ [] == b ∷ []

-- What stands before and after the last separator of `c ∷ s`, given that of `s`.
unfoldable pub extend_cut :
    Bool → Char → String → Option (String × String) → Option (String × String)
extend_cut hit c s (some (before, after)) = some (c ∷ before, after)
extend_cut hit c s none = if hit then some ([], s) else none

-- s[:i] and s[i+1:] for i = strings.LastIndex(s, sep); `none` is -1.
unfoldable pub cut_last : Char → String → Option (String × String)
unfolding extend_cut
cut_last sep [] = none
cut_last sep (c ∷ s) = extend_cut (same c sep) c s (cut_last sep s)

-- strings.CutPrefix.
unfoldable pub cut_prefix : String → String → Option String
cut_prefix [] s = some s
cut_prefix (p ∷ ps) [] = none
cut_prefix (p ∷ ps) (c ∷ s) = let rest = cut_prefix ps s in if same p c then rest else none

unfoldable pub put_before : Char → Option String → Option String
put_before c none = none
put_before c (some s) = some (c ∷ s)

-- strings.CutSuffix, for a suffix that is not empty.
unfoldable pub cut_suffix : String → String → Option String
unfolding put_before
cut_suffix [] t = none
cut_suffix (c ∷ s) t =
    let rest = cut_suffix s t in if c ∷ s == t then some [] else put_before c rest

-- strings.Count of one character.
unfoldable pub count_char : Char → String → ℕ
count_char sep [] = 0
count_char sep (c ∷ s) = (if same c sep then 1 else 0) + count_char sep s

-- Every character is a decimal digit.
unfoldable pub is_digits : String → Bool
is_digits [] = true
is_digits (c ∷ s) = (leb b'0' (code c) && leb (code c) b'9') && is_digits s

-- No character is `sep`.
unfoldable pub is_free_of : Char → String → Bool
is_free_of sep [] = true
is_free_of sep (c ∷ s) = not (same c sep) && is_free_of sep s

-- a + ":" + b
abbrev pub joined : String → String → String
joined a b = a ++ ":" ++ b

pub one-append : (c : Char) (b : String) → (c ∷ []) ++ b ≡ c ∷ b
one-append c b = cons c [] b ∙ ap (λ (t : String). c ∷ t) (nil b)

pub same-eq : (a b : Char) → same a b ≡ true → a ≡ b
same-eq a b h = let eq : a ∷ [] ≡ b ∷ [] = ground (arith, eq_iff (a ∷ []) (b ∷ [])) in cc

pub is_digits-is_free_of : (s : String) → is_digits s ≡ true → is_free_of ":" s ≡ true
unfolding is_digits is_free_of
is_digits-is_free_of [] h = refl
is_digits-is_free_of (c ∷ s) h = elim (Bool-cases (same c ":")) [
  | inl hit ↦ let is : c ≡ ":" = same-eq c ":" hit in absurd (colon_no_digit (rw is at h))
  | inr miss ↦ ground (arith, is_digits-is_free_of s)
]
  where
    colon_no_digit : ((leb b'0' b':' && leb b':' b'9') && is_digits s) ≢ true
    colon_no_digit e = cc

module _ (sep : Char) where
  pub cut_last-is_free_of : (b : String) → is_free_of sep b ≡ true → cut_last sep b ≡ none
  unfolding cut_last is_free_of extend_cut
  cut_last-is_free_of [] h = refl
  cut_last-is_free_of (c ∷ s) h = ground (arith, cut_last-is_free_of s)

  pub cut_last-append :
      (a b : String) → is_free_of sep b ≡ true → cut_last sep (a ++ (sep ∷ b)) ≡ some (a, b)
  unfolding cut_last extend_cut
  cut_last-append [] b h = rw (nil (sep ∷ b), cut_last-is_free_of b h, eq_refl (sep ∷ [])) refl
  cut_last-append (d ∷ a) b h = rw (cons d a (sep ∷ b), cut_last-append a b h) refl

  cut_last_sound : (s a b : String) → cut_last sep s ≡ some (a, b) → s ≡ a ++ (sep ∷ b)
  unfolding cut_last extend_cut
  cut_last_sound [] a b e = cc
  cut_last_sound (c ∷ s) a b e = go (cut_last sep s) (cut_last_sound s) refl (same c sep) refl e
    where
      go :
          (o : Option (String × String))
          → ((x y : String) → cut_last sep s ≡ some (x, y) → s ≡ x ++ (sep ∷ y))
          → cut_last sep s ≡ o
          → (hit : Bool) → same c sep ≡ hit
          → extend_cut hit c s o ≡ some (a, b)
          → c ∷ s ≡ a ++ (sep ∷ b)
      go (some (x, y)) ih f hit g h =
          let front : a ≡ c ∷ x = cc in
          let back : b ≡ y = cc in
          rw (front, back, cons c x (sep ∷ y)) (ap (λ (t : String). c ∷ t) (ih x y f))
      go none ih f true g h =
          let front : a ≡ [] = cc in
          let back : b ≡ s = cc in
          let is = same-eq c sep g in rw (front, back, nil (sep ∷ s), is) refl
      go none ih f false g h = cc

pub cut_last-whole :
    (sep : Char) (s a b : String) → cut_last sep s ≡ some (a, b) → s ≡ a ++ (sep ∷ []) ++ b
cut_last-whole sep s a b e = cut_last_sound sep s a b e ∙ rw (one-append sep b) refl

pub cut_last-joined :
    (a b : String) → is_free_of ":" b ≡ true → cut_last ":" (joined a b) ≡ some (a, b)
cut_last-joined a b h = rw (one-append ":" b) (cut_last-append ":" a b h)

pub count_char-append :
    (sep : Char) (a b : String) → count_char sep (a ++ b) ≡ count_char sep a + count_char sep b
unfolding count_char
count_char-append sep [] b = rw (nil b) (omega arith)
count_char-append sep (c ∷ a) b = rw (cons c a b, count_char-append sep a b) (omega arith)

pub cut_prefix-append : (p s : String) → cut_prefix p (p ++ s) ≡ some s
unfolding cut_prefix
cut_prefix-append [] s = rw (nil s) refl
cut_prefix-append (c ∷ p) s = rw (cons c p s, cut_prefix-append p s, eq_refl (c ∷ [])) refl

pub cut_suffix_sound : (s t r : String) → cut_suffix s t ≡ some r → s ≡ r ++ t
unfolding cut_suffix put_before
cut_suffix_sound [] t r e = cc
cut_suffix_sound (c ∷ s) t r e = go (c ∷ s == t) refl (cut_suffix s t) (cut_suffix_sound s t) refl e
  where
    go :
        (hit : Bool)
        → (c ∷ s == t) ≡ hit
        → (o : Option String) → ((x : String) → cut_suffix s t ≡ some x → s ≡ x ++ t)
        → cut_suffix s t ≡ o
        → (if hit then some [] else put_before c o) ≡ some r
        → c ∷ s ≡ r ++ t
    go true g o ih f h =
        let front : r ≡ [] = cc in
        let whole : c ∷ s ≡ t = ground (arith, eq_iff (c ∷ s) t) in rw (front, nil t) whole
    go false g none ih f h = cc
    go false g (some x) ih f h =
        let front : r ≡ c ∷ x = cc in rw (front, cons c x t) (ap (λ (u : String). c ∷ u) (ih x f))

pub cut_prefix_sound : (p s r : String) → cut_prefix p s ≡ some r → s ≡ p ++ r
unfolding cut_prefix
cut_prefix_sound [] s r e = rw (nil r) cc
cut_prefix_sound (p ∷ ps) [] r e = cc
cut_prefix_sound (p ∷ ps) (c ∷ s) r e = go (same p c) refl e (cut_prefix_sound ps s r)
  where
    go :
        (hit : Bool)
        → same p c ≡ hit
        → (if hit then cut_prefix ps s else none) ≡ some r
        → (cut_prefix ps s ≡ some r → s ≡ ps ++ r)
        → c ∷ s ≡ (p ∷ ps) ++ r
    go false g h ih = cc
    go true g h ih = rw (cons p ps r, same-eq p c g) (ap (λ (u : String). c ∷ u) (ih h))
