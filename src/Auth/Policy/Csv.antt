-- ===== src/Auth/Policy/Csv.antt =====
-- The parts of a comma-separated text.
use mathlib.Core.Bool.{Bool-set}
use mathlib.Core.Logic.Or
use mathlib.Core.List.{Mem, mem-cons_self, mem-cons_of_mem, eq-or-mem_of_mem-cons, not-mem-nil}
use Prim.Native.String.{[], ◌∷◌, ◌++◌}
use Prim.Native.String.append.{nil, cons}
use kauth_go.Prelude.{
  ◌≡◌, refl, code, Char, String, Bool, true, false, not, ◌&&◌, ◌||◌, ◌==◌, ◌↔◌, map, All, sym,
  eq_iff, eq_refl, List, eqb, arith, ap, Bool-cases, if◌then◌else◌, inl, inr, ◌∙◌,
}
use mathlib.Core.List.{◌++◌ as ◌⧺◌}
use kauth_go.Text.{split, extend_first, trim_space}
use kauth_go.Auth.Policy.{csv_has_exact, has_part}

-- A split text has a first part.
record HasFirst (ps : List String) : Type 0 where
  head : String
  tail : List String
  whole : ps ≡ List.◌∷◌ head tail

extend_first-HasFirst : (c : Char) (ps : List String) → HasFirst (extend_first c ps)
unfolding extend_first
extend_first-HasFirst c List.[] = record { head = c ∷ []; tail = List.[]; whole = refl }
extend_first-HasFirst c (List.◌∷◌ p ps) = record { head = c ∷ p; tail = ps; whole = refl }

split-HasFirst : (a : String) → HasFirst (split b',' a)
unfolding split
split-HasFirst [] = record { head = ""; tail = List.[]; whole = refl }
split-HasFirst (c ∷ s) = go (eqb (code c) b',')
  where
    go :
        (b : Bool)
        → HasFirst (if b then List.◌∷◌ "" (split b',' s) else extend_first c (split b',' s))
    go true = record { head = ""; tail = split b',' s; whole = refl }
    go false = extend_first-HasFirst c (split b',' s)

extend_first-append :
    (c : Char) (ps qs : List String)
    → HasFirst ps
    → extend_first c (ps ⧺ qs) ≡ extend_first c ps ⧺ qs
unfolding extend_first
extend_first-append c List.[] qs f = let clash = f.whole in cc
extend_first-append c (List.◌∷◌ p ps) qs f = refl

comma-append : (b : String) → "," ++ b ≡ "," ∷ b
comma-append b = cons "," [] b ∙ ap (λ (t : String). "," ∷ t) (nil b)

split-comma : (a b : String) → split b',' (a ++ "," ++ b) ≡ split b',' a ⧺ split b',' b
unfolding split
split-comma [] b = rw (nil ("," ++ b), comma-append b) refl
split-comma (c ∷ a) b = elim (Bool-cases (eqb (code c) b',')) [
  | inl hit ↦ rw (cons c a ("," ++ b), hit, split-comma a b) refl
  | inr miss ↦
      rw (cons c a ("," ++ b), miss, split-comma a b) (extend_first-append c _ _ (split-HasFirst a))
]

has_part-append :
    (v : String) (ps qs : List String) → has_part v (ps ⧺ qs) ≡ (has_part v ps || has_part v qs)
unfolding has_part
has_part-append v List.[] qs = refl
has_part-append v (List.◌∷◌ p ps) qs = ground (arith, has_part-append v ps qs)

csv_has_exact-comma :
    (a b value : String)
    → csv_has_exact (a ++ "," ++ b) value ≡ (csv_has_exact a value || csv_has_exact b value)
unfolding csv_has_exact
csv_has_exact-comma a b value =
    rw (split-comma a b) (has_part-append value (split b',' a) (split b',' b))

unfoldable pub has_no_comma : String → Bool
has_no_comma [] = true
has_no_comma (c ∷ s) = not (eqb (code c) b',') && has_no_comma s

-- strings.Join with commas.
unfoldable pub join_commas : String → List String → String
join_commas p List.[] = p
join_commas p (List.◌∷◌ q qs) = p ++ "," ++ join_commas q qs

split-has_no_comma : (p : String) → has_no_comma p ≡ true → split b',' p ≡ List.◌∷◌ p List.[]
unfolding has_no_comma split extend_first
split-has_no_comma [] h = refl
split-has_no_comma (c ∷ s) h =
    let (miss, rest) = not_comma (eqb (code c) b',') (has_no_comma s) h in
    rw (miss, split-has_no_comma s rest) refl
  where
    not_comma : (a b : Bool) → (not a && b) ≡ true → (a ≡ false) × (b ≡ true)
    not_comma true b e = cc
    not_comma false b e = (refl, e)

csv_has_exact-part :
    (p value : String) → has_no_comma p ≡ true → csv_has_exact p value ≡ (trim_space p == value)
unfolding csv_has_exact has_part
csv_has_exact-part p value h = rw (split-has_no_comma p h) (or_false (trim_space p == value))
  where
    or_false : (b : Bool) → (b || false) ≡ b
    or_false true = refl
    or_false false = refl

-- A value is among the trimmed parts.
abbrev IsListed : String → String → List String → Type 0
IsListed value p ps = Mem value (map trim_space (List.◌∷◌ p ps))

part_of_csv :
    (value p : String) (ps : List String)
    → has_no_comma p ≡ true
    → All (λ q. has_no_comma q ≡ true) ps
    → csv_has_exact (join_commas p ps) value ≡ true
    → IsListed value p ps
unfolding join_commas
part_of_csv value p List.[] h hs e =
    let hit : trim_space p == value ≡ true = sym (csv_has_exact-part p value h) ∙ e in
    let same : trim_space p ≡ value = ground (arith, eq_iff (trim_space p) value) in
    rw same mem-cons_self
part_of_csv value p (List.◌∷◌ q qs) h hs e =
    go (trim_space p == value) (csv_has_exact (join_commas q qs) value) refl
      (part_of_csv value q qs hs.0 hs.1)
      (sym (
          csv_has_exact-comma p (join_commas q qs) value
          ∙ ap (λ b. b || csv_has_exact (join_commas q qs) value) (csv_has_exact-part p value h))
        ∙ e)
  where
    go :
        (a b : Bool)
        → (trim_space p == value) ≡ a
        → (b ≡ true → IsListed value q qs)
        → (a || b) ≡ true
        → IsListed value p (List.◌∷◌ q qs)
    go true b hit rest e' =
        let same : trim_space p ≡ value = ground (arith, eq_iff (trim_space p) value) in
        rw same mem-cons_self
    go false b hit rest e' = mem-cons_of_mem (trim_space p) (rest e')

csv_of_part :
    (value p : String) (ps : List String)
    → has_no_comma p ≡ true
    → All (λ q. has_no_comma q ≡ true) ps
    → IsListed value p ps
    → csv_has_exact (join_commas p ps) value ≡ true
unfolding join_commas
csv_of_part value p List.[] h hs m = rw (csv_has_exact-part p value h) (
    Or.elim (Bool-set _ _) (eq-or-mem_of_mem-cons m) (λ same. rw same (eq_refl (trim_space p)))
      (λ none. absurd (not-mem-nil none)))
csv_of_part value p (List.◌∷◌ q qs) h hs m =
    rw (csv_has_exact-comma p (join_commas q qs) value, csv_has_exact-part p value h)
      (Or.elim (Bool-set _ _) (eq-or-mem_of_mem-cons m)
        (λ same. rw (same, eq_refl (trim_space p)) refl)
        (λ rest. rw (csv_of_part value q qs hs.0 hs.1 rest) (or_true (trim_space p == value))))
  where
    or_true : (b : Bool) → (b || true) ≡ true
    or_true true = refl
    or_true false = refl

-- In a text of parts without commas, joined by commas, the values that are listed are exactly the
-- parts less the white space around them.
pub csv_has_exact-Mem :
    (value p : String) (ps : List String)
    → has_no_comma p ≡ true
    → All (λ q. has_no_comma q ≡ true) ps
    → (csv_has_exact (join_commas p ps) value ≡ true) ↔ Mem value (map trim_space (List.◌∷◌ p ps))
csv_has_exact-Mem value p ps h hs = (part_of_csv value p ps h hs, csv_of_part value p ps h hs)
