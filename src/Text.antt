-- ===== src/Text.antt =====
-- The functions of Go's `strings` package that the modelled code calls.
pub mod Cut
use Prim.Native.String.{[], ◌∷◌}
use kauth_go.Prelude.{
  ℕ, ◌≡◌, refl, Char, code, String, Bool, false, ◌&&◌, ◌||◌, List, ◌==◌, eqb, leb, ltb, ◌+◌,
  if◌then◌else◌,
}

-- unicode.IsSpace.
abbrev is_space_code : ℕ → Bool
is_space_code c =
    (leb 9 c && leb c 13)
    || eqb c 32
    || eqb c 0x85
    || eqb c 0xa0
    || eqb c 0x1680
    || (leb 0x2000 c && leb c 0x200a)
    || eqb c 0x2028
    || eqb c 0x2029
    || eqb c 0x202f
    || eqb c 0x205f
    || eqb c 0x3000

is_space : Char → Bool
is_space c = is_space_code (code c)

pub trim_left : String → String
trim_left [] = []
trim_left (c ∷ s) = if is_space c then trim_left s else c ∷ s

-- A character that is kept keeps all before it.
pub trim_right : String → String
trim_right [] = []
trim_right (c ∷ s) = let rest = trim_right s in if rest == "" && is_space c then [] else c ∷ rest

-- strings.TrimSpace.
unfoldable pub trim_space : String → String
unfolding trim_left trim_right is_space
trim_space s = trim_right (trim_left s)

-- What stands before the first separator, put in front of the parts of the rest.
unfoldable pub extend_first : Char → List String → List String
extend_first c List.[] = List.◌∷◌ (c ∷ []) List.[]
extend_first c (List.◌∷◌ p ps) = List.◌∷◌ (c ∷ p) ps

-- strings.Split at one character.
unfoldable pub split : ℕ → String → List String
unfolding extend_first
split sep [] = List.◌∷◌ "" List.[]
split sep (c ∷ s) =
    let rest = split sep s in if eqb (code c) sep then List.◌∷◌ "" rest else extend_first c rest

-- slices.Contains.
unfoldable pub contains : List String → String → Bool
contains List.[] x = false
contains (List.◌∷◌ y ys) x = y == x || contains ys x

-- The pieces between white space, of which two neighbours enclose an empty one.
pieces : String → List String
unfolding extend_first is_space
pieces [] = List.◌∷◌ "" List.[]
pieces (c ∷ s) = let rest = pieces s in if is_space c then List.◌∷◌ "" rest else extend_first c rest

drop_empty : List String → List String
drop_empty List.[] = List.[]
drop_empty (List.◌∷◌ p ps) = let rest = drop_empty ps in if p == "" then rest else List.◌∷◌ p rest

-- strings.Fields.
unfoldable pub fields : String → List String
unfolding pieces drop_empty
fields s = drop_empty (pieces s)

-- strings.HasSuffix.
unfoldable pub has_suffix : String → String → Bool
has_suffix [] t = t == ""
has_suffix (c ∷ s) t = c ∷ s == t || has_suffix s t

-- The bytes of a character in UTF-8.
abbrev pub char_length : ℕ → ℕ
char_length c = if ltb c 0x80 then 1 else if ltb c 0x800 then 2 else if ltb c 0x10000 then 3 else 4

-- len of a string.
unfoldable pub byte_length : String → ℕ
byte_length [] = 0
byte_length (c ∷ s) = char_length (code c) + byte_length s

trimmed_parts : List String → List String
trimmed_parts List.[] = List.[]
trimmed_parts (List.◌∷◌ p ps) =
    let rest = trimmed_parts ps in if trim_space p == "" then rest else List.◌∷◌ (trim_space p) rest

-- The trimmed parts between commas that are not empty.
unfoldable pub split_csv : String → List String
unfolding trimmed_parts
split_csv s = trimmed_parts (split b',' s)

trim_space_example : trim_space "  a b " ≡ "a b"
unfolding trim_space
trim_space_example = refl

split_example : split b',' "a,,b" ≡ List.◌∷◌ "a" (List.◌∷◌ "" (List.◌∷◌ "b" List.[]))
unfolding split
split_example = refl
