-- ===== src/Token/Duration.antt =====
-- ISO 8601 durations (ParseISO8601Duration of internal/token/issuer.go). A time.Duration is an
-- int64 count of nanoseconds, modelled by its bit pattern below 2 ^ 64.
use Prim.Native.String.{[], ◌∷◌}
use kauth_go.Prelude.{
  ℕ, ◌+◌, ◌-◌, ◌*◌, ◌/◌, ◌%◌, ◌^◌, code, String, Bool, true, false, ◌&&◌, Option, none, some, ltb,
  leb, eqb, if◌then◌else◌,
}
use kauth_go.Text.{trim_space}
use kauth_go.Env.{Env}

abbrev pub int64 : ℕ → ℕ
int64 n = n % 2 ^ 64

abbrev pub second : ℕ
second = 1_000_000_000

abbrev hour : ℕ
hour = 3600 * second

-- What a unit multiplies: hours count only behind a `T`.
unit_length : Bool → ℕ → Option ℕ
unit_length in_time c =
    if eqb c b'D'
    then some (24 * hour)
    else if eqb c b'H'
    then some (if in_time then hour else 0)
    else if eqb c b'M'
    then some (if in_time then 60 * second else 30 * (24 * hour))
    else if eqb c b'S'
    then some second
    else none

-- The loop over the text and the loops over digits in it, as one: `seen` says that digits stand
-- before, and `n` is their value.
parse_units : Bool → ℕ → Bool → ℕ → String → Option ℕ
parse_units in_time total seen n [] = if seen then none else some total
parse_units in_time total seen n (c ∷ s) =
    let digit = parse_units in_time total true (int64 (n * 10 + (code c - b'0'))) s in
    let marker = parse_units true total false 0 s in
    let unit = λ (length : ℕ). parse_units in_time (int64 (total + n * length)) false 0 s in
    if leb b'0' (code c) && leb (code c) b'9'
    then digit
    else if seen
    then elim (unit_length in_time (code c)) [ none ↦ none | some length ↦ unit length ]
    else if eqb (code c) b'T'
    then marker
    else none

parse_body : String → Option ℕ
parse_body [] = none
parse_body (c ∷ s) = if eqb (code c) b'P' then parse_units false 0 false 0 s else none

unfoldable pub parse_iso8601_duration : Env → String → Option ℕ
unfolding parse_body parse_units unit_length trim_space
parse_iso8601_duration env s = parse_body (env.upper (trim_space s))

-- d > 0, for an int64.
abbrev pub is_positive : ℕ → Bool
is_positive d = ltb 0 d && ltb d (2 ^ 63)

-- t.Add(d) in whole seconds; times before 1970 are not modelled.
unfoldable pub add_duration : ℕ → ℕ → ℕ
add_duration t d =
    if ltb d (2 ^ 63) then t + d / second else t - (2 ^ 64 - d + (second - 1)) / second
