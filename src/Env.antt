-- ===== src/Env.antt =====
-- What the modelled code uses and does not define: the database engine's failures, the clock,
-- crypto/rand, SHA-256, the text forms of times, case tables, and the parser of URLs.
use kauth_go.Prelude.{ℕ, ◌≡◌, ℤ, pos, ◌<◌, ◌^◌, String, Bool, true, Option, some, ltb}
use kauth_go.Text.Cut.{is_free_of, is_digits}

-- The outside world is indexed by the number of interactions that came before, so that every
-- interaction may turn out differently.
pub record Env : Type 0 where
  -- Does this database call fail for a reason that the model does not compute (busy, I/O, a
  -- foreign key)?
  pub fault : ℕ → Bool
  -- time.Now(), in whole seconds since the Unix epoch.
  pub time : ℕ → ℕ
  -- Text of fresh random bytes; `none` if the read fails.
  pub random : ℕ → Option String
  -- hex(sha256(s)) and base64url(sha256(s)).
  pub sha256_hex : String → String
  pub sha256_base64 : String → String
  -- time.Format with RFC 3339 layouts in UTC, time.Parse with time.RFC3339, and the order of texts
  -- as bytes.
  pub format_time : ℕ → String
  pub parse_time : String → Option ℕ
  pub text_lt : String → String → Bool
  -- A number in decimal, as fmt's %d writes it.
  pub decimal : ℕ → String
  -- strings.ToLower and strings.ToUpper.
  pub lower : String → String
  pub upper : String → String
  -- lower(trim(s)) in SQLite.
  pub sqlite_key : String → String
  -- url.Parse(s).Host; `none` is a parse error.
  pub url_host : String → Option String
  -- hex(hmac-sha256(secret, s)).
  pub hmac_hex : String → String → String
  -- base64.RawURLEncoding, and strconv.ParseInt in base 10 with 64 bits.
  pub base64url : String → String
  pub base64url_decode : String → Option String
  -- time.Parse with the layouts 2006-01-02T15:04:05Z, of which the Z is that letter, and
  -- 2006-01-02 15:04:05, in UTC.
  pub parse_utc_time : String → Option ℕ
  pub parse_sqlite_time : String → Option ℕ
  pub parse_int64 : String → Option ℤ

-- The codecs are read back, and hexadecimal and decimal texts hold no separator.
pub record CodecLaws (env : Env) : Type 0 where
  pub decode-encode : (s : String) → env.base64url_decode (env.base64url s) ≡ some s
  pub hmac-no_dot : (secret s : String) → is_free_of "." (env.hmac_hex secret s) ≡ true
  pub decimal-digits : (n : ℕ) → is_digits (env.decimal n) ≡ true
  pub parse-decimal : (n : ℕ) → n < 2 ^ 63 → env.parse_int64 (env.decimal n) ≡ some (pos n)

-- RFC 3339 texts of instants in UTC have a fixed width: they are read back, and they compare as
-- the instants do.
pub record TimeLaws (env : Env) : Type 0 where
  pub parse-format : (t : ℕ) → env.parse_time (env.format_time t) ≡ some t
  pub text_lt-format : (s t : ℕ) → env.text_lt (env.format_time s) (env.format_time t) ≡ ltb s t
