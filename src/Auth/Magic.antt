-- ===== src/Auth/Magic.antt =====
-- Magic links (internal/auth/magic.go): a link is stored, and redeemed by a POST. Pages and mail are
-- left out; `hint` is the service of the page's theme, which is only sent back.
pub mod Quota
pub mod Redeem
use Prim.Native.String.{[], ◌∷◌, ◌++◌}
use kauth_go.Prelude.{
  ℕ, suc, ◌+◌, ◌-◌, ◌*◌, code, String, Bool, true, false, not, ◌&&◌, ◌||◌, Option, none, some, List,
  ◌==◌, eqb, ltb, text_or_empty, if◌then◌else◌,
}
use kauth_go.Text.{trim_space, byte_length, has_suffix}
use kauth_go.Env.{Env}
use kauth_go.Db.{Db, User, Service, MagicToken}
use kauth_go.Db.Magic.{
  InsertMagicTokenLimitedParams, insert_magic_token_limited, get_valid_magic_token_by_hash,
  consume_magic_token,
}
use kauth_go.Db.Users.{get_active_user_by_email, CreateUserParams, create_user}
use kauth_go.Exec.{
  Result, ok, err, unique_violation, Event, Exec, pure, raise, attempt, call, query, log, clock,
  random, or_no_rows, ◌>>=◌, ◌>>◌,
}
use kauth_go.Registry.{resolve}
use kauth_go.Token.Refresh.{event}
use kauth_go.Auth.CodeGrant.{Server}
use kauth_go.Auth.FetchMeta.{FetchRequest, same_origin}
use kauth_go.Auth.Login.{Completion, policy_denied, issue_failed, completed, login_magic, complete}

unfoldable pub normalize_email : Env → String → String
normalize_email env s = env.lower (trim_space s)

-- How often the character stands in the text.
count_char : ℕ → String → ℕ
count_char c [] = 0
count_char c (d ∷ s) = let rest = count_char c s in if eqb (code d) c then suc rest else rest

starts_with_at : String → Bool
starts_with_at [] = false
starts_with_at (c ∷ s) = eqb (code c) b'@'

has_control : String → Bool
has_control [] = false
has_control (c ∷ s) = ltb (code c) 0x20 || eqb (code c) 0x7f || has_control s

unfoldable pub valid_email : String → Bool
unfolding count_char starts_with_at has_control
valid_email s =
    if s == "" || ltb 254 (byte_length s) || not (eqb (count_char b'@' s) 1)
    then false
    else if starts_with_at s || has_suffix s "@"
    then false
    else not (has_control s)

-- CheckMagicPurpose finds no error.
unfoldable pub check_magic_purpose : String → Option String → Bool
check_magic_purpose purpose none = purpose == "admin"
check_magic_purpose purpose (some id) = purpose == "service"

-- A quarter of an hour, in seconds.
abbrev pub magic_lifetime : ℕ
magic_lifetime = 15 * 60

abbrev pub magic_params : Env → Service → String → String → ℕ → InsertMagicTokenLimitedParams
magic_params env svc email plain now = record {
  token_hash = env.sha256_hex plain;
  email = email;
  service_id = some svc.id;
  redirect_uri = none;
  purpose = "service";
  created_at = env.format_time now;
  expires_at = env.format_time (now + magic_lifetime);
  window_start = env.format_time (now - magic_lifetime);
}

store_magic : Option (ℕ × List MagicToken) → Db → Result ℕ × Db
store_magic none db = (err unique_violation, db)
store_magic (some (n, rows)) db = (ok n, record db { magic_tokens = rows })

unfoldable pub insert_magic : Env → InsertMagicTokenLimitedParams → Exec ℕ
unfolding store_magic
insert_magic env p =
    call env (λ db. store_magic (insert_magic_token_limited env p db.magic_tokens) db)

inserted : Result ℕ → Bool
inserted (err e) = false
inserted (ok n) = eqb n 1

unfoldable pub store_link : Env → Service → String → String → Exec Bool
unfolding inserted
store_link env svc email plain = do
  now ← clock env
  n ← attempt (insert_magic env (magic_params env svc email plain now))
  pure (inserted n)

unfoldable pub store_token : Env → Option Service → String → String → Exec Bool
store_token env none email plain = pure false
store_token env (some svc) email plain =
    if not (eqb svc.auth_magic_link 1) || not (valid_email email)
    then pure false
    else if not (check_magic_purpose "service" (some svc.id))
    then pure false
    else store_link env svc email plain
