-- ===== src/Auth/Magic/Quota.antt =====
-- The quota of magic links.
use kauth_go.Prelude.{
  suc, ◌-◌, ◌≤◌, ◌≡◌, refl, String, Bool, true, Option, none, some, List, [], ◌∷◌, arith,
}
use kauth_go.Env.{Env}
use kauth_go.Db.{Service, MagicToken}
use kauth_go.Db.Table.{insert_row, next_id}
use kauth_go.Db.Magic.{count_where, is_recent, magic_row, insert_magic_token_limited}
use kauth_go.Exec.{ok, World, pure, attempt, call, clock, ◌>>=◌}
use kauth_go.Auth.Magic.{
  valid_email, magic_lifetime, magic_params, store_magic, insert_magic, inserted, store_link,
  store_token,
}

count-insert_row :
    (p : MagicToken → Bool) (r : MagicToken) (rs : List MagicToken)
    → count_where p (insert_row r rs) ≤ suc (count_where p rs)
unfolding count_where
count-insert_row p r [] = ground arith
count-insert_row p r (x ∷ rs) = ground (arith, count-insert_row p r rs)

-- A link that was stored for `email` in a run from `w`.
pub record Stored (env : Env) (svc : Option Service) (email plain : String) (w w' : World)
    : Type 0 where
  pub service : Service
  pub asked : svc ≡ some service
  pub offered : service.auth_magic_link ≡ 1
  pub valid : valid_email email ≡ true
  pub row : MagicToken
  pub content : row ≡ magic_row (magic_params env service email plain (env.time w.step)) row.id
  pub stored : w'.db.magic_tokens ≡ insert_row row w.db.magic_tokens
  pub quota :
      count_where
        (is_recent env email "service" (env.format_time (env.time w.step - magic_lifetime)))
        w'.db.magic_tokens
      ≤ 3

-- If storeToken returns true, the service offers magic links, the address is valid, exactly the
-- link's row was added, and at most three rows for the address and the purpose were created within
-- the quarter of an hour before.
pub store_token_quota :
    (env : Env) (svc : Option Service) (email plain : String) (w : World)
    → (store_token env svc email plain w).0 ≡ ok true
    → Stored env svc email plain w (store_token env svc email plain w).1
unfolding store_token store_link insert_magic store_magic inserted insert_magic_token_limited clock
    call pure attempt ◌>>=◌
store_token_quota env none email plain w e = cc
store_token_quota env (some svc) email plain w e =
    let row =
      magic_row (magic_params env svc email plain (env.time w.step))
        (next_id (λ r. r.id) w.db.magic_tokens) in
    record {
      service = svc;
      asked = refl;
      offered = ground arith;
      valid = ground arith;
      row = row;
      content = refl;
      stored = ground arith;
      quota = ground (
        arith,
        count-insert_row
            (is_recent env email "service" (env.format_time (env.time w.step - magic_lifetime))) row
            w.db.magic_tokens,
      );
    }
