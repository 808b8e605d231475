-- ===== src/Token/Refresh/Success.antt =====
-- What a successful rotation has done.
use kauth_go.Prelude.{ℕ, suc, ◌≤◌, ◌≡◌, refl, String, Option, none, some, List, arith}
use kauth_go.Env.{Env}
use kauth_go.Db.{RefreshToken}
use kauth_go.Db.Table.{select_first, insert_row, next_id, update_where}
use kauth_go.Db.Refresh.{
  inserted_row, insert_refresh_token, is_consumable, mark_used, consume_refresh_token,
}
use kauth_go.Exec.{
  Error, Result, ok, err, next, World, ◌>>=◌, call, in_tx, log, clock, random, no_rows,
}
use kauth_go.Exec.Outcome.{Returns, fails_rules, in_tx-ok}
use kauth_go.Token.Refresh.{
  insert, consume, compute_expires_at, child_row, rotate_body, rotation_result, finish_rotate,
  RotationResult, rotate, classify_rejected, classify_existing, handle_reuse, present_revoked,
}

-- The table after row `c` was consumed and its child stored.
abbrev pub rotated_rows :
    Env → String → ℕ → RefreshToken → String → ℕ → List RefreshToken → List RefreshToken
rotated_rows env hash now c plain exp rows =
    let used = update_where (is_consumable env hash (env.format_time now)) mark_used rows in
    insert_row (inserted_row (child_row env (mark_used c) now plain exp) (next_id (λ r. r.id) used))
      used

-- A run of the transaction's body that returned.
pub record BodyRun (env : Env) (hash : String) (now : ℕ) (w w' : World) (c' : RefreshToken)
    (plain : String) : Type 0 where
  pub row : RefreshToken
  pub exp : ℕ
  pub draw : ℕ
  pub since : w.step ≤ draw
  pub found :
      select_first (is_consumable env hash (env.format_time now)) w.db.refresh_tokens ≡ some row
  pub consumed : c' ≡ mark_used row
  pub drawn : env.random draw ≡ some plain
  pub bounded : compute_expires_at env now row.family_expires_at ≡ ok exp
  pub stored : w'.db.refresh_tokens ≡ rotated_rows env hash now row plain exp w.db.refresh_tokens
  pub codes : w'.db.authorization_codes ≡ w.db.authorization_codes

module _ (env : Env) where
  body-Run_found :
      (hash : String) (now : ℕ) (w : World) (c' : RefreshToken) (plain : String) (c : RefreshToken)
      (s : String) (x : Result ℕ)
      → select_first (is_consumable env hash (env.format_time now)) w.db.refresh_tokens ≡ some c
      → env.random (suc w.step) ≡ some s
      → compute_expires_at env now c.family_expires_at ≡ x
      → (rotate_body env hash now w).0 ≡ ok (c', plain)
      → BodyRun env hash now w (rotate_body env hash now w).1 c' plain
  unfolding rotate_body consume consume_refresh_token call random insert insert_refresh_token ◌>>=◌
  body-Run_found hash now w c' plain c s (err y) f d g e = ground arith
  body-Run_found hash now w c' plain c s (ok exp) f d g e = record {
    row = c;
    exp = exp;
    draw = suc w.step;
    since = omega arith;
    found = f;
    consumed = ground arith;
    drawn = ground arith;
    bounded = g;
    stored = ground arith;
    codes = ground arith;
  }

  body-Run_of :
      (hash : String) (now : ℕ) (w : World) (c' : RefreshToken) (plain : String)
      (o : Option RefreshToken) (p : Option String)
      → select_first (is_consumable env hash (env.format_time now)) w.db.refresh_tokens ≡ o
      → env.random (suc w.step) ≡ p
      → (rotate_body env hash now w).0 ≡ ok (c', plain)
      → BodyRun env hash now w (rotate_body env hash now w).1 c' plain
  unfolding rotate_body consume consume_refresh_token call random ◌>>=◌
  body-Run_of hash now w c' plain none p f d e = ground arith
  body-Run_of hash now w c' plain (some c) none f d e = ground arith
  body-Run_of hash now w c' plain (some c) (some s) f d e =
      body-Run_found hash now w c' plain c s (compute_expires_at env now c.family_expires_at) f d
        refl e

  body-Run :
      (hash : String) (now : ℕ) (w : World) (c' : RefreshToken) (plain : String)
      → (rotate_body env hash now w).0 ≡ ok (c', plain)
      → BodyRun env hash now w (rotate_body env hash now w).1 c' plain
  body-Run hash now w c' plain e = body-Run_of hash now w c' plain _ _ refl refl e

  fails-classify_existing :
      (r : Result RefreshToken) → Returns {A = RotationResult} (λ _. ⊥) (classify_existing env r)
  unfolding classify_existing handle_reuse present_revoked
  fails-classify_existing (err no_rows) = search fails_rules
  fails-classify_existing (err e) = search fails_rules
  fails-classify_existing (ok r) = search fails_rules depth 8

  fails-classify_rejected : (hash : String) → Returns (λ _. ⊥) (classify_rejected env hash)
  unfolding classify_rejected
  fails-classify_rejected hash = search (fails_rules, fails-classify_existing)

  fails-finish : (hash : String) (e : Error) → Returns (λ _. ⊥) (finish_rotate env hash (err e))
  unfolding finish_rotate
  fails-finish hash no_rows = fails-classify_rejected hash
  fails-finish hash e = search fails_rules

-- What a rotation of `plain` that returned `r` has done between `w` and `w'`.
pub record Rotated (env : Env) (plain : String) (w w' : World) (r : RotationResult) : Type 0 where
  pub row : RefreshToken
  pub exp : ℕ
  pub draw : ℕ
  pub since : w.step ≤ draw
  pub found :
      select_first
        (is_consumable env (env.sha256_hex plain) (env.format_time (env.time w.step)))
        w.db.refresh_tokens
      ≡ some row
  pub drawn : env.random draw ≡ some r.new_token
  pub bounded : compute_expires_at env (env.time w.step) row.family_expires_at ≡ ok exp
  pub result : r ≡ rotation_result row r.new_token
  pub stored :
      w'.db.refresh_tokens
      ≡ rotated_rows env
          (env.sha256_hex plain)
          (env.time w.step)
          row
          r.new_token
          exp
          w.db.refresh_tokens
  pub codes : w'.db.authorization_codes ≡ w.db.authorization_codes

module _ (env : Env) where
  finish-Rotated :
      (plain : String) (w : World) (r : RotationResult) (t : Result (RefreshToken × String))
      (v : World)
      → (in_tx env (rotate_body env (env.sha256_hex plain) (env.time w.step)) (next w)) ≡ (t, v)
      → (finish_rotate env (env.sha256_hex plain) t v).0 ≡ ok r
      → Rotated env plain w (finish_rotate env (env.sha256_hex plain) t v).1 r
  unfolding finish_rotate log ◌>>=◌
  finish-Rotated plain w r (err x) v t e = absurd ((fails-finish env _ x).value v r e)
  finish-Rotated plain w r (ok (c, s)) v t e =
      let hash = env.sha256_hex plain in
      let now = env.time w.step in
      let (ran, db) = in_tx-ok env (rotate_body env hash now) (next w) (c, s) (cc) in
      let body = body-Run env hash now (next (next w)) c s ran in
      record {
        row = body.row;
        exp = body.exp;
        draw = body.draw;
        since = omega (arith, body.since);
        found = body.found;
        drawn = ground (arith, body.drawn);
        bounded = body.bounded;
        result = ground (arith, body.consumed);
        stored = ground (arith, body.stored, db);
        codes = ground (arith, body.codes, db);
      }

  pub rotate-Rotated :
      (plain : String) (w : World) (r : RotationResult)
      → (rotate env plain w).0 ≡ ok r
      → Rotated env plain w (rotate env plain w).1 r
  unfolding rotate clock ◌>>=◌
  rotate-Rotated plain w r e = finish-Rotated plain w r _ _ refl e
