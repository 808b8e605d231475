-- ===== src/Tests.antt =====
-- Runs at concrete inputs.
mod Fixtures
mod Endpoint
mod Magic
mod State
mod Identity
mod Audit
mod SocialService
mod Dispatch
use kauth_go.Prelude.{
  ℕ, ◌≡◌, ◌≢◌, ◌<◌, refl, String, eqb, some, none, List, [], ◌∷◌, ◌++◌, inl, inr, arith, eq_iff, ap,
  ◌∙◌,
}
use kauth_go.Env.{Env}
use kauth_go.Db.{RefreshToken}
use kauth_go.Db.Table.{select_first, update_where, insert_row, next_id, exists_where}
use kauth_go.Db.Refresh.{
  consume_refresh_token, insert_refresh_token, get_refresh_token_by_hash, revoke_family_tokens,
  get_refresh_child,
}
use kauth_go.Exec.{
  ok, err, token_reuse, token_revoked, db_error, World, pure, raise, lift, attempt, ◌>>=◌, ◌>>◌,
  call, query, execute, in_tx, finish_transaction, log, clock, random,
}
use kauth_go.Token.Refresh.{
  RotationResult, insert, consume, compute_expires_at, rotate_body, finish_rotate, rotate,
  revoke_family,
}
use kauth_go.Session.{serve, perform, rotates, revokes}
use kauth_go.Session.SingleUse.{rotated_once}
use kauth_go.Session.Family.{revoked_family_is_final}
use kauth_go.Session.Lifetime.{EndsBy, family_lifetime}
use kauth_go.Token.Refresh.Atomic.{internal_error_unchanged}
use kauth_go.Token.Refresh.Reuse.Answers.{Ended, reuse_detected, revoked_presented, expired_refused}
use kauth_go.Tests.Fixtures.{ticks, count, env, is_drawn, laws, fresh, token_row, world_of}

abbrev live : World
live = world_of (token_row 1 "tok" 0 0 ∷ [])

abbrev result : String → RotationResult
result plain = record {
  new_token = plain;
  email = "a@x.no";
  family_id = "fam";
  service_id = "app";
  user_id = some 1;
}

rotate-live : (rotate env "tok" live).0 ≡ ok (result "riii")
unfolding rotate rotate_body finish_rotate consume consume_refresh_token insert insert_refresh_token
    compute_expires_at in_tx finish_transaction call log clock random ◌>>=◌ select_first
    update_where exists_where next_id ticks count
rotate-live = refl

rotated_once_example :
    (rotate env "tok"
      (serve env (rotates "tok" ∷ revokes "other" "logout" ∷ []) (rotate env "tok" live).1)).0
    ≢ ok (result "riiiii")
rotated_once_example =
    rotated_once env "tok" live (result "riii") (result "riiiii")
      (rotates "tok" ∷ revokes "other" "logout" ∷ []) (λ e. tt, tt)
      (λ n s _ e same. fresh "tok" n refl (e ∙ ap some same)) rotate-live

abbrev other_row : RefreshToken
other_row = record (token_row 2 "new" 0 0) { family_id = "other" }

abbrev two_families : World
two_families = world_of (token_row 1 "tok" 0 1 ∷ other_row ∷ [])

abbrev other_result : RotationResult
other_result = record (result "riiii") { family_id = "other" }

rotate-two_families :
    (rotate env "new" (serve env (revokes "third" "logout" ∷ []) two_families)).0 ≡ ok other_result
unfolding rotate rotate_body finish_rotate consume consume_refresh_token insert insert_refresh_token
    compute_expires_at in_tx finish_transaction call log clock random ◌>>=◌ select_first
    update_where exists_where next_id ticks count serve perform revoke_family revoke_family_tokens
    execute
rotate-two_families = refl

revoked_family_is_final_example : other_result.family_id ≢ "fam"
revoked_family_is_final_example =
    revoked_family_is_final env "fam" (revokes "third" "logout" ∷ []) two_families "new"
      other_result (λ n _. fresh "fam" n refl)
      ((λ _. omega arith), ((λ same. ground (arith, eq_iff "other" "fam")), tt)) rotate-two_families

abbrev ends_by_9 : EndsBy env 9 (token_row 1 "tok" 0 0)
ends_by_9 = record { family_end = refl; end = 9; expiry = refl; within = omega arith }

serve-live : (rotate env "tok" (serve env [] live)).0 ≡ ok (result "riii")
unfolding rotate rotate_body finish_rotate consume consume_refresh_token insert insert_refresh_token
    compute_expires_at in_tx finish_transaction call log clock random ◌>>=◌ select_first
    update_where exists_where next_id ticks count serve
serve-live = refl

family_lifetime_example : env.time (serve env [] live).step < 9
family_lifetime_example =
    family_lifetime env "fam" 9 [] live "tok" (result "riii") laws (λ n _. fresh "fam" n refl)
      ((λ _. ends_by_9), tt) serve-live refl

abbrev spent : World
spent = world_of (token_row 1 "tok" 1 0 ∷ token_row 2 "child" 0 0 ∷ [])

spent-found :
    get_refresh_token_by_hash (env.sha256_hex "tok") spent.db.refresh_tokens
    ≡ some (token_row 1 "tok" 1 0)
unfolding get_refresh_token_by_hash select_first
spent-found = refl

reuse_detected_example :
    ((rotate env "tok" spent).0 ≡ err token_reuse)
    × Ended env "tok" "refresh_token_reuse" "reuse_detected" (token_row 1 "tok" 1 0) spent
reuse_detected_example =
    reuse_detected env "tok" spent (token_row 1 "tok" 1 0) (λ n. refl)
      ((λ _. inl (omega arith)), ((λ same. ground (arith, eq_iff "child" "tok")), tt)) spent-found
      refl

abbrev revoked : World
revoked = world_of (token_row 1 "tok" 0 1 ∷ [])

revoked-found :
    get_refresh_token_by_hash (env.sha256_hex "tok") revoked.db.refresh_tokens
    ≡ some (token_row 1 "tok" 0 1)
unfolding get_refresh_token_by_hash select_first
revoked-found = refl

revoked_presented_example :
    ((rotate env "tok" revoked).0 ≡ err token_revoked)
    × Ended env "tok" "refresh_token_revoked_presented" "revoked_token_presented"
        (token_row 1 "tok" 0 1)
        revoked
revoked_presented_example =
    revoked_presented env "tok" revoked (token_row 1 "tok" 0 1) (λ n. refl)
      ((λ _. inr (omega arith)), tt) revoked-found (omega arith) refl

abbrev old_row : RefreshToken
old_row = record (token_row 1 "tok" 0 0) { expires_at = "" }

old-found :
    get_refresh_token_by_hash (env.sha256_hex "tok") (world_of (old_row ∷ [])).db.refresh_tokens
    ≡ some old_row
unfolding get_refresh_token_by_hash select_first
old-found = refl

expired_refused_example :
    ((rotate env "tok" (world_of (old_row ∷ []))).0 ≡ err token_revoked)
    × ((rotate env "tok" (world_of (old_row ∷ []))).1.db ≡ (world_of (old_row ∷ [])).db)
    × ((rotate env "tok" (world_of (old_row ∷ []))).1.audit ≡ [])
unfolding count ticks
expired_refused_example =
    expired_refused env "tok" (world_of (old_row ∷ [])) old_row (λ n. refl) (refl, tt) old-found
      refl refl

abbrev busy : Env
busy = record env { fault = λ n. eqb n 5 }

busy-fails : (rotate busy "tok" live).0 ≡ err db_error
unfolding rotate rotate_body finish_rotate consume consume_refresh_token insert insert_refresh_token
    compute_expires_at in_tx finish_transaction call log clock random ◌>>=◌ select_first
    update_where exists_where next_id ticks count
busy-fails = refl

internal_error_unchanged_example : (rotate busy "tok" live).1.db ≡ live.db
internal_error_unchanged_example =
    internal_error_unchanged busy "tok" live db_error ((λ e. cc), (λ e. cc)) busy-fails
