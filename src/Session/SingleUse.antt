-- ===== src/Session/SingleUse.antt =====
-- A refresh token is good for one rotation.
use kauth_go.Prelude.{
  ℕ, ◌≤◌, ◌≡◌, ◌≢◌, inl, inr, refl, String, Bool-cases, some, none, List, [], ◌∷◌, All, arith,
  eq_iff,
}
use kauth_go.Env.{Env}
use kauth_go.Db.{RefreshToken}
use kauth_go.Db.Table.{
  select_first, update_where, select_first-All, select_first-true, All-insert_row,
}
use kauth_go.Db.Refresh.{is_consumable, mark_used}
use kauth_go.Exec.{ok, World}
use kauth_go.Token.Refresh.{rotate, RotationResult}
use kauth_go.Token.Refresh.Reuse.{IsSpentRow}
use kauth_go.Token.Refresh.Success.{rotate-Rotated, Rotated}
use kauth_go.Token.Refresh.RowInvariant.{RowInvariant, AllRows, rotate-Keeps}
use kauth_go.Session.{Call, serve}
use kauth_go.Session.Invariant.{serve-From}
use kauth_go.Exec.Keeps.{From}

-- No text that crypto/rand gives from interaction `k` on has the hash.
abbrev pub HasNoCollision : Env → ℕ → String → Type 0
HasNoCollision env k h = (n : ℕ) (s : String) → k ≤ n → env.random n ≡ some s → env.sha256_hex s ≢ h

-- The UNIQUE constraint, for one hash: behind a row with the hash there is no other.
abbrev pub AtMostOne : String → List RefreshToken → Type 0
AtMostOne h [] = Unit
AtMostOne h (r ∷ rs) = (r.token_hash ≡ h → All (λ s. s.token_hash ≢ h) rs) × AtMostOne h rs

spent-RowInvariant :
    (env : Env) (k : ℕ) (h : String) → HasNoCollision env k h → RowInvariant env k (IsSpentRow h)
spent-RowInvariant env k h new = record {
  using = λ r s e. inl (omega arith);
  revoking = λ reason r s e. inr (omega arith);
  child =
      λ r now plain exp id s used revoked d bounded e. absurd (new d.draw plain d.since d.drawn e);
  root =
      λ user svc family now plain fe exp id _ d _ _ e. absurd (new d.draw plain d.since d.drawn e);
}

others-spent :
    (env : Env) (h now : String) (rs : List RefreshToken)
    → All (λ s. s.token_hash ≢ h) rs
    → All (IsSpentRow h) (update_where (is_consumable env h now) mark_used rs)
unfolding update_where
others-spent env h now [] n = tt
others-spent env h now (r ∷ rs) n =
    (ground (arith, n.0, eq_iff r.token_hash h), others-spent env h now rs n.1)

not-found :
    (env : Env) (h now : String) (rs : List RefreshToken)
    → All (λ s. s.token_hash ≢ h) rs
    → select_first (is_consumable env h now) rs ≡ none
unfolding select_first
not-found env h now [] n = refl
not-found env h now (r ∷ rs) n =
    ground (arith, n.0, eq_iff r.token_hash h, not-found env h now rs n.1)

-- After the consuming update no live row has the hash.
consumed-spent :
    (env : Env) (h now : String) (rs : List RefreshToken) (c : RefreshToken)
    → AtMostOne h rs
    → select_first (is_consumable env h now) rs ≡ some c
    → All (IsSpentRow h) (update_where (is_consumable env h now) mark_used rs)
unfolding update_where select_first
consumed-spent env h now [] c u f = cc
consumed-spent env h now (r ∷ rs) c u f = elim (Bool-cases (is_consumable env h now r)) [
  | inl hit ↦
      let same : r.token_hash ≡ h = ground (arith, eq_iff r.token_hash h) in
      rw hit (λ e. inl (omega arith), others-spent env h now rs (u.0 same))
  | inr miss ↦ rw miss (
    λ e. ground (arith, not-found env h now rs (u.0 e)),
    consumed-spent env h now rs c u.1 (rw miss at f),
  )
]

-- A run of Rotate ends no earlier than it began.
pub rotate-since : (env : Env) (plain : String) (w : World) → w.step ≤ (rotate env plain w).1.step
rotate-since env plain w =
    ((rotate-Keeps env w.step (λ _. Unit) nothing plain).run w
      (record { since = omega arith; holds = all w.db.refresh_tokens })).since
  where
    all : (rs : List RefreshToken) → All {A = RefreshToken} (λ _. Unit {0}) rs
    all [] = tt
    all (r ∷ rs) = (tt, all rs)

    nothing : RowInvariant env w.step (λ _. Unit)
    nothing = record {
      using = λ _ _. tt;
      revoking = λ _ _ _. tt;
      child = λ _ _ _ _ _ _ _ _ _ _. tt;
      root = λ _ _ _ _ _ _ _ _ _ _ _ _. tt;
    }

rotate-From :
    (env : Env) (plain : String) (w : World) (r : RotationResult)
    → AtMostOne (env.sha256_hex plain) w.db.refresh_tokens
    → HasNoCollision env w.step (env.sha256_hex plain)
    → Rotated env plain w (rotate env plain w).1 r
    → From w.step (AllRows (IsSpentRow (env.sha256_hex plain))) (rotate env plain w).1
rotate-From env plain w r u new run = record {
  since = rotate-since env plain w;
  holds = rw run.stored (
      All-insert_row (IsSpentRow (env.sha256_hex plain)) _ _
        (consumed-spent env (env.sha256_hex plain) _ w.db.refresh_tokens run.row u run.found)
        (λ e. absurd (new run.draw r.new_token run.since run.drawn e)));
}

-- A token that was rotated once is never rotated again, whatever calls come between, provided that
-- at most one row has its hash and no later random draw has it.
pub rotated_once :
    (env : Env) (plain : String) (w : World) (r s : RotationResult) (cs : List Call)
    → AtMostOne (env.sha256_hex plain) w.db.refresh_tokens
    → HasNoCollision env w.step (env.sha256_hex plain)
    → (rotate env plain w).0 ≡ ok r
    → (rotate env plain (serve env cs (rotate env plain w).1)).0 ≢ ok s
rotated_once env plain w r s cs u new e again =
    let h = env.sha256_hex plain in
    let inv = spent-RowInvariant env w.step h new in
    let first = rotate-Rotated env plain w r e in
    let after =
      serve-From env w.step (IsSpentRow h) inv cs (rotate env plain w).1
        (rotate-From env plain w r u new first) in
    let second = rotate-Rotated env plain (serve env cs (rotate env plain w).1) s again in
    let live = select_first-true _ _ second.row second.found in
    let spent = select_first-All (IsSpentRow h) _ _ second.row second.found after.holds in
    ground (
      arith,
      live,
      eq_iff second.row.token_hash h,
      spent (ground (arith, live, eq_iff second.row.token_hash h)),
    )
