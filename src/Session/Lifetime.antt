-- ===== src/Session/Lifetime.antt =====
-- Rotation does not outlive the family: `family_expires_at` bounds every token of it.
use kauth_go.Prelude.{ℕ, ◌+◌, ◌≤◌, ◌<◌, ◌≡◌, refl, String, some, List, arith}
use kauth_go.Env.{Env, TimeLaws}
use kauth_go.Db.{RefreshToken}
use kauth_go.Db.Table.{select_first-All, select_first-true}
use kauth_go.Exec.{ok, World}
use kauth_go.Token.Refresh.{rotate, RotationResult, compute_expires_at, standard_lifetime}
use kauth_go.Token.Refresh.Success.{rotate-Rotated}
use kauth_go.Token.Refresh.RowInvariant.{RowInvariant, AllRows}
use kauth_go.Session.{Call, serve}
use kauth_go.Session.Family.{IsNotDrawn}
use kauth_go.Session.Invariant.{serve-AllRows}

-- A row's end, not after `t`.
pub record EndsBy (env : Env) (t : ℕ) (r : RefreshToken) : Type 0 where
  pub family_end : r.family_expires_at ≡ some (env.format_time t)
  pub end : ℕ
  pub expiry : r.expires_at ≡ env.format_time end
  pub within : end ≤ t

-- Every row of family `f` ends by `t`, which is the family's end.
abbrev pub IsEndingRow : Env → String → ℕ → RefreshToken → Type 0
IsEndingRow env f t r = r.family_id ≡ f → EndsBy env t r

-- A new expiry is at most 30 days away and not after the family's end.
pub compute_expires_at-le :
    (env : Env) (now t exp : ℕ)
    → TimeLaws env
    → compute_expires_at env now (some (env.format_time t)) ≡ ok exp
    → (exp ≤ t) × (exp ≤ now + standard_lifetime)
unfolding compute_expires_at
compute_expires_at-le env now t exp laws e = ground (arith, laws.parse-format t)

ending-RowInvariant :
    (env : Env) (k : ℕ) (f : String) (t : ℕ)
    → TimeLaws env
    → IsNotDrawn env k f
    → RowInvariant env k (IsEndingRow env f t)
ending-RowInvariant env k f t laws fresh = record {
  using = λ r h e.
      let b = h e in
      record { family_end = b.family_end; end = b.end; expiry = b.expiry; within = b.within };
  revoking = λ reason r h e.
      let b = h e in
      record { family_end = b.family_end; end = b.end; expiry = b.expiry; within = b.within };
  child = λ r now plain exp id h used revoked drawn bounded e.
      let b = h e in
      record {
        family_end = b.family_end;
        end = exp;
        expiry = refl;
        within = (compute_expires_at-le env now t exp laws (rw b.family_end at bounded)).0;
      };
  root = λ user svc family now plain fe exp id d _ _ _ e.
      absurd (fresh d.draw d.since (ground (arith, d.drawn)));
}

-- If every row of family `f` ends by the family's end `t`, then after any calls a rotation within
-- the family succeeds only at a time before `t`, provided that no later draw gives `f` again.
pub family_lifetime :
    (env : Env) (f : String) (t : ℕ) (cs : List Call) (w : World) (plain : String)
    (r : RotationResult)
    → TimeLaws env
    → IsNotDrawn env w.step f
    → AllRows (IsEndingRow env f t) w.db
    → (rotate env plain (serve env cs w)).0 ≡ ok r
    → r.family_id ≡ f
    → env.time (serve env cs w).step < t
family_lifetime env f t cs w plain r laws fresh h e same =
    let run = rotate-Rotated env plain (serve env cs w) r e in
    let rows =
      serve-AllRows env (IsEndingRow env f t) cs w (ending-RowInvariant env w.step f t laws fresh)
        h in
    let b =
      select_first-All (IsEndingRow env f t) _ _ run.row run.found rows
        (ground (arith, run.result)) in
    let live = select_first-true _ _ run.row run.found in
    ground
      (arith, live, b.expiry, b.within, laws.text_lt-format (env.time (serve env cs w).step) b.end)
