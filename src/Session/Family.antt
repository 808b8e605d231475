-- ===== src/Session/Family.antt =====
-- A revoked family stays revoked: no rotation gives a token of it again.
use kauth_go.Prelude.{ℕ, ◌≡◌, ◌≢◌, ◌≤◌, String, some, List, arith}
use kauth_go.Env.{Env}
use kauth_go.Db.Table.{select_first-All, select_first-true}
use kauth_go.Exec.{ok, World}
use kauth_go.Token.Refresh.{rotate, RotationResult}
use kauth_go.Token.Refresh.Reuse.{IsRevokedRow}
use kauth_go.Token.Refresh.Success.{rotate-Rotated}
use kauth_go.Token.Refresh.RowInvariant.{RowInvariant, AllRows}
use kauth_go.Session.{Call, serve}
use kauth_go.Session.Invariant.{serve-AllRows}

-- crypto/rand does not give the text `s` from interaction `k` on.
abbrev pub IsNotDrawn : Env → ℕ → String → Type 0
IsNotDrawn env k s = (n : ℕ) → k ≤ n → env.random n ≢ some s

revoked-RowInvariant :
    (env : Env) (k : ℕ) (f : String) → IsNotDrawn env k f → RowInvariant env k (IsRevokedRow f)
revoked-RowInvariant env k f fresh = record {
  using = λ r h e. h e;
  revoking = λ reason r h e. ground arith;
  child = λ r now plain exp id h used revoked drawn bounded e. ground (arith, h e);
  root = λ user svc family now plain fe exp id d _ _ _ e.
      absurd (fresh d.draw d.since (ground (arith, d.drawn)));
}

-- Once all rows of family `f` are revoked, whatever calls follow, a rotation that succeeds is of
-- another family, provided that no later random draw gives the text `f` again.
pub revoked_family_is_final :
    (env : Env) (f : String) (cs : List Call) (w : World) (plain : String) (r : RotationResult)
    → IsNotDrawn env w.step f
    → AllRows (IsRevokedRow f) w.db
    → (rotate env plain (serve env cs w)).0 ≡ ok r
    → r.family_id ≢ f
revoked_family_is_final env f cs w plain r fresh h e same =
    let run = rotate-Rotated env plain (serve env cs w) r e in
    let rows =
      serve-AllRows env (IsRevokedRow f) cs w (revoked-RowInvariant env w.step f fresh) h in
    let revoked = select_first-All (IsRevokedRow f) _ _ run.row run.found rows in
    let live = select_first-true _ _ run.row run.found in
    ground (arith, run.result, revoked (ground (arith, run.result)), live)
