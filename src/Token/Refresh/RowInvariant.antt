-- ===== src/Token/Refresh/RowInvariant.antt =====
-- Invariants of the rows of `refresh_tokens`: what the two updates keep and every new row meets
-- holds of all rows after any operation of RefreshService, whether it succeeds or fails.
use kauth_go.Prelude.{ℕ, ◌≡◌, refl, String, Option, none, some, List, eqb, All, arith}
use mathlib.Core.Option
use kauth_go.Env.{Env}
use kauth_go.Db.{Db, User, Service, RefreshToken}
use kauth_go.Db.Table.{
  All-insert_row, All-update_where, select_first-All, select_first-true, select_first, next_id,
}
use kauth_go.Db.Refresh.{
  InsertRefreshTokenParams, inserted_row, insert_refresh_token, is_consumable, mark_used,
  consume_refresh_token, mark_revoked, revoke_family_tokens,
}
use kauth_go.Db.Codes.{ConsumeAuthorizationCodeCheckedParams}
use kauth_go.Exec.{Result, ok, err, no_rows, no_user_id, World, call, execute, clock}
use kauth_go.Exec.Keeps.{
  Drawn, Keeps, Keeps-call, Keeps-execute, Keeps-bind, Keeps-bind_with, Keeps-bind_lift,
  Keeps-bind_random, Keeps-in_tx, keeps_rules,
}
use kauth_go.Exec.Outcome.{
  Returns-pure, Returns-bind_lift, ReturnsFrom, ReturnsFrom-raise_or, ReturnsFrom-bind_random,
}
use kauth_go.Token.Refresh.{
  store_refresh, insert, consume_in, consume, revoke_in, consume_code, find_by_hash,
  compute_expires_at, family_end, root_row, root_token, new_root_token, issue, redeem_body,
  redeem_authorization_code, CodeRedemption, child_row, rotate_body, gap_from, reuse_gap,
  handle_reuse, present_revoked, revoke_found, logged_out, classify_existing, classify_rejected,
  finish_rotate, rotate, revoke_family, revoke_family_of_token,
}

-- A new child's row, for a row `r` that was consumed.
abbrev pub new_child : Env → RefreshToken → ℕ → String → ℕ → ℕ → RefreshToken
new_child env r now plain exp id = inserted_row (child_row env (mark_used r) now plain exp) id

abbrev pub new_root :
    Env → User → Service → String → ℕ → String → Option String → ℕ → ℕ → RefreshToken
new_root env user svc family now plain family_exp exp id =
    inserted_row (root_row env user svc family now plain family_exp exp) id

pub record RowInvariant (env : Env) (k : ℕ) (P : RefreshToken → Type 0) : Type 0 where
  pub using : (r : RefreshToken) → P r → P (mark_used r)
  pub revoking : (reason : String) (r : RefreshToken) → P r → P (mark_revoked reason r)
  pub child :
      (r : RefreshToken) (now : ℕ) (plain : String) (exp id : ℕ)
      → P r
      → r.used ≡ 0
      → r.revoked ≡ 0
      → Drawn env k plain
      → compute_expires_at env now r.family_expires_at ≡ ok exp
      → P (new_child env r now plain exp id)
  pub root :
      (user : User) (svc : Service) (family : String) (now : ℕ) (plain : String)
      (family_exp : Option String) (exp id : ℕ)
      → Drawn env k family
      → Drawn env k plain
      → family_end env now svc.refresh_token_max_age ≡ ok family_exp
      → compute_expires_at env now family_exp ≡ ok exp
      → P (new_root env user svc family now plain family_exp exp id)

abbrev pub AllRows : (RefreshToken → Type 0) → Db → Type 0
AllRows P db = All P db.refresh_tokens

module _ (env : Env) (k : ℕ) (P : RefreshToken → Type 0) (inv : RowInvariant env k P) where
  insert_refresh_token-All :
      (p : InsertRefreshTokenParams) (db : Db)
      → ((id : ℕ) → P (inserted_row p id))
      → AllRows P db
      → AllRows P (store_refresh db (insert_refresh_token p db.refresh_tokens)).1
  unfolding insert_refresh_token
  insert_refresh_token-All p db new h = ground (
    arith,
    All-insert_row P (inserted_row p (next_id (λ (r : RefreshToken). r.id) db.refresh_tokens))
        db.refresh_tokens h (new _),
  )

  insert-Keeps :
      (p : InsertRefreshTokenParams)
      → ((id : ℕ) → P (inserted_row p id))
      → Keeps k (AllRows P) (insert env p)
  unfolding insert
  insert-Keeps p new = Keeps-call env _ (λ db h. insert_refresh_token-All p db new h)

  consume-Keeps : (hash now : String) → Keeps k (AllRows P) (consume env hash now)
  unfolding consume consume_refresh_token
  consume-Keeps hash now =
      Keeps-call env (consume_in env hash now)
        (λ db h. All-update_where P _ mark_used db.refresh_tokens (λ r _ q. inv.using r q) h)

  -- The consumed row, as it was before.
  abbrev WasLive : RefreshToken → Type 0
  WasLive c = (r : RefreshToken) × (c ≡ mark_used r) × P r × (r.used ≡ 0) × (r.revoked ≡ 0)

  select-WasLive :
      (hash now : String) (rows : List RefreshToken) (o : Option RefreshToken) (c : RefreshToken)
      → select_first (is_consumable env hash now) rows ≡ o
      → Option.map mark_used o ≡ some c
      → All P rows
      → WasLive c
  select-WasLive hash now rows none c e s h = cc
  select-WasLive hash now rows (some r) c e s h = (
    r,
    ground arith,
    select_first-All P (is_consumable env hash now) rows r e h,
    ground (arith, select_first-true (is_consumable env hash now) rows r e),
    ground (arith, select_first-true (is_consumable env hash now) rows r e),
  )

  consume-WasLive :
      (hash now : String) (w : World) (c : RefreshToken)
      → AllRows P w.db
      → (consume env hash now w).0 ≡ ok c
      → WasLive c
  unfolding consume consume_refresh_token call
  consume-WasLive hash now w c h e =
      select-WasLive hash now w.db.refresh_tokens _ c refl (ground arith) h

  rotate_body-Keeps : (hash : String) (now : ℕ) → Keeps k (AllRows P) (rotate_body env hash now)
  unfolding rotate_body
  rotate_body-Keeps hash now =
      Keeps-bind_with WasLive (consume env hash (env.format_time now)) _
        (consume-Keeps hash (env.format_time now))
        (λ w c g e. consume-WasLive hash (env.format_time now) w c g.holds e)
        λ c live. Keeps-bind_random env _ λ plain drawn.
          Keeps-bind_lift (compute_expires_at env now c.family_expires_at) _ λ exp bounded.
            Keeps-bind (insert env (child_row env c now plain exp)) _
              (insert-Keeps _ (λ id. child c live now plain exp id drawn bounded))
              (λ _. search keeps_rules)
    where
      child :
          (c : RefreshToken)
          → WasLive c
          → (now : ℕ) (plain : String) (exp id : ℕ) → Drawn env k plain
          → compute_expires_at env now c.family_expires_at ≡ ok exp
          → P (inserted_row (child_row env c now plain exp) id)
      child c (r, e, p, u, v) now plain exp id drawn bounded =
          rw e (inv.child r now plain exp id p u v drawn (rw e at bounded))

  revoke-Keeps :
      (reason family : String) → Keeps k (AllRows P) (execute env (revoke_in reason family))
  unfolding revoke_family_tokens
  revoke-Keeps reason family = Keeps-execute env (revoke_in reason family) λ db h.
      All-update_where P _ (mark_revoked reason) db.refresh_tokens
        (λ r _ q. inv.revoking reason r q) h

  find_by_hash-Keeps : (hash : String) → Keeps k (AllRows P) (find_by_hash env hash)
  unfolding find_by_hash
  find_by_hash-Keeps hash = search keeps_rules

  gap_from-Keeps : (r : Result String) → Keeps k (AllRows P) (gap_from env r)
  unfolding gap_from
  gap_from-Keeps (ok created) = search keeps_rules
  gap_from-Keeps (err e) = search keeps_rules

  reuse_gap-Keeps : (r : RefreshToken) → Keeps k (AllRows P) (reuse_gap env r)
  unfolding reuse_gap
  reuse_gap-Keeps r = search (keeps_rules, gap_from-Keeps)

  ruleset row_rules = (keeps_rules, revoke-Keeps, find_by_hash-Keeps, reuse_gap-Keeps)

  handle_reuse-Keeps :
      (r : RefreshToken) (svc : String) → Keeps k (AllRows P) (handle_reuse env r svc)
  unfolding handle_reuse
  handle_reuse-Keeps r svc = search row_rules depth 8

  present_revoked-Keeps :
      (r : RefreshToken) (svc : String) → Keeps k (AllRows P) (present_revoked env r svc)
  unfolding present_revoked
  present_revoked-Keeps r svc = search row_rules depth 8

  classify_existing-Keeps :
      (r : Result RefreshToken) → Keeps k (AllRows P) (classify_existing env r)
  unfolding classify_existing
  classify_existing-Keeps (err no_rows) = search keeps_rules
  classify_existing-Keeps (err e) = search keeps_rules
  classify_existing-Keeps (ok r) = search (keeps_rules, handle_reuse-Keeps, present_revoked-Keeps)

  classify_rejected-Keeps : (hash : String) → Keeps k (AllRows P) (classify_rejected env hash)
  unfolding classify_rejected
  classify_rejected-Keeps hash = search (row_rules, classify_existing-Keeps)

  finish_rotate-Keeps :
      (hash : String) (r : Result (RefreshToken × String))
      → Keeps k (AllRows P) (finish_rotate env hash r)
  unfolding finish_rotate
  finish_rotate-Keeps hash (err no_rows) = classify_rejected-Keeps hash
  finish_rotate-Keeps hash (err e) = search keeps_rules
  finish_rotate-Keeps hash (ok r) = search keeps_rules

  -- Rotation keeps every invariant of rows.
  pub rotate-Keeps : (plain : String) → Keeps k (AllRows P) (rotate env plain)
  unfolding rotate
  rotate-Keeps plain = search (keeps_rules, rotate_body-Keeps, finish_rotate-Keeps) depth 6

  pub revoke_family-Keeps :
      (family reason : String) → Keeps k (AllRows P) (revoke_family env family reason)
  unfolding revoke_family
  revoke_family-Keeps family reason = revoke-Keeps reason family

  logged_out-Keeps :
      (r : RefreshToken) (u : Result (Unit {0})) → Keeps k (AllRows P) (logged_out r u)
  unfolding logged_out
  logged_out-Keeps r (err e) = search keeps_rules
  logged_out-Keeps r (ok u) = search keeps_rules

  revoke_found-Keeps :
      (reason : String) (r : Result RefreshToken) → Keeps k (AllRows P) (revoke_found env reason r)
  unfolding revoke_found
  revoke_found-Keeps reason (err e) = search keeps_rules
  revoke_found-Keeps reason (ok r) = search (row_rules, logged_out-Keeps)

  pub revoke_family_of_token-Keeps :
      (plain reason : String) → Keeps k (AllRows P) (revoke_family_of_token env plain reason)
  unfolding revoke_family_of_token
  revoke_family_of_token-Keeps plain reason = search (row_rules, revoke_found-Keeps)

  -- What new_root_token hands to an insertion.
  abbrev IsRoot : String × InsertRefreshTokenParams → Type 0
  IsRoot r = (id : ℕ) → P (inserted_row r.1 id)

  new_root_token-IsRoot :
      (user : User) (svc : Service) (family : String) (now : ℕ)
      → Drawn env k family
      → ReturnsFrom k IsRoot (new_root_token env user svc family now)
  unfolding new_root_token root_token
  new_root_token-IsRoot user svc family now drawn =
      ReturnsFrom-raise_or (eqb user.id 0) no_user_id (root_token env user svc family now) (
        ReturnsFrom-bind_random env _ λ plain fresh.
          Returns-bind_lift (family_end env now svc.refresh_token_max_age) _ λ family_exp f.
            Returns-bind_lift (compute_expires_at env now family_exp) _ λ exp x.
              Returns-pure _
                (λ id. inv.root user svc family now plain family_exp exp id drawn fresh f x))

  new_root_token-Keeps :
      (user : User) (svc : Service) (family : String) (now : ℕ)
      → Keeps k (AllRows P) (new_root_token env user svc family now)
  unfolding new_root_token root_token
  new_root_token-Keeps user svc family now = search keeps_rules depth 8

  -- Issuing a first token keeps every invariant of rows.
  pub issue-Keeps : (user : User) (svc : Service) → Keeps k (AllRows P) (issue env user svc)
  unfolding issue
  issue-Keeps user svc = Keeps-bind_random env _ λ family drawn.
      Keeps-bind (clock env) _ (search keeps_rules) λ now.
        Keeps-bind_with IsRoot (new_root_token env user svc family now) _
          (new_root_token-Keeps user svc family now)
          (λ w r g e.
            (new_root_token-IsRoot user svc family now drawn).value w r
              (record { since = g.since; holds = tt }) e)
          λ r root. Keeps-bind _ _ (insert-Keeps r.1 root) (λ _. search keeps_rules)

  consume_code-Keeps :
      (p : ConsumeAuthorizationCodeCheckedParams) → Keeps k (AllRows P) (consume_code env p)
  unfolding consume_code
  consume_code-Keeps p = Keeps-call env _ (λ db h. h)

  -- Redeeming an authorization code keeps every invariant of rows.
  pub redeem_authorization_code-Keeps :
      (p : CodeRedemption) (user : User) (svc : Service)
      → Keeps k (AllRows P) (redeem_authorization_code env p user svc)
  unfolding redeem_authorization_code redeem_body
  redeem_authorization_code-Keeps p user svc = Keeps-bind_random env _ λ family drawn.
      Keeps-bind (clock env) _ (search keeps_rules) λ now.
        Keeps-bind_with IsRoot (new_root_token env user svc family now) _
          (new_root_token-Keeps user svc family now)
          (λ w r g e.
            (new_root_token-IsRoot user svc family now drawn).value w r
              (record { since = g.since; holds = tt }) e)
          λ r root.
            Keeps-bind _ _
              (Keeps-in_tx env _
                (Keeps-bind _ _ (consume_code-Keeps _) (λ _. insert-Keeps r.1 root)))
              (λ _. search keeps_rules)
