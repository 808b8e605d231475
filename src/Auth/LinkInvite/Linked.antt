-- ===== src/Auth/LinkInvite/Linked.antt =====
-- What the end of a link flow leaves behind.
use kauth_go.Prelude.{ℕ, ◌≡◌, refl, sym, ap, ◌∙◌, String, Bool, true, false, arith, if◌then◌else◌}
use kauth_go.Env.{Env}
use kauth_go.Idp.{Provider}
use kauth_go.Db.{Db, User, Service, IdentityLinkInvite}
use kauth_go.Exec.{
  Error, Result, ok, err, db_error, link_rejected, World, pure, log, finish_transaction, ◌>>=◌,
  next,
}
use kauth_go.Auth.LinkInvite.{
  LinkOutcome, link_created, link_already, LinkAnswer, link_done, was_linked, LinkRun, noted,
  run_link, link_tx, concluded, finish_link, invited, link_user,
}

abbrev pub is_linked : LinkAnswer → Bool
is_linked link_done = true
is_linked was_linked = true
is_linked _ = false

module _ (env : Env) (svc : Service) (p : Provider) (invite_id : ℕ) (sub raw_email : String)
    (now : ℕ) where
  finish-err :
      (before : Db) (r : Result (LinkOutcome × ℕ)) (w : World) (x : Error)
      → (finish_transaction env before r w).0 ≡ err x
      → (finish_transaction env before r w).1.db ≡ before
  unfolding finish_transaction
  finish-err before (err e) w x h = refl
  finish-err before (ok a) w x h = ground arith

  run-err :
      (before : Db) (r : Result (IdentityLinkInvite × User)) (w : World) (x : Error)
      → (run_link env svc p invite_id sub raw_email now before r w).0.result ≡ err x
      → (run_link env svc p invite_id sub raw_email now before r w).1.db ≡ before
  unfolding run_link noted
  run-err before (err e) w x h = finish-err before (err e) w x h
  run-err before (ok (inv, user)) w x h =
      let run = link_user env svc p invite_id sub raw_email now inv user w in
      finish-err before run.0 run.1 x h

  link_tx-err :
      (w : World) (x : Error)
      → (link_tx env svc p invite_id sub raw_email now w).0.result ≡ err x
      → (link_tx env svc p invite_id sub raw_email now w).1.db ≡ w.db
  unfolding link_tx noted
  link_tx-err w x h = go (env.fault w.step) h
    where
      run : LinkRun × World
      run =
          let (r, w') = invited env svc p invite_id sub raw_email now (next w) in
          run_link env svc p invite_id sub raw_email now w.db r w'

      failed : LinkRun × World
      failed = noted env svc p invite_id sub raw_email now "" (err db_error, next w)

      go :
          (b : Bool)
          → (if b then failed else run).0.result ≡ err x
          → (if b then failed else run).1.db ≡ w.db
      go true e = refl
      go false e =
          let got = invited env svc p invite_id sub raw_email now (next w) in
          run-err w.db got.0 got.1 x e

  abbrev run_of : World → LinkRun × World
  run_of w = link_tx env svc p invite_id sub raw_email now w

  concluded-db :
      (email : String) (r : Result (LinkOutcome × ℕ)) (w : World)
      → (concluded env svc p invite_id sub raw_email now email r w).1.db ≡ w.db
  unfolding concluded ◌>>=◌ log pure
  concluded-db email (err (link_rejected reason)) w = refl
  concluded-db email (err e) w = refl
  concluded-db email (ok (outcome, id)) w = refl

  abbrev answered_linked : Result LinkAnswer → Bool
  answered_linked (ok a) = is_linked a
  answered_linked (err e) = true

  concluded-linked :
      (email : String) (r : Result (LinkOutcome × ℕ)) (w : World) (x : Error)
      → r ≡ err x
      → answered_linked (concluded env svc p invite_id sub raw_email now email r w).0 ≡ false
  unfolding concluded ◌>>=◌ log pure
  concluded-linked email (err (link_rejected reason)) w x e = refl
  concluded-linked email (err y) w x e = refl
  concluded-linked email (ok (outcome, id)) w x e = cc

  concluded-ok :
      (email : String) (a : LinkOutcome × ℕ) (w : World)
      → answered_linked (concluded env svc p invite_id sub raw_email now email (ok a) w).0 ≡ true
  unfolding concluded ◌>>=◌ log pure
  concluded-ok email (link_created, id) w = refl
  concluded-ok email (link_already, id) w = refl

  -- A flow that does not end with a link has changed nothing: the invitation is as unused as
  -- before, whichever check or database call refused.
  pub rejected_unchanged :
      (w : World) (a : LinkAnswer)
      → (finish_link env svc p invite_id sub raw_email now w).0 ≡ ok a
      → is_linked a ≡ false
      → (finish_link env svc p invite_id sub raw_email now w).1.db ≡ w.db
  unfolding finish_link
  rejected_unchanged w a e h =
      concluded-db (run_of w).0.email (run_of w).0.result (run_of w).1 ∙ go (run_of w).0.result refl
    where
      answer : Result (LinkOutcome × ℕ) → Result LinkAnswer
      answer r =
          (concluded env svc p invite_id sub raw_email now (run_of w).0.email r (run_of w).1).0

      go : (r : Result (LinkOutcome × ℕ)) → (run_of w).0.result ≡ r → (run_of w).1.db ≡ w.db
      go (err x) f = link_tx-err w x f
      go (ok o) f =
          let linked = concluded-ok (run_of w).0.email o (run_of w).1 in
          let refused : answered_linked (answer (ok o)) ≡ false =
            ap (λ (r : Result (LinkOutcome × ℕ)). answered_linked (answer r)) (sym f)
            ∙ ap answered_linked e
            ∙ h in
          let clash : true ≡ false = sym linked ∙ refused in cc
