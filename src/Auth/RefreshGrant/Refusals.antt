-- ===== src/Auth/RefreshGrant/Refusals.antt =====
-- What becomes of a rotated token that the client does not get.
use kauth_go.Prelude.{
  ℕ, ◌≡◌, ◌≢◌, ◌⊎◌, inl, inr, refl, String, Bool, true, false, Option, none, some, ◌==◌, eq_iff,
  ◌∙◌, arith, if◌then◌else◌,
}
use kauth_go.Env.{Env}
use kauth_go.Db.{User, Service}
use kauth_go.Exec.{
  Error, Event, Result, ok, err, no_rows, World, Exec, pure, raise, attempt, log, ◌>>=◌, ◌>>◌,
  query, call, execute,
}
use kauth_go.Exec.Spares.{succeeded}
use kauth_go.Token.Refresh.{RotationResult, rotate, revoke_family}
use kauth_go.Token.Refresh.Reuse.{IsRevokedRow, IsHealthy, revoked-family}
use kauth_go.Token.Refresh.RowInvariant.{AllRows}
use kauth_go.Auth.Http.{TokenRequest, Response, is_granted}
use kauth_go.Auth.CodeGrant.{Server, active_session_user}
use kauth_go.Auth.RefreshGrant.{
  has_other_service, mismatch_event, refused_origin, presented, deny, note_service, access_issued,
  admit, with_service, with_user, with_session, with_token, checked_origin, refresh_grant,
}

-- Every run gives tokens or leaves no live row of family `f`.
record Ends (f : String) (m : Exec Response) : Type 0 where
  run : (w : World) → (succeeded is_granted (m w).0 ≡ true) ⊎ AllRows (IsRevokedRow f) (m w).1.db

module _ (env : Env) (srv : Server) (req : TokenRequest) (healthy : IsHealthy env) where
  Ends-bind_attempt :
      {A : Type 0} (f : String) (m : Exec A) (g : Result A → Exec Response)
      → ((r : Result A) → (w : World) → (m w).0 ≡ r → Ends f (g r))
      → Ends f (attempt m >>= g)
  unfolding attempt ◌>>=◌
  Ends-bind_attempt f m g h = record { run = λ w. (h (m w).0 w refl).run (m w).1 }

  revoke-AllRows :
      (f reason : String) (w : World) → AllRows (IsRevokedRow f) (revoke_family env f reason w).1.db
  unfolding revoke_family execute call
  revoke-AllRows f reason w = rw (healthy w.step) (revoked-family reason f w.db.refresh_tokens)

  Ends-revoking :
      (f reason : String) (g : Result (Unit {0}) → Exec Response)
      → ((r : Result (Unit {0})) (w : World) → (g r w).1.db ≡ w.db)
      → Ends f (attempt (revoke_family env f reason) >>= g)
  unfolding attempt ◌>>=◌
  Ends-revoking f reason g h = record {
    run = λ w. inr (
        rw (h (revoke_family env f reason w).0 (revoke_family env f reason w).1)
          (revoke-AllRows f reason w));
  }

  Ends-note :
      (session : RotationResult) (m : Exec Response)
      → Ends session.family_id m
      → Ends session.family_id (note_service req session >> m)
  unfolding note_service log pure ◌>>=◌
  Ends-note session m h = record { run = λ w. go (has_other_service req session) w }
    where
      go :
          (b : Bool) (w : World)
          → (succeeded is_granted
                (((if b then log (mismatch_event req session) else pure tt) >> m) w).0
              ≡ true)
            ⊎ AllRows
                (IsRevokedRow session.family_id)
                (((if b then log (mismatch_event req session) else pure tt) >> m) w).1.db
      go true w = h.run _
      go false w = h.run _

  quiet : (e : Event) (r : Response) (w : World) → ((log e >> pure r) w).1.db ≡ w.db
  unfolding log pure ◌>>=◌
  quiet e r w = refl

  Ends-deny :
      (session : RotationResult) (k reason d : String)
      → Ends session.family_id (deny env session k reason d)
  unfolding deny
  Ends-deny session k reason d = Ends-revoking session.family_id reason _ (λ r w. quiet _ _ w)

  Ends-access :
      (session : RotationResult) (svc : Service) (r : Result String)
      → Ends session.family_id (access_issued env srv req session svc r)
  unfolding access_issued pure
  Ends-access session svc (ok a) = record { run = λ w. inl refl }
  Ends-access session svc (err e) = Ends-revoking session.family_id "issue_failed" _ (λ r w. refl)

  Ends-admit :
      (session : RotationResult) (user : User) (svc : Service) (o : Option String)
      → Ends session.family_id (admit env srv req session user svc o)
  unfolding admit
  Ends-admit session user svc (some x) = Ends-deny session _ _ _
  Ends-admit session user svc none =
      Ends-bind_attempt session.family_id _ _ (λ r w e. Ends-access session svc r)

  Ends-service :
      (session : RotationResult) (user : User) (o : Option Service)
      → Ends session.family_id (with_service env srv req session user o)
  unfolding with_service
  Ends-service session user none = Ends-deny session _ _ _
  Ends-service session user (some svc) = Ends-note session _ (Ends-admit session user svc _)

  -- Where no call fails, a user is missing or read.
  user_read :
      (id : Option ℕ) (w : World) (e : Error)
      → (active_session_user env id w).0 ≡ err e
      → e ≡ no_rows
  unfolding active_session_user raise query call
  user_read none w e h = cc
  user_read (some id) w e h = ground (arith, healthy w.step)

  Ends-user :
      (session : RotationResult) (r : Result User)
      → ((e : Error) → r ≡ err e → e ≡ no_rows)
      → Ends session.family_id (with_user env srv req session r)
  unfolding with_user
  Ends-user session (err no_rows) h =
      Ends-revoking session.family_id "user_inactive" _ (λ r w. quiet _ _ w)
  Ends-user session (err e) h = let clash = h _ refl in cc
  Ends-user session (ok user) h = Ends-service session user _

  Ends-session :
      (session : RotationResult) → Ends session.family_id (with_session env srv req (ok session))
  unfolding with_session
  Ends-session session =
      Ends-bind_attempt session.family_id _ _
        (λ r w t. Ends-user session r (λ e same. user_read session.user_id w e (t ∙ same)))

  refresh-Ends :
      (w : World) (session : RotationResult)
      → refused_origin srv.cors_origins req.origins ≡ none
      → presented req ≢ ""
      → (rotate env (presented req) w).0 ≡ ok session
      → (succeeded is_granted (refresh_grant env srv req w).0 ≡ true)
        ⊎ AllRows (IsRevokedRow session.family_id) (refresh_grant env srv req w).1.db
  unfolding refresh_grant checked_origin with_token attempt ◌>>=◌
  refresh-Ends w session o p t =
      let some_token : (presented req == "") ≡ false = ground (arith, eq_iff (presented req) "") in
      let run = (Ends-session session).run (rotate env (presented req) w).1 in
      rw (o, some_token, t) run

-- Where no database call fails, if the rotation of the presented token succeeded and the refresh
-- grant is still not answered with tokens, then every row of the session's family is revoked.
pub ungranted_refresh_revokes :
    (env : Env) (srv : Server) (req : TokenRequest) (w : World) (session : RotationResult)
    → IsHealthy env
    → refused_origin srv.cors_origins req.origins ≡ none
    → presented req ≢ ""
    → (rotate env (presented req) w).0 ≡ ok session
    → succeeded is_granted (refresh_grant env srv req w).0 ≡ false
    → AllRows (IsRevokedRow session.family_id) (refresh_grant env srv req w).1.db
ungranted_refresh_revokes env srv req w session healthy o p t refused =
    elim (refresh-Ends env srv req healthy w session o p t) [ inl granted ↦ cc | inr ended ↦ ended ]
