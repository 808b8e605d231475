-- ===== src/Auth/Dispatch/Sent.antt =====
-- What the end of level 0 has done when it hands out an authorization code.
use Prim.Native.String.{◌++◌}
use mathlib.Core.List.{Mem, mem-cons_self, mem-append_right}
use kauth_go.Prelude.{
  ℕ, ◌≡◌, refl, String, Bool, true, false, not, Option, none, some, List, arith, ap, sym, ◌∙◌,
  if◌then◌else◌, unless-some,
}
use kauth_go.Env.{Env}
use kauth_go.Db.{User, Service, AuthorizationCode}
use kauth_go.Db.Table.{insert_row, next_id}
use kauth_go.Db.Users.{is_active}
use kauth_go.Db.Codes.{InsertAuthorizationCodeParams, insert_authorization_code, code_row}
use kauth_go.Exec.{
  Result, ok, err, continue, no_rows, World, Exec, next, pure, attempt, random, clock, call, ◌>>=◌,
}
use kauth_go.Token.Epoch.{issued_after_email_epoch}
use kauth_go.Token.Issuer.{Claims}
use kauth_go.Auth.CodeGrant.{Server}
use kauth_go.Auth.OidcRequest.{WebCodec, OidcAuthorizeRequest, build_redirect_with_code}
use kauth_go.Auth.Dispatch.{
  DispatchRequest, DispatchAnswer, sent_code, Dispatched, refused, code_target, code_inserted,
  code_drawn, code_params, insert_code, with_user, is_subject,
}

-- Does the answer send a code?
abbrev code_sent : DispatchAnswer → Bool
code_sent (sent_code to) = true
code_sent _ = false

-- A new row of the table.
record IsInserted (p : InsertAuthorizationCodeParams) (rows : List AuthorizationCode) : Type 0 where
  id : ℕ
  member : Mem (code_row p id) rows

inserted_row :
    (p : InsertAuthorizationCodeParams) (rows rows' : List AuthorizationCode)
    → insert_authorization_code p rows ≡ some rows'
    → IsInserted p rows'
unfolding insert_authorization_code
inserted_row p rows rows' e =
    let row = code_row p (next_id (λ (r : AuthorizationCode). r.id) rows) in
    let (fresh, taken) = unless-some _ (some (insert_row row rows)) rows' e in
    let same : insert_row row rows ≡ rows' = cc in
    rw (← same) (record {
      id = next_id (λ (r : AuthorizationCode). r.id) rows;
      member = mem-append_right rows mem-cons_self;
    })

insert_code-IsInserted :
    (env : Env) (p : InsertAuthorizationCodeParams) (w : World) (u : Unit {0})
    → (insert_code env p w).0 ≡ ok u
    → IsInserted p (insert_code env p w).1.db.authorization_codes
unfolding insert_code call
insert_code-IsInserted env p w u e =
    let stored : insert_authorization_code p w.db.authorization_codes
        ≡ some (insert_code env p w).1.db.authorization_codes =
      ground arith in
    inserted_row p w.db.authorization_codes (insert_code env p w).1.db.authorization_codes stored

module _ (env : Env) (codec : WebCodec) (srv : Server) (req : DispatchRequest) (claims : Claims)
    (oidc : OidcAuthorizeRequest) (svc : Service) (users : List User) where
  -- The user of the token: one of the table, active, the token's subject, and with the address since
  -- before the token was issued.
  pub record IsCodeUser (user : User) : Type 0 where
    pub stored : Mem user users
    pub active : is_active user ≡ true
    pub subject : is_subject env codec srv req claims oidc svc user ≡ true
    pub epoch : issued_after_email_epoch env claims user ≡ true

  -- The row that a code is found by: it is for the user, the client, the redirect URI and the PKCE
  -- challenge of the request, and not used.
  pub record IsCodeRow (user : User) (code : String) (row : AuthorizationCode) : Type 0 where
    pub hash : row.code ≡ env.sha256_hex code
    pub user_id : row.user_id ≡ some user.id
    pub client : row.service_id ≡ oidc.client_id
    pub redirect : row.redirect_uri ≡ oidc.redirect_uri
    pub challenge : row.code_challenge ≡ oidc.code_challenge
    pub unused : row.used ≡ 0

  -- The code is sent to the request's redirect URI, and its row is in the table of `after`.
  pub record IsSent (after : World) (to : String) : Type 0 where
    pub user : User
    pub of_user : IsCodeUser user
    pub code : String
    pub location : build_redirect_with_code codec oidc.redirect_uri code oidc.state ≡ some to
    pub row : AuthorizationCode
    pub of_code : IsCodeRow user code row
    pub kept : Mem row after.db.authorization_codes

  pub record SendsCode (m : Exec Dispatched) : Type 0 where
    pub value :
        (w : World) (d : Dispatched) (to : String)
        → (m w).0 ≡ ok d
        → d.answer ≡ sent_code to
        → IsSent (m w).1 to

  Sends-other : (d : Dispatched) → code_sent d.answer ≡ false → SendsCode (pure d)
  unfolding pure
  Sends-other d h = record {
    value = λ w d' to e g.
        let same : d ≡ d' = cc in
        let clash : true ≡ false =
          ap code_sent (sym g) ∙ ap (λ (x : Dispatched). code_sent x.answer) (sym same) ∙ h in
        cc;
  }

  Sends-bind :
      {A : Type 0} (m : Exec A) (f : A → Exec Dispatched)
      → ((a : A) → SendsCode (f a))
      → SendsCode (m >>= f)
  unfolding ◌>>=◌
  Sends-bind {A} m f k = record { value = λ w. go (m w).0 (m w).1 }
    where
      go :
          (r : Result A) (w : World) (d : Dispatched) (to : String)
          → (continue r f w).0 ≡ ok d
          → d.answer ≡ sent_code to
          → IsSent (continue r f w).1 to
      go (ok a) w d to e g = (k a).value w d to e g
      go (err x) w d to e g = cc

  target-IsSent :
      (user : User) (code : String) (row : AuthorizationCode) (o : Option String) (w : World)
      (d : Dispatched) (to : String)
      → IsCodeUser user
      → IsCodeRow user code row
      → Mem row w.db.authorization_codes
      → build_redirect_with_code codec oidc.redirect_uri code oidc.state ≡ o
      → (code_target env codec srv req claims oidc svc o w).0 ≡ ok d
      → d.answer ≡ sent_code to
      → IsSent (code_target env codec srv req claims oidc svc o w).1 to
  unfolding code_target pure
  target-IsSent user code row none w d to h of_code kept f e g = cc
  target-IsSent user code row (some there) w d to h of_code kept f e g =
      let same : there ≡ to = cc in
      record {
        user = user;
        of_user = h;
        code = code;
        location = rw (← same) f;
        row = row;
        of_code = of_code;
        kept = kept;
      }

  inserted-IsSent :
      (user : User) (code : String) (now now' : ℕ) (r : Result (Unit {0})) (w : World)
      (d : Dispatched) (to : String)
      → IsCodeUser user
      → ((u : Unit {0})
          → r ≡ ok u
          → IsInserted
              (code_params env codec srv req claims oidc svc user code now now')
              w.db.authorization_codes)
      → (code_inserted env codec srv req claims oidc svc code r w).0 ≡ ok d
      → d.answer ≡ sent_code to
      → IsSent (code_inserted env codec srv req claims oidc svc code r w).1 to
  unfolding code_inserted
  inserted-IsSent user code now now' (err x) w d to h ins e g =
      (Sends-other _ refl).value w d to e g
  inserted-IsSent user code now now' (ok u) w d to h ins e g =
      let new = ins u refl in
      target-IsSent user code
        (code_row (code_params env codec srv req claims oidc svc user code now now') new.id) _ w d
        to h
        (record {
          hash = refl;
          user_id = refl;
          client = refl;
          redirect = refl;
          challenge = refl;
          unused = refl;
        })
        new.member refl e g

  drawn-Sends :
      (user : User) (r : Result String)
      → IsCodeUser user
      → SendsCode (code_drawn env codec srv req claims oidc svc user r)
  unfolding code_drawn clock attempt ◌>>=◌
  drawn-Sends user (err x) h = Sends-other _ refl
  drawn-Sends user (ok code) h = record {
    value = λ w d to.
        let p =
          code_params env codec srv req claims oidc svc user code (env.time w.step)
            (env.time (next w).step) in
        let done = insert_code env p (next (next w)) in
        inserted-IsSent user code (env.time w.step) (env.time (next w).step) done.0 done.1 d to h
          (insert_code-IsInserted env p (next (next w)));
  }

  refused-Sends :
      (email detail : String) → SendsCode (refused env codec srv req claims oidc svc email detail)
  unfolding refused
  refused-Sends email detail = Sends-bind _ _ (λ _. Sends-other _ refl)

  found-Sends :
      (user : User)
      → is_active user ≡ true
      → Mem user users
      → (a b : Bool) → is_subject env codec srv req claims oidc svc user ≡ a
      → issued_after_email_epoch env claims user ≡ b
      → SendsCode (
          if not a
          then refused env codec srv req claims oidc svc user.email
              ("level=0 sub_format=" ++ svc.sub_format)
          else if not b
          then refused env codec srv req claims oidc svc user.email
              "level=0 reason=email_reassigned"
          else (do
            code ← attempt (random env)
            code_drawn env codec srv req claims oidc svc user code))
  found-Sends user h m false b e f = refused-Sends _ _
  found-Sends user h m true false e f = refused-Sends _ _
  found-Sends user h m true true e f =
      Sends-bind _ _
        (λ code. drawn-Sends user code (record { stored = m; active = h; subject = e; epoch = f }))

  pub user-Sends :
      (r : Result User)
      → ((user : User) → r ≡ ok user → (is_active user ≡ true) × Mem user users)
      → SendsCode (with_user env codec srv req claims oidc svc r)
  unfolding with_user
  user-Sends (err no_rows) h = refused-Sends _ _
  user-Sends (err e) h = Sends-other _ refl
  user-Sends (ok user) h = found-Sends user (h user refl).0 (h user refl).1 _ _ refl refl
