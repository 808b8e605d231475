-- ===== src/Token/Epoch.antt =====
-- Since when an e-mail address has been the user's (internal/token/epoch.go).
use kauth_go.Prelude.{ℕ, String, Bool, false, Option, none, some, leb}
use kauth_go.Env.{Env}
use kauth_go.Db.{User}
use kauth_go.Token.Issuer.{Claims}

unfoldable pub parse_epoch : Env → String → Option ℕ
parse_epoch env s = elim (env.parse_utc_time s) [ some t ↦ some t | none ↦ env.parse_sqlite_time s ]

unfoldable pub email_epoch : Env → User → Option ℕ
unfolding parse_epoch
email_epoch env user =
    parse_epoch env (elim user.email_changed_at [ none ↦ user.created_at | some t ↦ t ])

unfoldable pub reached : Option ℕ → Option ℕ → Bool
reached none epoch = false
reached (some issued) none = false
reached (some issued) (some epoch) = leb epoch issued

-- A token without a time of issue, or an epoch that cannot be read, is refused.
unfoldable pub issued_after_email_epoch : Env → Claims → User → Bool
unfolding reached email_epoch
issued_after_email_epoch env claims user = reached claims.issued_at (email_epoch env user)
