-- ===== src/Lib.antt =====
-- kauth is an identity provider for OpenID Connect: services send browsers to it to log in, exchange
-- authorization codes for tokens at POST /token, and renew them there with refresh tokens. This
-- library models the way from a login to a session: where a logged in browser is sent, the state and
-- request cookies of a login, which user an external identity belongs to, invitations that link an
-- identity, the admission policy, the token endpoint, the service that rotates refresh tokens, the
-- checks of a signed token, magic links, the registry of services, and the tables behind all of them.
--
-- Parts and files:
-- - Env: what the code does not define: whether a database call fails, the clock, fresh random
--   text, SHA-256, HMAC, base64, decimal numbers, RFC 3339 and SQLite time texts, case tables,
--   url.Parse, and lower(trim(x)) in SQLite. Each interaction has a number, and the
--   answers depend on it, so that a theorem for every Env covers every course of events.
-- - Exec: code with Go's error results over a World of database, audit log and interaction
--   number. `in_tx` is inTx of internal/token/refresh.go. Exec/Keeps (what every run keeps of the
--   database), Exec/Outcome (what a run that returns has established) and Exec/Spares (authorization
--   codes stay unless the run succeeds) are rules by which proofs follow the code.
-- - Db: the rows of internal/db/gen/models.go; Db/Table: SELECT, UPDATE, DELETE and INSERT on lists of
--   rows; Db/Refresh, Db/Codes, Db/Users, Db/Magic, Db/Identities and Db/Invites: the
--   statements of refresh_tokens.sql.go, authorization_codes.sql.go, users.sql.go,
--   magic_tokens.sql.go, user_identities.sql.go and identity_link_invites.sql.go in internal/db/gen.
--   ListIdentitiesByUser and CountRefreshTokens, which only read, are left out, and of users.sql.go
--   what the admin panel does there. Unlinking an identity and marking it as an admin's (DeleteIdentity and
--   SetAdminOK) are statements that no modelled handler performs.
-- - Text: functions of Go's strings package; Text/Cut: how they take a joined text apart.
-- - Token/KeyRing: internal/token/keyring.go. Token/Epoch: internal/token/epoch.go.
--   Token/Issuer/Verify: Verify and parse of internal/token/issuer.go, with its theorems in
--   Verify/Keys.
-- - Token/Duration and Token/Issuer: internal/token/issuer.go. Token/Refresh: internal/token/refresh.go
--   (rotate is Rotate, issue is Issue, redeem_authorization_code, revoke_family,
--   revoke_family_of_token, classify_rejected and so on; Steps holds its statements and the first row
--   of a family), with its theorems in RowInvariant, Success,
--   Reuse, Reuse/Answers and Atomic.
-- - Registry: internal/service/registry.go and callback.go (resolve is Resolve, with by_domain,
--   by_host, by_id and by_suffix as its levels 1 to 4).
-- - Audit: internal/audit/service.go. Audit/Queue: the queue, its goroutine and Close as steps that take
--   turns, with theorems in Queue/Fifo, Queue/Drain and Queue/Written; Audit/ClientIp: ClientIP.
-- - Auth/Policy: checkPolicy and csvHasExact of internal/auth/identity.go. Auth/Http: requests,
--   responses and single checks. Auth/CodeGrant and Auth/RefreshGrant: authorizationCodeGrant and
--   RefreshToken of internal/auth/token_endpoint.go, one function for each step behind an early
--   return; `token` is Token.
-- - Idp: ForService of internal/idp/registry.go.
-- - Auth/State: internal/auth/state.go (sign is Sign, parse_state is Parse, verify_state is Verify), with
--   theorems in RoundTrip, Parts, Forms and Sound. Auth/OidcRequest: the cookie of internal/auth/oidc_request.go;
--   net/url and %q, which it calls, are its record WebCodec.
-- - Auth/Dispatch and Auth/Dispatch/Forward: internal/auth/dispatch.go, one function for each level
--   of the choice where a logged in browser is sent. Dispatch/Logout is its ServeLogout; Targets, Sent
--   and Level0 hold theorems.
-- - Auth/Identity: internal/auth/identity.go (resolve_identity is resolveIdentity), with theorems in
--   Keeping, Owner, FirstLink, Untrusted and Admitted. Auth/LinkInvite: lookup and finishLink of
--   internal/auth/link_invite.go, with theorems in Linked.
-- - Auth/SocialService: resolveRequestedService of internal/auth/social_service.go; strings.EqualFold is
--   its parameter.
-- - Auth/FetchMeta: internal/fetchmeta/fetchmeta.go. Auth/Login: `complete` of
--   internal/auth/login_complete.go. Auth/Magic and Auth/Magic/Redeem: storeToken and Redeem of
--   internal/auth/magic.go.
-- - Jobs: three of the jobs of internal/jobs/cleanup.go.
-- - Session: a server that performs any sequence of calls, and what holds however long it runs.
-- - Tests: runs at concrete inputs.
--
-- How the parts meet: a handler of Auth reads its request, asks the registry and the policy, and
-- calls RefreshService; RefreshService writes through Db within `in_tx`; all of them log audit
-- events, with `log` of Exec, where the queue has room for every event.
-- SQLite has one writer at a time, so concurrent requests are sequences of their statements and
-- transactions; theorems about sessions speak of sequences of whole calls.
--
-- Numbers: ids and flags are natural numbers, times are whole seconds since 1970, and a
-- time.Duration is its bit pattern below 2 ^ 64. No modelled definition needs fuel: all recursion is
-- on a text or a list. `drain` of Audit/Queue/Drain makes a number of the goroutine's steps, of which
-- three for each event of the channel and three more are enough.
--
-- Not modelled: lines of slog, IP address and user agent in the handlers' events, cancellation of
-- requests, HTTP parsing and JSON, signing of JWTs (a field of the issuer), and the parts of the
-- repository that are not named above (pages and mail of magic links, the exchanges with identity
-- providers, starting an invitation, password logins, the admin panel, configuration, mail and templates).
mod Prelude
pub mod Text
pub mod Env
pub mod Db
pub mod Exec
pub mod Token
pub mod Jobs
pub mod Session
pub mod Registry
pub mod Idp
pub mod Audit
pub mod Auth
mod Tests
