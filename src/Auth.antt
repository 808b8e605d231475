-- ===== src/Auth.antt =====
-- The HTTP handlers of internal/auth.
pub mod SocialService
pub mod State
pub mod Dispatch
pub mod OidcRequest
pub mod Identity
pub mod LinkInvite
pub mod Policy
pub mod Http
pub mod CodeGrant
pub mod RefreshGrant
pub mod FetchMeta
pub mod Login
pub mod Magic
