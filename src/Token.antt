-- ===== src/Token.antt =====
-- Tokens (internal/token).
pub mod Duration
pub mod Refresh
pub mod KeyRing
pub mod Epoch
pub mod Issuer
