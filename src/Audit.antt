-- ===== src/Audit.antt =====
-- The audit log's service (internal/audit/service.go). Its callers elsewhere see it as `log` of
-- Exec, where no event is dropped.
pub mod Queue
pub mod ClientIp
