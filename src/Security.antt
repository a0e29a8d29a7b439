-- ===== src/Security.antt =====
-- security/: the helpers that keep secrets out of logs.
pub mod Sanitize
pub mod Audit
